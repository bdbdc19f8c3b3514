-- ===== src/Framing/Hdlc/Fill.antt =====
-- ludlc_hdlc_enc_fill (src/lib/ludlc_hdlc.c) against the frame it writes.
use ludlc.Prelude.{ℕ, suc, refl, Option, none, some, List, arith}
use ludlc.Framing.Filling
use ludlc.Framing.Csum.{CsumAlg}
use ludlc.Framing.Hdlc.{Henc, enc_round, enc_busy, enc_fill, enc_calls, written}
use ludlc.Framing.Hdlc.Encode.{pending, IsLoaded, Rounded}
use ludlc.Framing.Hdlc.Round.{enc_round-Rounded}

written-Rounded :
    {mem : ℕ → ℕ} {alg : Option CsumAlg} (room : ℕ) (s : Henc) (out : Option ℕ × Henc)
    → Rounded mem alg s out
    → Filling.Rounded enc_busy (pending mem alg) (IsLoaded alg) (suc room) s (written out)
written-Rounded room s (none, s₁) r = record {
  wrote = r.wrote;
  fits = omega arith;
  loaded = r.loaded;
  last = λ e. r.last refl;
}
written-Rounded room s (some c, s₁) r = record {
  wrote = r.wrote;
  fits = omega arith;
  loaded = r.loaded;
  last = λ e. absurd (omega (arith, e));
}

-- With a packet loaded, or none, and whatever room there is, a call of ludlc_hdlc_enc_fill writes the next
-- octets of what the encoder still has to send, no more than there is room for, and leaves the rest
-- pending in an encoder that is loaded too; while the encoder is busy, it fills the room.
pub enc_fill-Filled :
    (mem : ℕ → ℕ) (alg : Option CsumAlg) (room : ℕ) (s : Henc)
    → IsLoaded alg s
    → Filling.Filled enc_busy (pending mem alg) (IsLoaded alg) room s (enc_fill mem alg room s)
unfolding enc_fill
enc_fill-Filled mem alg room s l =
    Filling.fill-Filled enc_busy (λ _ s. written (enc_round mem alg s)) (pending mem alg)
      (IsLoaded alg)
      (λ n t b m. written-Rounded n t (enc_round mem alg t) (enc_round-Rounded mem alg t b m)) room
      s l

pub enc_calls-Filled :
    (mem : ℕ → ℕ) (alg : Option CsumAlg) (rooms : List ℕ) (s : Henc)
    → IsLoaded alg s
    → Filling.Filled enc_busy
        (pending mem alg)
        (IsLoaded alg)
        (Filling.total rooms)
        s
        (enc_calls mem alg rooms s)
unfolding enc_calls
enc_calls-Filled mem alg rooms s l =
    Filling.calls-Filled enc_busy (λ _ s. written (enc_round mem alg s)) (pending mem alg)
      (IsLoaded alg)
      (λ n t b m. written-Rounded n t (enc_round mem alg t) (enc_round-Rounded mem alg t b m)) rooms
      s l
