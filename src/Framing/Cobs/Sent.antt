-- ===== src/Framing/Cobs/Sent.antt =====
-- The frames that the zero-stuffing encoder sends (src/lib/ludlc_cobs.c: ludlc_cobs_enc_prep,
-- ludlc_cobs_enc_fill and framing_cobs_wire_len), whatever room each call has, and a decoder that gets
-- them.
use ludlc.Prelude.{
  ℕ, suc, ◌+◌, ◌≤◌, ◌<◌, ◌≡◌, ◌≢◌, refl, ◌∙◌, ap, sym, Bool, true, false, Option, List, [], ◌++◌,
  arith, inr, length, ne→==-false,
}
use mathlib.Core.Path.{subst}
use ludlc.Core.State.{Stats}
use ludlc.Framing.Filling
use ludlc.Framing.Counters.{count_rx_packet}
use ludlc.Framing.Csum.{CsumAlg, framed, framed-start}
use ludlc.Framing.Hdlc.Sent.{packet_at}
use ludlc.Framing.Hdlc.RoundTrip.{Fits}
use ludlc.Framing.Cobs.{cobs_wire_len, Cdec, cdec_prep, cdec_feed}
use ludlc.Framing.Cobs.Groups.{groups, stuffed, length-stuffed}
use ludlc.Framing.Cobs.Received.{CobsReceived, cdec_feed-stuffed}
use ludlc.Framing.Cobs.Encode.{
  Cenc, CencFsm, cenc_idle, cenc_code, cenc_data, cenc_prep, cenc_busy, cenc_at, cenc_round,
  cenc_calls,
}
use ludlc.Framing.Cobs.Pending.{cobs_pending, CobsPhase, IsCobsLoaded}
use ludlc.Framing.Cobs.Open.{cenc_weight, code-Stepped, idle-Stepped}
use ludlc.Framing.Cobs.Close.{data-Stepped}

at-Stepped :
    (mem : ℕ → ℕ) (alg : Option CsumAlg) (f : CencFsm) (room : ℕ) (s : Cenc)
    → cenc_busy (record s { state = f }) ≡ true
    → IsCobsLoaded mem (record s { state = f })
    → Filling.Stepped cenc_busy
        (cobs_pending mem alg)
        (IsCobsLoaded mem)
        cenc_weight
        (suc room)
        (record s { state = f })
        (cenc_at f mem alg (suc room) (record s { state = f }))
at-Stepped mem alg cenc_idle room s b l = idle-Stepped mem alg room s b l
at-Stepped mem alg cenc_code room s b l = code-Stepped mem alg room s l
at-Stepped mem alg cenc_data room s b l = data-Stepped mem alg room s l

round-Stepped :
    (mem : ℕ → ℕ) (alg : Option CsumAlg) (room : ℕ) (s : Cenc)
    → cenc_busy s ≡ true
    → IsCobsLoaded mem s
    → Filling.Stepped cenc_busy
        (cobs_pending mem alg)
        (IsCobsLoaded mem)
        cenc_weight
        (suc room)
        s
        (cenc_round mem alg (suc room) s)
round-Stepped mem alg room s b l = at-Stepped mem alg s.state room s b l

weight_light : (s : Cenc) → cenc_weight s ≤ 1
weight_light s = at s.state
  where
    at : (f : CencFsm) → cenc_weight (record s { state = f }) ≤ 1
    at cenc_idle = omega arith
    at cenc_code = omega arith
    at cenc_data = omega arith

-- The encoder at rest.
idle_rest :
    (mem : ℕ → ℕ) (alg : Option CsumAlg) (s : Cenc)
    → IsCobsLoaded mem s
    → cenc_busy s ≡ false
    → (cobs_pending mem alg s ≡ []) × (s.armed ≡ false) × (s.state ≡ cenc_idle)
idle_rest mem alg s l b = at s.state s l b
  where
    at :
        (f : CencFsm) (s : Cenc)
        → IsCobsLoaded mem (record s { state = f })
        → cenc_busy (record s { state = f }) ≡ false
        → (cobs_pending mem alg (record s { state = f }) ≡ []) × (s.armed ≡ false) × (f ≡ cenc_idle)
    at cenc_idle s l b = (ground (arith, b), l.phase, refl)
    at cenc_code s l b = absurd (ground (arith, b))
    at cenc_data s l b = absurd (ground (arith, b))

-- An encoder between two frames, as ludlc_cobs_enc_init and the end of a frame leave it.
pub record IsCobsIdle (s : Cenc) : Type 0 where
  pub idle : s.state ≡ cenc_idle
  pub unarmed : s.armed ≡ false

prepared-IsCobsLoaded :
    (mem : ℕ → ℕ) (s : Cenc) (hdr hdr_sz payload pay_sz : ℕ) (send_eof : Bool)
    → IsCobsIdle s
    → hdr ≢ 0
    → IsCobsLoaded mem (cenc_prep s hdr hdr_sz payload pay_sz send_eof)
unfolding cenc_prep
prepared-IsCobsLoaded mem s hdr hdr_sz payload pay_sz send_eof e h = record {
  hdr_some = inr h;
  phase =
      subst (λ f. CobsPhase mem f (cenc_prep s hdr hdr_sz payload pay_sz send_eof)) (sym e.idle)
        e.unarmed;
}

prepared-pending :
    (mem : ℕ → ℕ) (alg : Option CsumAlg) (s : Cenc) (hdr hdr_sz payload pay_sz : ℕ)
    (send_eof : Bool)
    → IsCobsIdle s
    → 1 ≤ hdr_sz
    → cobs_pending mem alg (cenc_prep s hdr hdr_sz payload pay_sz send_eof)
      ≡ stuffed (framed alg (packet_at mem hdr hdr_sz payload pay_sz))
unfolding cenc_prep
prepared-pending mem alg s hdr hdr_sz payload pay_sz send_eof e one =
    ap
      (λ f.
        cobs_pending mem alg
          (record (cenc_prep s hdr hdr_sz payload pay_sz send_eof) { state = f }))
      e.idle
    ∙ rw (ne→==-false hdr_sz 0 (λ z. absurd (omega (arith, z, one))))
        (ap stuffed (framed-start alg s.csum (packet_at mem hdr hdr_sz payload pay_sz)))

pub cenc_calls-stuffed :
    (mem : ℕ → ℕ) (alg : Option CsumAlg) (s : Cenc) (hdr hdr_sz payload pay_sz : ℕ)
    (send_eof : Bool) (rooms : List ℕ)
    → IsCobsIdle s
    → hdr ≢ 0
    → 1 ≤ hdr_sz
    → cobs_wire_len alg hdr_sz pay_sz < Filling.total rooms
    → ((cenc_calls mem alg rooms (cenc_prep s hdr hdr_sz payload pay_sz send_eof)).0
        ≡ stuffed (framed alg (packet_at mem hdr hdr_sz payload pay_sz)))
      × (cenc_busy (cenc_calls mem alg rooms (cenc_prep s hdr hdr_sz payload pay_sz send_eof)).1
          ≡ false)
      × IsCobsIdle (cenc_calls mem alg rooms (cenc_prep s hdr hdr_sz payload pay_sz send_eof)).1
unfolding cenc_calls
cenc_calls-stuffed mem alg s hdr hdr_sz payload pay_sz send_eof rooms e at one enough =
    let s₁ = cenc_prep s hdr hdr_sz payload pay_sz send_eof in
    let f =
      Filling.step_calls-Filled cenc_busy (cenc_round mem alg) (cobs_pending mem alg)
        (IsCobsLoaded mem) cenc_weight weight_light (round-Stepped mem alg) rooms s₁
        (prepared-IsCobsLoaded mem s hdr hdr_sz payload pay_sz send_eof e at) in
    let all =
      Filling.Filled-all (stuffed (framed alg (packet_at mem hdr hdr_sz payload pay_sz))) f
        (prepared-pending mem alg s hdr hdr_sz payload pay_sz send_eof e one)
        (λ b. (idle_rest mem alg (cenc_calls mem alg rooms s₁).1 f.loaded b).0)
        (omega (arith, enough, length-stuffed alg mem hdr hdr_sz payload pay_sz one)) in
    let rest = idle_rest mem alg (cenc_calls mem alg rooms s₁).1 f.loaded all.1 in
    (all.0, all.1, record { idle = rest.2; unarmed = rest.1 })

-- A packet that the zero-stuffing encoder sends, between two frames before, with any room in each call
-- (more in all than framing_cobs_wire_len says), is received by a decoder that was prepared for a packet
-- of that length, whatever octets follow: the same octets, all up to the delimiter taken, and one more
-- packet counted. The packet has a header of one octet or more, is two octets or more in all, fits the
-- decoder's buffer with its checksum, and the checksum keeps what its documentation says.
pub cenc_calls-cdec_feed :
    (mem : ℕ → ℕ) (alg : Option CsumAlg) (s : Cenc) (hdr hdr_sz payload pay_sz : ℕ)
    (send_eof : Bool) (rooms : List ℕ) (d : Cdec) (buf : ℕ → ℕ) (cap : ℕ) (st : Stats) (ys : List ℕ)
    → IsCobsIdle s
    → hdr ≢ 0
    → 1 ≤ hdr_sz
    → cobs_wire_len alg hdr_sz pay_sz < Filling.total rooms
    → Fits alg cap (packet_at mem hdr hdr_sz payload pay_sz)
    → CobsReceived
        (packet_at mem hdr hdr_sz payload pay_sz)
        (length (
          groups
            (length (framed alg (packet_at mem hdr hdr_sz payload pay_sz)) + 1)
            (framed alg (packet_at mem hdr hdr_sz payload pay_sz))))
        (count_rx_packet st)
        (cdec_feed alg
          (cdec_prep alg d buf cap)
          st
          ((cenc_calls mem alg rooms (cenc_prep s hdr hdr_sz payload pay_sz send_eof)).0 ++ ys))
cenc_calls-cdec_feed mem alg s hdr hdr_sz payload pay_sz send_eof rooms d buf cap st ys e at one
      enough fits =
    let packet = packet_at mem hdr hdr_sz payload pay_sz in
    rw (cenc_calls-stuffed mem alg s hdr hdr_sz payload pay_sz send_eof rooms e at one enough).0
      (cdec_feed-stuffed alg packet d buf cap st ys fits)
