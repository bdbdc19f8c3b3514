-- ===== src/Framing/Hdlc/Bounds.antt =====
-- Where the escaping decoder writes (src/lib/ludlc_hdlc.c: ludlc_hdlc_dec_feed).
use Prim.Native.Nat.{bit_xor}
use ludlc.Prelude.{
  ℕ, ◌^◌, ◌≤◌, ◌<◌, ◌≡◌, refl, ltb, ltb→lt, ◌==◌, Option, none, some, List, [], ◌∷◌, arith,
  Bool-cases, inl, inr,
}
use ludlc.Core.State.{Stats}
use ludlc.Framing.Csum.{CsumAlg}
use ludlc.Framing.Hdlc.{
  sof, esc, mask, Hdec, HdecFsm, dec_idle, dec_wait_sof, dec_esc, dec_payload, dec_at, dec_at_sof,
  dec_octet, dec_feed, dec_store, dec_prep,
}
use ludlc.Framing.Hdlc.Stream.{dec_calls, joined, dec_calls-joined}

-- A decoder in its buffer, whose octets behind the buffer are those of `before`.
pub record InBuffer (cap : ℕ) (before : ℕ → ℕ) (d : Hdec) : Type 0 where
  pub cap_kept : d.payload_cap ≡ cap
  pub size_bound : d.size ≤ cap
  pub behind_kept : (i : ℕ) → cap ≤ i → d.payload i ≡ before i

moved :
    {cap : ℕ} {before : ℕ → ℕ} (f : HdecFsm) (d : Hdec)
    → InBuffer cap before d
    → InBuffer cap before (record d { state = f })
moved f d b = record {
  cap_kept = b.cap_kept;
  size_bound = b.size_bound;
  behind_kept = b.behind_kept;
}

store-InBuffer :
    {cap : ℕ} {before : ℕ → ℕ} (alg : Option CsumAlg) (c : ℕ) (d : Hdec) (st : Stats)
    → cap < 2 ^ 16
    → InBuffer cap before d
    → InBuffer cap before (dec_store alg c d st).0
store-InBuffer alg c d st small b = elim (Bool-cases (ltb d.size d.payload_cap)) [
  | inl e ↦ rw e record {
    cap_kept = b.cap_kept;
    size_bound = ground (arith, ltb→lt d.size d.payload_cap e, small, b.cap_kept, b.size_bound);
    behind_kept =
        λ i h. ground (arith, ltb→lt d.size d.payload_cap e, b.cap_kept, b.behind_kept i h);
  }
  | inr e ↦
      rw e record { cap_kept = b.cap_kept; size_bound = omega arith; behind_kept = b.behind_kept }
]

sof-InBuffer :
    {cap : ℕ} {before : ℕ → ℕ} (alg : Option CsumAlg) (d : Hdec) (st : Stats)
    → InBuffer cap before d
    → InBuffer cap before (dec_at_sof alg d st).0
sof-InBuffer none d st b = record {
  cap_kept = ground (arith, b.cap_kept);
  size_bound = ground (arith, b.size_bound);
  behind_kept = λ i h. ground (arith, b.behind_kept i h);
}
sof-InBuffer (some alg) d st b = record {
  cap_kept = ground (arith, b.cap_kept);
  size_bound = ground (arith, b.size_bound);
  behind_kept = λ i h. ground (arith, b.behind_kept i h);
}

at-InBuffer :
    {cap : ℕ} {before : ℕ → ℕ} (f : HdecFsm) (alg : Option CsumAlg) (c : ℕ) (d : Hdec) (st : Stats)
    → cap < 2 ^ 16
    → InBuffer cap before d
    → InBuffer cap before (dec_at f alg c d st).0
at-InBuffer dec_idle alg c d st small b = b
at-InBuffer dec_wait_sof alg c d st small b = sof-InBuffer alg d st b
at-InBuffer dec_esc alg c d st small b =
    store-InBuffer alg (bit_xor c mask) (record d { state = dec_payload }) st small
      (moved dec_payload d b)
at-InBuffer dec_payload alg c d st small b = elim (Bool-cases (c == esc)) [
  | inl e ↦ rw e (moved dec_esc d b)
  | inr e ↦ rw e (store-InBuffer alg c d st small b)
]

octet-InBuffer :
    {cap : ℕ} {before : ℕ → ℕ} (alg : Option CsumAlg) (c : ℕ) (d : Hdec) (st : Stats)
    → cap < 2 ^ 16
    → InBuffer cap before d
    → InBuffer cap before (dec_octet alg c d st).0
unfolding dec_octet
octet-InBuffer alg c d st small b = elim (Bool-cases (c == sof)) [
  | inl e ↦ rw e (sof-InBuffer alg (record d { state = dec_wait_sof }) st (moved dec_wait_sof d b))
  | inr e ↦ rw e (at-InBuffer d.state alg c d st small b)
]

pub dec_feed-InBuffer :
    {cap : ℕ} {before : ℕ → ℕ} (alg : Option CsumAlg) (d : Hdec) (st : Stats) (src : List ℕ)
    → cap < 2 ^ 16
    → InBuffer cap before d
    → InBuffer cap before (dec_feed alg d st src).dec
unfolding dec_feed
dec_feed-InBuffer alg d st [] small b = b
dec_feed-InBuffer alg d st (c ∷ src) small b = elim (Bool-cases (dec_octet alg c d st).2) [
  | inl e ↦ rw e (octet-InBuffer alg c d st small b)
  | inr e ↦ rw e (
      dec_feed-InBuffer alg (dec_octet alg c d st).0 (dec_octet alg c d st).1 src small
        (octet-InBuffer alg c d st small b))
]

-- However many octets come, and whatever they are and however they are cut into calls, the decoder that
-- has been given a buffer of `cap` octets (of at most 65535) counts at most `cap` octets in it, and
-- writes none behind it.
pub dec_calls-InBuffer :
    (alg : Option CsumAlg) (d : Hdec) (buf : ℕ → ℕ) (cap : ℕ) (st : Stats) (srcs : List (List ℕ))
    → cap < 2 ^ 16
    → InBuffer cap buf (dec_calls alg (dec_prep alg d buf cap) st srcs).dec
unfolding dec_prep
dec_calls-InBuffer alg d buf cap st srcs small =
    rw (dec_calls-joined alg (dec_prep alg d buf cap) st srcs) (
      dec_feed-InBuffer alg (dec_prep alg d buf cap) st (joined srcs) small
        record { cap_kept = refl; size_bound = omega arith; behind_kept = λ i h. refl })
