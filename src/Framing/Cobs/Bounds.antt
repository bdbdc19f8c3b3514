-- ===== src/Framing/Cobs/Bounds.antt =====
-- Where the zero-stuffing decoder writes (src/lib/ludlc_cobs.c: ludlc_cobs_dec_feed).
use ludlc.Prelude.{
  ℕ, ◌-◌, ◌^◌, ◌≤◌, ◌<◌, ◌≡◌, refl, Bool, true, false, not, ◌&&◌, ltb, ltb→lt, ◌==◌, Option, none,
  some, List, [], ◌∷◌, arith, Bool-cases, inl, inr, if◌then◌else◌,
}
use ludlc.Core.State.{Stats}
use ludlc.Framing.Csum.{CsumAlg}
use ludlc.Framing.Cobs.{
  delimiter, Cdec, cdec_prep, cdec_octet, cdec_data, cdec_close, store_byte, cdec_feed,
}

-- A decoder in its buffer, whose octets behind the buffer are those of `before`.
pub record CobsInBuffer (cap : ℕ) (before : ℕ → ℕ) (d : Cdec) : Type 0 where
  pub cap_kept : d.payload_cap ≡ cap
  pub size_bound : d.size ≤ cap
  pub behind_kept : (i : ℕ) → cap ≤ i → d.payload i ≡ before i

store-CobsInBuffer :
    {cap : ℕ} {before : ℕ → ℕ} (alg : Option CsumAlg) (c : ℕ) (d : Cdec)
    → cap < 2 ^ 16
    → CobsInBuffer cap before d
    → CobsInBuffer cap before (store_byte alg c d)
store-CobsInBuffer alg c d small b = elim (Bool-cases (ltb d.size d.payload_cap)) [
  | inl e ↦ rw e record {
    cap_kept = b.cap_kept;
    size_bound = ground (arith, ltb→lt d.size d.payload_cap e, small, b.cap_kept, b.size_bound);
    behind_kept =
        λ i h. ground (arith, ltb→lt d.size d.payload_cap e, b.cap_kept, b.behind_kept i h);
  }
  | inr e ↦
      rw e record { cap_kept = b.cap_kept; size_bound = b.size_bound; behind_kept = b.behind_kept }
]

same-CobsInBuffer :
    {cap : ℕ} {before : ℕ → ℕ} (code left : ℕ) (started : Bool) (d : Cdec)
    → CobsInBuffer cap before d
    → CobsInBuffer cap before (record d { code = code; left = left; started = started })
same-CobsInBuffer code left started d b = record {
  cap_kept = b.cap_kept;
  size_bound = b.size_bound;
  behind_kept = b.behind_kept;
}

either :
    {cap : ℕ} {before : ℕ → ℕ} (t : Bool) {d e : Cdec}
    → CobsInBuffer cap before d
    → CobsInBuffer cap before e
    → CobsInBuffer cap before (if t then d else e)
either true b c = b
either false b c = c

data-CobsInBuffer :
    {cap : ℕ} {before : ℕ → ℕ} (alg : Option CsumAlg) (c : ℕ) (d : Cdec)
    → cap < 2 ^ 16
    → CobsInBuffer cap before d
    → CobsInBuffer cap before (cdec_data alg c d)
data-CobsInBuffer alg c d small b = either d.over b (
    either (not (d.left == 0))
      (same-CobsInBuffer (store_byte alg c d).code ((store_byte alg c d).left - 1)
        (store_byte alg c d).started (store_byte alg c d) (store-CobsInBuffer alg c d small b))
      (same-CobsInBuffer c (c - 1) true
        (if d.started && not (d.code == 0xff) then store_byte alg delimiter d else d)
        (either (d.started && not (d.code == 0xff)) (store-CobsInBuffer alg delimiter d small b)
          b)))

close-CobsInBuffer :
    {cap : ℕ} {before : ℕ → ℕ} (alg : Option CsumAlg) (d : Cdec) (st : Stats)
    → CobsInBuffer cap before d
    → CobsInBuffer cap before (cdec_close alg d st).0
close-CobsInBuffer none d st b = record {
  cap_kept = ground (arith, b.cap_kept);
  size_bound = ground (arith, b.size_bound);
  behind_kept = λ i h. ground (arith, b.behind_kept i h);
}
close-CobsInBuffer (some alg) d st b = record {
  cap_kept = ground (arith, b.cap_kept);
  size_bound = ground (arith, b.size_bound);
  behind_kept = λ i h. ground (arith, b.behind_kept i h);
}

octet-CobsInBuffer :
    {cap : ℕ} {before : ℕ → ℕ} (alg : Option CsumAlg) (c : ℕ) (d : Cdec) (st : Stats)
    → cap < 2 ^ 16
    → CobsInBuffer cap before d
    → CobsInBuffer cap before (cdec_octet alg c d st).0
unfolding cdec_octet
octet-CobsInBuffer alg c d st small b = elim (Bool-cases (c == delimiter)) [
  | inl e ↦ rw e (close-CobsInBuffer alg d st b)
  | inr e ↦ rw e (data-CobsInBuffer alg c d small b)
]

feed-CobsInBuffer :
    {cap : ℕ} {before : ℕ → ℕ} (alg : Option CsumAlg) (d : Cdec) (st : Stats) (src : List ℕ)
    → cap < 2 ^ 16
    → CobsInBuffer cap before d
    → CobsInBuffer cap before (cdec_feed alg d st src).dec
unfolding cdec_feed
feed-CobsInBuffer alg d st [] small b = b
feed-CobsInBuffer {cap} {before} alg d st (c ∷ src) small b =
    elim (Bool-cases (cdec_octet alg c d st).2) [
      | inl e ↦ rw e octet_kept
      | inr e ↦ rw e (
          feed-CobsInBuffer alg (cdec_octet alg c d st).0 (cdec_octet alg c d st).1 src small
            octet_kept)
    ]
  where
    octet_kept : CobsInBuffer cap before (cdec_octet alg c d st).0
    octet_kept = octet-CobsInBuffer alg c d st small b

-- However many octets come, and whatever they are, the decoder that has been given a buffer of `cap` octets
-- (of at most 65535) counts at most `cap` octets in it, and writes none behind it.
pub cdec_feed-CobsInBuffer :
    (alg : Option CsumAlg) (d : Cdec) (buf : ℕ → ℕ) (cap : ℕ) (st : Stats) (src : List ℕ)
    → cap < 2 ^ 16
    → CobsInBuffer cap buf (cdec_feed alg (cdec_prep alg d buf cap) st src).dec
unfolding cdec_prep
cdec_feed-CobsInBuffer alg d buf cap st src small =
    feed-CobsInBuffer alg (cdec_prep alg d buf cap) st src small
      record { cap_kept = refl; size_bound = omega arith; behind_kept = λ i h. refl }
