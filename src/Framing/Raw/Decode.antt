-- ===== src/Framing/Raw/Decode.antt =====
-- What the raw decoder copies (src/lib/ludlc_raw.c: ludlc_raw_dec_feed).
use ludlc.Prelude.{
  ℕ, ◌+◌, ◌-◌, ◌%◌, ◌^◌, ◌≤◌, ◌<◌, ◌≡◌, min, refl, sym, false, ◌==◌, Option, List, [], ◌∷◌, ◌++◌,
  append_assoc, append-nil, arith, length, length-append, take, take-all, update,
}
use ludlc.Core.State.{Stats}
use ludlc.Framing.Stored.{Stored, Stored-snoc}
use ludlc.Framing.Csum.{CsumAlg, csum_add}
use ludlc.Framing.Raw.{Rdec, rdec_data, rdec_copy, rdec_feed, rdec_close}

-- A decoder that has the octets `pre` of a frame, with the checksum of them from `start`, and wants
-- `left` more.
pub record RawHolds (alg : Option CsumAlg) (start left : ℕ) (pre : List ℕ) (d : Rdec) : Type 0 where
  pub in_frame : d.state ≡ rdec_data
  pub wanted : d.sz ≡ left
  pub stored : Stored alg start pre d.payload d.size d.csum

-- The decoder with one octet more.
abbrev copied : Option CsumAlg → ℕ → Rdec → Rdec
copied alg c d = record d {
  csum = csum_add alg d.csum c;
  payload = update d.payload d.size c;
  size = (d.size + 1) % 2 ^ 16;
}

copied-RawHolds :
    {alg : Option CsumAlg} {start left : ℕ} {pre : List ℕ} (c : ℕ) (d : Rdec)
    → RawHolds alg start left pre d
    → length pre + 1 < 2 ^ 16
    → RawHolds alg start left (pre ++ (c ∷ [])) (copied alg c d)
copied-RawHolds {alg} {start} {left} {pre} c d h small = record {
  in_frame = h.in_frame;
  wanted = h.wanted;
  stored = Stored-snoc c h.stored small;
}

pub copy-RawHolds :
    {alg : Option CsumAlg} {start left : ℕ} (xs pre : List ℕ) (d : Rdec)
    → RawHolds alg start left pre d
    → length pre + length xs < 2 ^ 16
    → RawHolds alg start left (pre ++ xs) (rdec_copy alg xs d)
unfolding rdec_copy
copy-RawHolds [] pre d h small = rw (append-nil pre) h
copy-RawHolds {alg} (x ∷ xs) pre d h small = rw (sym (append_assoc pre (x ∷ []) xs)) (
    copy-RawHolds xs (pre ++ (x ∷ [])) (copied alg x d) (copied-RawHolds x d h (omega arith))
      (rw (length-append pre (x ∷ [])) (omega arith)))

-- Fewer octets than are wanted.
pub feed_part :
    {alg : Option CsumAlg} {start left : ℕ} {pre : List ℕ} (d : Rdec) (st : Stats) (src : List ℕ)
    → RawHolds alg start left pre d
    → length src < left
    → rdec_feed alg d st src ≡ record {
      dec = rdec_copy alg src (record d { sz = (left - length src) });
      stats = st;
      taken = length src;
      done = false;
    }
unfolding rdec_feed
feed_part {alg} {start} {left} d st src h few =
    rw (h.in_frame, h.wanted, min_left, not_zero, take-all (length src) src (omega arith)) refl
  where
    min_left : min (length src) left ≡ length src
    min_left = omega (arith, few)

    not_zero : (left - length src == 0) ≡ false
    not_zero = ground (arith, few)

-- The octets that are wanted, or more.
pub feed_last :
    {alg : Option CsumAlg} {start left : ℕ} {pre : List ℕ} (d : Rdec) (st : Stats) (src : List ℕ)
    → RawHolds alg start left pre d
    → left ≤ length src
    → rdec_feed alg d st src
      ≡ rdec_close alg left (rdec_copy alg (take left src) (record d { sz = 0 })) st
unfolding rdec_feed
feed_last {alg} {start} {left} d st src h many = rw (h.in_frame, h.wanted, min_left, none_left) refl
  where
    min_left : min (length src) left ≡ left
    min_left = omega (arith, many)

    none_left : left - left ≡ 0
    none_left = omega arith
