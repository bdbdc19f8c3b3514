-- ===== src/Framing/Stored.antt =====
-- The octets that a decoder has stored, with their checksum: what the decoders of src/lib/ludlc_hdlc.c,
-- src/lib/ludlc_raw.c and src/lib/ludlc_cobs.c share.
use ludlc.Prelude.{
  ℕ, ◌+◌, ◌%◌, ◌^◌, ◌<◌, ◌≡◌, ◌∙◌, ap, ap₂, sym, Option, List, [], ◌∷◌, ◌++◌, arith, length,
  length-append, update,
}
use ludlc.Framing.Octets.{octets, octets-suc, octets-update}
use ludlc.Framing.Csum.{CsumAlg, csum_add, csum_run, csum_run-snoc}

-- A buffer that begins with the octets `pre`, of which the checksum from `start` is `csum`.
pub record Stored (alg : Option CsumAlg) (start : ℕ) (pre : List ℕ) (payload : ℕ → ℕ)
    (size csum : ℕ) : Type 0 where
  pub length_is : size ≡ length pre
  pub octets_are : octets payload 0 (length pre) ≡ pre
  pub sum_is : csum ≡ csum_run alg start pre

grown : (n : ℕ) → n + 1 < 2 ^ 16 → (n + 1) % 2 ^ 16 ≡ n + 1
grown n h = omega arith

-- One octet more.
pub Stored-snoc :
    {alg : Option CsumAlg} {start : ℕ} {pre : List ℕ} {payload : ℕ → ℕ} {size csum : ℕ} (c : ℕ)
    → Stored alg start pre payload size csum
    → length pre + 1 < 2 ^ 16
    → Stored alg start
        (pre ++ (c ∷ []))
        (update payload size c)
        ((size + 1) % 2 ^ 16)
        (csum_add alg csum c)
Stored-snoc {alg} {start} {pre} {payload} {size} {csum} c h small = record {
  length_is =
      ap (λ n. (n + 1) % 2 ^ 16) h.length_is
      ∙ grown (length pre) small
      ∙ sym (length-append pre (c ∷ []));
  octets_are =
      ap (octets (update payload size c) 0) (length-append pre (c ∷ []))
      ∙ octets-suc (update payload size c) 0 (length pre)
      ∙ ap₂ (λ xs x. xs ++ (x ∷ []))
          (octets-update payload 0 (length pre) size c (omega (arith, h.length_is)) ∙ h.octets_are)
          (ground (arith, h.length_is));
  sum_is = ap (λ s. csum_add alg s c) h.sum_is ∙ sym (csum_run-snoc alg start pre c);
}
