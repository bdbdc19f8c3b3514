-- ===== src/Framing/Cobs/Between.antt =====
-- The groups of a packet, one after another, in the zero-stuffing decoder (src/lib/ludlc_cobs.c: ludlc_cobs_dec_feed).
use ludlc.Prelude.{
  ℕ, zero, suc, ◌+◌, ◌^◌, ◌≤◌, ◌<◌, ◌≡◌, ◌≢◌, refl, ◌∙◌, ap, sym, true, false, ◌==◌, ne→==-false,
  Option, List, [], ◌∷◌, ◌++◌, append_assoc, append-nil, arith, Bool-cases, inl, inr, length,
  length-append, drop, length-drop,
}
use mathlib.Core.Path.{subst}
use ludlc.Core.State.{Stats}
use ludlc.Framing.Csum.{CsumAlg}
use ludlc.Framing.Cobs.{delimiter, block_max, Cdec, cdec_code}
use ludlc.Framing.Cobs.Groups.{
  run_of, rest_of, run_rest, run_nonzero, length-run_of, rest_zero, after_group, groups,
}
use ludlc.Framing.Cobs.Decode.{CobsHolds, Ran, feed_run}
use ludlc.Framing.Cobs.Codes.{lead_of, code-CobsHolds, Ran-append, Ran-cons}

groups-stop :
    (fuel : ℕ) (xs : List ℕ)
    → length (rest_of block_max xs) ≡ 0
    → groups (suc fuel) xs ≡ (length (run_of block_max xs) + 1) ∷ run_of block_max xs
unfolding groups
groups-stop fuel xs e =
    rw e (ap (λ ys. (length (run_of block_max xs) + 1) ∷ ys) (append-nil (run_of block_max xs)))

groups-more :
    (fuel : ℕ) (xs : List ℕ)
    → length (rest_of block_max xs) ≢ 0
    → groups (suc fuel) xs
      ≡ (length (run_of block_max xs) + 1)
        ∷ (run_of block_max xs
            ++ groups fuel (after_group (length (run_of block_max xs)) (rest_of block_max xs)))
unfolding groups
groups-more fuel xs e = rw (ne→==-false (length (rest_of block_max xs)) 0 e) refl

no_rest : (ys : List ℕ) → length ys ≡ 0 → ys ≡ []
no_rest [] e = refl
no_rest (y ∷ ys) e = absurd (omega (arith, e))

zero_first :
    (ys : List ℕ)
    → length ys ≢ 0
    → ((c : ℕ) (zs : List ℕ) → ys ≡ c ∷ zs → c ≡ 0)
    → delimiter ∷ drop 1 ys ≡ ys
zero_first [] h z = absurd (h refl)
zero_first (y ∷ ys) h z = ap (λ c. c ∷ ys) (sym (z y ys refl))

-- The rest of a packet: the zero that the next code octet brings, and what the next groups hold.
rest_parts :
    (xs : List ℕ) (d : Cdec)
    → length (rest_of block_max xs) ≢ 0
    → d.started ≡ true
    → d.code ≡ length (run_of block_max xs) + 1
    → lead_of d ++ after_group (length (run_of block_max xs)) (rest_of block_max xs)
      ≡ rest_of block_max xs
rest_parts xs d h s c = elim (Bool-cases (length (run_of block_max xs) == block_max)) [
  | inl e ↦ rw (s, full_code e, e) refl
  | inr e ↦
      rw (s, short_code e, e)
        (zero_first (rest_of block_max xs) h (λ b zs q. rest_zero block_max xs b zs q (not_full e)))
]
  where
    full_code : (length (run_of block_max xs) == block_max) ≡ true → (d.code == 0xff) ≡ true
    full_code e = ground (arith, e, c)

    not_full :
        (length (run_of block_max xs) == block_max) ≡ false
        → length (run_of block_max xs) ≢ block_max
    not_full e = ground (arith, e)

    short_code : (length (run_of block_max xs) == block_max) ≡ false → (d.code == 0xff) ≡ false
    short_code e = ground (arith, e, c, length-run_of block_max xs)

run_length :
    (xs : List ℕ) → length xs ≡ length (run_of block_max xs) + length (rest_of block_max xs)
run_length xs =
    ap length (run_rest block_max xs) ∙ length-append (run_of block_max xs) (rest_of block_max xs)

after_shorter :
    (xs : List ℕ)
    → length (rest_of block_max xs) ≢ 0
    → suc (length (after_group (length (run_of block_max xs)) (rest_of block_max xs))) ≤ length xs
after_shorter xs h = elim (Bool-cases (length (run_of block_max xs) == block_max)) [
  | inl e ↦ rw e (ground (arith, e, h, run_length xs))
  | inr e ↦ rw (e, length-drop 1 (rest_of block_max xs)) (omega (arith, h, run_length xs))
]

-- One group, in a decoder between two groups.
group-Ran :
    {alg : Option CsumAlg} {start cap : ℕ} (xs pre : List ℕ) (d : Cdec) (st : Stats)
    → CobsHolds alg start cap pre d
    → length pre + (length (lead_of d) + length xs) ≤ cap
    → cap < 2 ^ 16
    → (r : Ran alg start cap
        ((pre ++ lead_of d) ++ run_of block_max xs)
        (run_of block_max xs)
        (cdec_code alg (length (run_of block_max xs) + 1) d)
        st)
      × (r.dec.code ≡ length (run_of block_max xs) + 1)
      × (r.dec.started ≡ true)
group-Ran {alg} {start} {cap} xs pre d st h fits small =
    feed_run (run_of block_max xs) (pre ++ lead_of d)
      (cdec_code alg (length (run_of block_max xs) + 1) d) st
      (code-CobsHolds (length (run_of block_max xs) + 1) d h (omega (arith, fits)) small)
      (run_nonzero block_max xs) (omega arith)
      (rw (length-append pre (lead_of d)) (omega (arith, fits, run_length xs))) small

-- The groups of a packet, in a decoder between two groups.
pub groups-Ran :
    {alg : Option CsumAlg} {start cap : ℕ} (fuel : ℕ) (xs pre : List ℕ) (d : Cdec) (st : Stats)
    → CobsHolds alg start cap pre d
    → d.left ≡ 0
    → length pre + (length (lead_of d) + length xs) ≤ cap
    → cap < 2 ^ 16
    → length xs < fuel
    → Ran alg start cap ((pre ++ lead_of d) ++ xs) (groups fuel xs) d st
groups-Ran zero xs pre d st h l fits small enough = absurd (omega (arith, enough))
groups-Ran {alg} {start} {cap} (suc fuel) xs pre d st h l fits small enough =
    elim (Bool-cases (length rest == 0)) [
      | inl e ↦ rw (groups-stop fuel xs (ground (arith, e))) (
          Ran-cons (length run + 1) d (λ z. absurd (omega (arith, z))) h.not_over l
            (subst
              (λ ys. Ran alg start cap (start_of ++ ys) run (cdec_code alg (length run + 1) d) st)
              (whole (ground (arith, e))) group.0))
      | inr e ↦ rw (groups-more fuel xs (ground (arith, e))) (
          Ran-cons (length run + 1) d (λ z. absurd (omega (arith, z))) h.not_over l
            (Ran-append group.0 (
              subst (λ ys. Ran alg start cap ys (groups fuel after) group.0.dec st)
                (joined_parts (ground (arith, e)))
                (groups-Ran fuel after (start_of ++ run) group.0.dec st group.0.holds
                  group.0.none_left (parts_fit (ground (arith, e))) small
                  (omega (arith, enough, after_shorter xs (ground (arith, e))))))))
    ]
  where
    run : List ℕ
    run = run_of block_max xs

    rest : List ℕ
    rest = rest_of block_max xs

    after : List ℕ
    after = after_group (length run) rest

    start_of : List ℕ
    start_of = pre ++ lead_of d

    group :
        (r : Ran alg start cap (start_of ++ run) run (cdec_code alg (length run + 1) d) st)
        × (r.dec.code ≡ length run + 1)
        × (r.dec.started ≡ true)
    group = group-Ran xs pre d st h fits small

    whole : length rest ≡ 0 → run ≡ xs
    whole e = sym (run_rest block_max xs ∙ ap (λ ys. run ++ ys) (no_rest rest e) ∙ append-nil run)

    parts : length rest ≢ 0 → lead_of group.0.dec ++ after ≡ rest
    parts e = rest_parts xs group.0.dec e group.2 group.1

    joined_parts :
        length rest ≢ 0 → ((start_of ++ run) ++ lead_of group.0.dec) ++ after ≡ start_of ++ xs
    joined_parts e =
        append_assoc (start_of ++ run) (lead_of group.0.dec) after
        ∙ ap (λ ys. (start_of ++ run) ++ ys) (parts e)
        ∙ append_assoc start_of run rest
        ∙ ap (λ ys. start_of ++ ys) (sym (run_rest block_max xs))

    parts_fit :
        length rest ≢ 0
        → length (start_of ++ run) + (length (lead_of group.0.dec) + length after) ≤ cap
    parts_fit e =
        rw (length-append start_of run, length-append pre (lead_of d))
          (omega (
            arith,
            fits,
            run_length xs,
            ap length (parts e),
            length-append (lead_of group.0.dec) after,
          ))
