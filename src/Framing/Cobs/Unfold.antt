-- ===== src/Framing/Cobs/Unfold.antt =====
-- The groups of a packet, one after the other (src/lib/include/ludlc_cobs.h).
use ludlc.Prelude.{
  ℕ, zero, suc, ◌+◌, ◌<◌, ◌≡◌, refl, ◌∙◌, ap, false, List, [], ◌∷◌, ◌++◌, append_assoc, arith,
  Bool-cases, inl, inr, ◌==◌, if◌then◌else◌, length, length-append, length-drop,
}
use ludlc.Framing.Cobs.{delimiter, block_max}
use ludlc.Framing.Cobs.Groups.{run_of, rest_of, after_group, groups, stuffed, run_rest}

-- What follows a group is shorter than what it began.
after_short :
    (xs : List ℕ)
    → (length (rest_of block_max xs) == 0) ≡ false
    → length (after_group (length (run_of block_max xs)) (rest_of block_max xs)) < length xs
after_short xs e =
    let run = run_of block_max xs in
    let rest = rest_of block_max xs in
    let split = ap length (run_rest block_max xs) ∙ length-append run rest in
    elim (Bool-cases (length run == block_max)) [
      | inl f ↦ rw f (ground (arith, f, split))
      | inr f ↦ rw f (ground (arith, e, split, length-drop 1 rest))
    ]

-- The fuel does not show once it is more than there are octets.
groups_fuel : (f g : ℕ) (xs : List ℕ) → length xs < f → length xs < g → groups f xs ≡ groups g xs
unfolding groups
groups_fuel zero g xs h k = absurd (omega (arith, h))
groups_fuel (suc f) zero xs h k = absurd (omega (arith, k))
groups_fuel (suc f) (suc g) xs h k =
    let run = run_of block_max xs in
    let rest = rest_of block_max xs in
    let after = after_group (length run) rest in
    ap (λ ys. (length run + 1) ∷ (run ++ ys))
      (elim (Bool-cases (length rest == 0)) [
        | inl e ↦ rw e refl
        | inr e ↦ rw e (
            groups_fuel f g after (omega (arith, h, after_short xs e))
              (omega (arith, k, after_short xs e)))
      ])

pub stuffed-step :
    (xs : List ℕ)
    → stuffed xs
      ≡ (length (run_of block_max xs) + 1)
        ∷ (run_of block_max xs
            ++ (if length (rest_of block_max xs) == 0
                then delimiter ∷ []
                else stuffed (after_group (length (run_of block_max xs)) (rest_of block_max xs))))
unfolding groups
stuffed-step xs =
    let run = run_of block_max xs in
    let rest = rest_of block_max xs in
    let after = after_group (length run) rest in
    ap (λ n. groups n xs ++ (delimiter ∷ [])) {y = suc (length xs)} (omega arith)
    ∙ ap (λ ys. (length run + 1) ∷ ys)
        (append_assoc run (if length rest == 0 then [] else groups (length xs) after)
            (delimiter ∷ [])
          ∙ ap (λ ys. run ++ ys)
              (elim (Bool-cases (length rest == 0)) [
                | inl e ↦ rw e refl
                | inr e ↦ rw e (
                    ap (λ ys. ys ++ (delimiter ∷ []))
                      (groups_fuel (length xs) (length after + 1) after (after_short xs e)
                        (omega arith)))
              ]))
