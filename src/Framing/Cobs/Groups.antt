-- ===== src/Framing/Cobs/Groups.antt =====
-- A packet's octets in groups that hold no zero, as the comments of src/lib/include/ludlc_cobs.h describe
-- the encoding, and its length (src/lib/ludlc_cobs.c: framing_cobs_wire_len).
use ludlc.Prelude.{
  ℕ, zero, suc, ◌+◌, ◌-◌, ◌/◌, ◌≤◌, ◌≡◌, ◌≢◌, refl, ◌∙◌, ap, ap₂, sym, true, false, Option, List,
  [], ◌∷◌, ◌++◌, All, arith, Bool-cases, inl, inr, ◌==◌, ne→==-false, if◌then◌else◌, length,
  length-append, drop, length-drop, get_or,
}
use mathlib.Core.Path.{subst}
use ludlc.Framing.Octets.{octets, length-octets}
use ludlc.Framing.Csum.{CsumAlg, framed, csum_octets, length-framed}
use ludlc.Framing.Hdlc.Sent.{packet_at}
use ludlc.Framing.Cobs.{delimiter, block_max, cobs_wire_len}

-- The octets up to the next zero, at most `n`, and what follows them.
unfoldable pub run_of : ℕ → List ℕ → List ℕ
run_of zero xs = []
run_of (suc n) [] = []
run_of (suc n) (x ∷ xs) = if x == 0 then [] else (x ∷ run_of n xs)

unfoldable pub rest_of : ℕ → List ℕ → List ℕ
rest_of zero xs = xs
rest_of (suc n) [] = []
rest_of (suc n) (x ∷ xs) = if x == 0 then (x ∷ xs) else rest_of n xs

-- What follows a group of `n` octets: the zero that ends a group that is not full is not sent.
abbrev pub after_group : ℕ → List ℕ → List ℕ
after_group n rest = if n == block_max then rest else drop 1 rest

-- The groups, each after its code octet.
unfoldable pub groups : ℕ → List ℕ → List ℕ
groups zero xs = []
groups (suc fuel) xs =
    let run = run_of block_max xs in
    let rest = rest_of block_max xs in
    let more = groups fuel (after_group (length run) rest) in
    (length run + 1) ∷ (run ++ (if length rest == 0 then [] else more))

-- A packet on the wire, its delimiter at the end.
abbrev pub stuffed : List ℕ → List ℕ
stuffed xs = groups (length xs + 1) xs ++ (delimiter ∷ [])

pub run_rest : (n : ℕ) (xs : List ℕ) → xs ≡ run_of n xs ++ rest_of n xs
unfolding run_of rest_of
run_rest zero xs = refl
run_rest (suc n) [] = refl
run_rest (suc n) (x ∷ xs) = elim (Bool-cases (x == 0)) [
  | inl e ↦ rw e refl
  | inr e ↦ rw e (ap (λ ys. x ∷ ys) (run_rest n xs))
]

pub length-run_of : (n : ℕ) (xs : List ℕ) → length (run_of n xs) ≤ n
unfolding run_of
length-run_of zero xs = omega arith
length-run_of (suc n) [] = omega arith
length-run_of (suc n) (x ∷ xs) = elim (Bool-cases (x == 0)) [
  | inl e ↦ rw e (omega arith)
  | inr e ↦ rw e (omega (arith, length-run_of n xs))
]

pub run_nonzero : (n : ℕ) (xs : List ℕ) → All (λ x. (x == 0) ≡ false) (run_of n xs)
unfolding run_of
run_nonzero zero xs = tt
run_nonzero (suc n) [] = tt
run_nonzero (suc n) (x ∷ xs) = elim (Bool-cases (x == 0)) [
  | inl e ↦ rw e tt
  | inr e ↦ rw e (e, run_nonzero n xs)
]

pub run_cons :
    (n x : ℕ) (xs : List ℕ) → (x == 0) ≡ false → run_of (suc n) (x ∷ xs) ≡ x ∷ run_of n xs
unfolding run_of
run_cons n x xs h = rw h refl

pub run_stop : (n x : ℕ) (xs : List ℕ) → (x == 0) ≡ true → run_of (suc n) (x ∷ xs) ≡ []
unfolding run_of
run_stop n x xs h = rw h refl

pub rest_cons : (n x : ℕ) (xs : List ℕ) → (x == 0) ≡ false → rest_of (suc n) (x ∷ xs) ≡ rest_of n xs
unfolding rest_of
rest_cons n x xs h = rw h refl

pub rest_stop : (n x : ℕ) (xs : List ℕ) → (x == 0) ≡ true → rest_of (suc n) (x ∷ xs) ≡ x ∷ xs
unfolding rest_of
rest_stop n x xs h = rw h refl

-- A group that is not full ends at a zero.
pub rest_zero :
    (n : ℕ) (xs : List ℕ) (c : ℕ) (ys : List ℕ)
    → rest_of n xs ≡ c ∷ ys
    → length (run_of n xs) ≢ n
    → c ≡ 0
unfolding run_of rest_of
rest_zero zero xs c ys e h = absurd (h refl)
rest_zero (suc n) [] c ys e h = absurd (omega (arith, ap length e))
rest_zero (suc n) (x ∷ xs) c ys e h = elim (Bool-cases (x == 0)) [
  | inl f ↦ sym (ap (λ l. get_or l 0 0) (sym (rest_stop n x xs f) ∙ e)) ∙ ground (arith, f)
  | inr f ↦
      rest_zero n xs c ys (sym (rest_cons n x xs f) ∙ e)
        (λ g. h (ap length (run_cons n x xs f) ∙ ap suc g))
]

full_group :
    (n r t l : ℕ) → n ≡ r + t → r ≡ 254 → l ≤ t + t / 254 + 1 → suc (r + l) ≤ n + n / 254 + 1
full_group n r t l e f h = omega arith

short_group :
    (n r t l : ℕ)
    → n ≡ r + t
    → t ≢ 0
    → l ≤ (t - 1) + (t - 1) / 254 + 1
    → suc (r + l) ≤ n + n / 254 + 1
short_group n r t l e f h = omega arith

-- One overhead octet for the first group, and one for each 254 octets.
length-groups : (fuel : ℕ) (xs : List ℕ) → length (groups fuel xs) ≤ length xs + length xs / 254 + 1
unfolding groups
length-groups zero xs = omega arith
length-groups (suc fuel) xs =
    let run = run_of block_max xs in
    let rest = rest_of block_max xs in
    let after = after_group (length run) rest in
    rw (length-append run (if length rest == 0 then [] else groups fuel after))
      (elim (Bool-cases (length rest == 0)) [
        | inl e ↦ rw e (omega (arith, split_length))
        | inr e ↦ rw e (elim (Bool-cases (length run == block_max)) [
          | inl f ↦
              full_group (length xs) (length run) (length rest) (length (groups fuel after))
                split_length (ground (arith, f))
                (subst (λ n. length (groups fuel after) ≤ n + n / 254 + 1) (ap length (rw f refl))
                  (length-groups fuel after))
          | inr f ↦
              short_group (length xs) (length run) (length rest) (length (groups fuel after))
                split_length (ground (arith, e))
                (subst (λ n. length (groups fuel after) ≤ n + n / 254 + 1)
                  (ap length (rw f refl) ∙ length-drop 1 rest) (length-groups fuel after))
        ])
      ])
  where
    split_length : length xs ≡ length (run_of block_max xs) + length (rest_of block_max xs)
    split_length =
        ap length (run_rest block_max xs)
        ∙ length-append (run_of block_max xs) (rest_of block_max xs)

within :
    (n l : ℕ)
    → 1 ≤ n
    → l ≤ n + n / 254 + 1
    → l + 1 ≤ (if n == 0 then 1 else (n + (n + 253 - 1) / 253 + 1))
within n l one h = rw (ne→==-false n 0 (λ e. absurd (omega (arith, one, e)))) (omega arith)

-- A packet with a header of one octet or more, with its checksum, is on the wire no longer than
-- framing_cobs_wire_len says, its delimiter included.
pub length-stuffed :
    (alg : Option CsumAlg) (mem : ℕ → ℕ) (hdr hdr_sz payload pay_sz : ℕ)
    → 1 ≤ hdr_sz
    → length (stuffed (framed alg (packet_at mem hdr hdr_sz payload pay_sz)))
      ≤ cobs_wire_len alg hdr_sz pay_sz
unfolding cobs_wire_len
length-stuffed alg mem hdr hdr_sz payload pay_sz one =
    rw (length-append (groups (length xs + 1) xs) (delimiter ∷ []), sym xs_length)
      (within (length xs) _ (rw xs_length (omega (arith, one))) (length-groups (length xs + 1) xs))
  where
    xs : List ℕ
    xs = framed alg (packet_at mem hdr hdr_sz payload pay_sz)

    xs_length : length xs ≡ hdr_sz + pay_sz + csum_octets alg
    xs_length =
        length-framed alg (packet_at mem hdr hdr_sz payload pay_sz)
        ∙ ap (λ n. n + csum_octets alg)
            (length-append (octets mem hdr hdr_sz) (octets mem payload pay_sz)
              ∙ ap₂ (λ n m. n + m) (length-octets mem hdr hdr_sz)
                  (length-octets mem payload pay_sz))
