-- ===== src/Framing/Octets.antt =====
-- Octets in memory, and buffers that are filled from the start.
use ludlc.Prelude.{
  ℕ, zero, suc, ◌+◌, ◌-◌, ◌≤◌, ◌≡◌, ◌≢◌, refl, ◌∙◌, ap, ap₂, List, [], ◌∷◌, ◌++◌, arith, length,
  get_or, drop, update,
}

-- The `n` octets at `p`.
unfoldable pub octets : (ℕ → ℕ) → ℕ → ℕ → List ℕ
octets mem p zero = []
octets mem p (suc n) = mem p ∷ octets mem (p + 1) n

pub octets-step :
    (mem : ℕ → ℕ) (p n : ℕ) → n ≢ 0 → octets mem p n ≡ mem p ∷ octets mem (p + 1) (n - 1)
unfolding octets
octets-step mem p zero h = absurd (h refl)
octets-step mem p (suc n) h = ap (λ k. mem p ∷ octets mem (p + 1) k) (omega arith)

pub length-octets : (mem : ℕ → ℕ) (p n : ℕ) → length (octets mem p n) ≡ n
unfolding octets
length-octets mem p zero = refl
length-octets mem p (suc n) = ap suc (length-octets mem (p + 1) n)

-- One octet more.
pub octets-suc :
    (mem : ℕ → ℕ) (p n : ℕ) → octets mem p (n + 1) ≡ octets mem p n ++ (mem (p + n) ∷ [])
unfolding octets
octets-suc mem p zero = ap (λ k. mem k ∷ []) (omega arith)
octets-suc mem p (suc n) =
    octets-step mem p (suc n + 1) (omega arith)
    ∙ ap (λ k. mem p ∷ octets mem (p + 1) k) (omega arith)
    ∙ ap (λ xs. mem p ∷ xs) (octets-suc mem (p + 1) n)
    ∙ ap (λ k. mem p ∷ (octets mem (p + 1) n ++ (mem k ∷ []))) (omega arith)

-- A write behind the octets does not show.
pub octets-update :
    (mem : ℕ → ℕ) (p n q v : ℕ) → p + n ≤ q → octets (update mem q v) p n ≡ octets mem p n
unfolding octets
octets-update mem p zero q v h = refl
octets-update mem p (suc n) q v h =
    ap (λ x. x ∷ octets (update mem q v) (p + 1) n) (ground arith)
    ∙ ap (λ xs. mem p ∷ xs) (octets-update mem (p + 1) n q v (omega arith))

pub no_octets : (mem : ℕ → ℕ) (p n : ℕ) → n ≡ 0 → octets mem p n ≡ []
unfolding octets
no_octets mem p n e = ap (octets mem p) e

-- Octets in two runs.
pub octets-split :
    (mem : ℕ → ℕ) (p n m : ℕ) → octets mem p (n + m) ≡ octets mem p n ++ octets mem (p + n) m
unfolding octets
octets-split mem p zero m = ap₂ (octets mem) (omega arith) (omega arith)
octets-split mem p (suc n) m =
    octets-step mem p (suc n + m) (omega arith)
    ∙ ap (λ k. mem p ∷ octets mem (p + 1) k) (omega arith)
    ∙ ap (λ xs. mem p ∷ xs) (octets-split mem (p + 1) n m)
    ∙ ap (λ k. mem p ∷ (octets mem (p + 1) n ++ octets mem k m)) (omega arith)

pub octets-prefix :
    (mem : ℕ → ℕ) (p : ℕ) (xs ys : List ℕ)
    → octets mem p (length (xs ++ ys)) ≡ xs ++ ys
    → octets mem p (length xs) ≡ xs
unfolding octets
octets-prefix mem p [] ys h = refl
octets-prefix mem p (x ∷ xs) ys h =
    ap₂ (λ y zs. y ∷ zs) (ap (λ l. get_or l 0 0) h)
      (octets-prefix mem (p + 1) xs ys (ap (drop 1) h))
