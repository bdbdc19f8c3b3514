-- ===== src/Core/Items.antt =====
-- The packets that stand in a stretch of the window, in the order of their IDs.
use ludlc.Prelude.{
  ℕ, zero, suc, ◌+◌, ◌-◌, ◌%◌, ◌≤◌, ◌<◌, ◌≡◌, refl, sym, ◌≢◌, List, [], ◌∷◌, ◌++◌, ap, ap₂, ◌∙◌,
  arith, update, length, ne→==-false, ==-refl,
}
use ludlc.Core.Window.{IsWindow, slot-ne}

module _ {ℓ} {A : Type ℓ} (w : ℕ) where
  -- The `n` items after the position `x`, in a window `q` of `w` slots.
  abbrev pub items : (ℕ → A) → ℕ → ℕ → List A
  items q x zero = []
  items q x (suc n) = q ((x + 1) % w) ∷ items q (x + 1) n

  pub length-items : (q : ℕ → A) (x n : ℕ) → length (items q x n) ≡ n
  length-items q x zero = refl
  length-items q x (suc n) = ap suc (length-items q (x + 1) n)

  pub items-append : (q : ℕ → A) (x m n : ℕ) → items q x (m + n) ≡ items q x m ++ items q (x + m) n
  items-append q x zero n = ap₂ (λ a b. items q a b) (omega arith) (omega arith)
  items-append q x (suc m) n =
      let e : suc m + n ≡ suc (m + n) = omega arith in
      let e' : x + suc m ≡ x + 1 + m = omega arith in
      rw (e, e') (ap (λ l. q ((x + 1) % w) ∷ l) (items-append q (x + 1) m n))

  -- Positions that share a slot hold the same items.
  pub items-congr : (q : ℕ → A) (x y n : ℕ) → IsWindow w → x % w ≡ y % w → items q x n ≡ items q y n
  items-congr q x y zero h e = refl
  items-congr q x y (suc n) h e =
      ap₂ ◌∷◌ (ap q (ground arith)) (items-congr q (x + 1) (y + 1) n h (ground arith))

  -- A write to no slot of the stretch leaves it alone.
  pub items-update :
      (q : ℕ → A) (x n i : ℕ) (v : A)
      → ((k : ℕ) → k < n → (x + 1 + k) % w ≢ i)
      → items (update q i v) x n ≡ items q x n
  items-update q x zero i v h = refl
  items-update q x (suc n) i v h =
      ap₂ ◌∷◌
        (rw (
          ne→==-false i ((x + 1) % w)
            (λ e. h 0 (omega arith) (ap (λ t. t % w) (omega arith) ∙ sym e))))
        (items-update q (x + 1) n i v
          (λ k lt e. h (k + 1) (omega arith) (ap (λ t. t % w) (omega arith) ∙ e)))

  -- A write past the stretch, less than a turn on from its start, leaves it alone.
  pub items-update_after :
      (q : ℕ → A) (x n m : ℕ) (v : A)
      → IsWindow w
      → n < m
      → m ≤ w
      → items (update q ((x + m) % w) v) x n ≡ items q x n
  items-update_after q x n m v h lt le = items-update q x n ((x + m) % w) v (λ k l e.
      slot-ne w x (1 + k) m h (omega arith) (omega arith) (ap (λ t. t % w) (omega arith) ∙ e))

  -- A write just past the stretch, which a window that is not full has room for, extends it.
  pub items-update_next :
      (q : ℕ → A) (x n : ℕ) (v : A)
      → IsWindow w
      → n < w
      → items (update q ((x + (n + 1)) % w) v) x (n + 1) ≡ items q x n ++ (v ∷ [])
  items-update_next q x n v h lt =
      items-append (update q ((x + (n + 1)) % w) v) x n 1
      ∙ ap₂ ◌++◌ (items-update_after q x n (n + 1) v h (omega arith) (omega arith))
          (let e : x + n + 1 ≡ x + (n + 1) = omega arith in rw (e, ==-refl))

  -- A write to a position before the stretch, less than a turn from its end, leaves it alone.
  pub items-update_before :
      (q : ℕ → A) (x n y : ℕ) (v : A)
      → IsWindow w
      → y ≤ x
      → x + n < y + w
      → items (update q (y % w) v) x n ≡ items q x n
  items-update_before q x n y v h le lt = items-update q x n (y % w) v (λ k l e.
      slot-ne w y 0 (x + 1 + k - y) h (omega arith) (omega arith)
        (ap (λ t. t % w) (omega arith) ∙ sym e ∙ ap (λ t. t % w) (omega arith)))

  -- Only the slots of the stretch count.
  pub items-ext :
      (q p : ℕ → A) (x n : ℕ)
      → ((k : ℕ) → k < n → q ((x + 1 + k) % w) ≡ p ((x + 1 + k) % w))
      → items q x n ≡ items p x n
  items-ext q p x zero h = refl
  items-ext q p x (suc n) h =
      let e : x + 1 + 0 ≡ x + 1 = omega arith in
      ap₂ ◌∷◌ (rw e at (h 0 (omega arith))) (
        items-ext q p (x + 1) n (λ k l.
          let e : x + 1 + (k + 1) ≡ x + 1 + 1 + k = omega arith in
          rw e at (h (k + 1) (omega arith))))
