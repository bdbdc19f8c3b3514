-- ===== src/Posix/Kfifo/Queue.antt =====
-- The octets in a queue, in order (src/lib/platform/posix/kfifo.h).
use Prim.Native.Nat.{◌∣◌}
use native.Mathlib.Nat.{mod-add-mod, mod-eq-sub-mod, mod-eq_of_lt, mod-lt}
use ludlc.Prelude.{
  ℕ, zero, suc, ◌+◌, ◌-◌, ◌%◌, ◌^◌, ◌≤◌, ◌<◌, ◌≡◌, ◌≢◌, refl, ◌∙◌, ap, ap₂, sym, false, List, [],
  ◌∷◌, ◌++◌, arith, ltb, ltb→lt, ne→==-false, Bool-cases, inl, inr, update,
}
use ludlc.Posix.Kfifo.{Kfifo, kfifo_len}

-- The `n` octets from the position `x` on.
unfoldable pub items : (ℕ → ℕ) → ℕ → ℕ → ℕ → List ℕ
items data_at size x zero = []
items data_at size x (suc n) = data_at (x % size) ∷ items data_at size (x + 1) n

-- The octets in a queue.
abbrev pub contents : Kfifo → List ℕ
contents fifo = items fifo.octets fifo.size fifo.out_index (kfifo_len fifo)

-- A queue whose size divides the range of its indexes, with no more octets than that.
pub record IsKfifo (fifo : Kfifo) : Type 0 where
  pub divides : fifo.size ∣ 2 ^ 32
  pub size_from : 1 ≤ fifo.size
  pub size_to : fifo.size < 2 ^ 32
  pub in_to : fifo.in_index < 2 ^ 32
  pub out_to : fifo.out_index < 2 ^ 32
  pub len_to : kfifo_len fifo ≤ fifo.size

-- Steps that are fewer than the size lead to another place.
pub place-ne : (s y d : ℕ) → 1 ≤ d → d < s → (y + d) % s ≢ y % s
place-ne s y d one less e = elim (Bool-cases (ltb (y % s + d) s)) [
  | inl f ↦ absurd (omega (arith, one, sym (mod-eq_of_lt (ltb→lt (y % s + d) s f)), moved))
  | inr f ↦
      let above = past f in
      absurd (
        omega
          (arith, one, less, above, bound, moved, mod-eq-sub-mod above, mod-eq_of_lt (below above)))
]
  where
    moved : (y % s + d) % s ≡ y % s
    moved = mod-add-mod y s d ∙ e

    bound : y % s < s
    bound = mod-lt y (omega (arith, one, less))

    below : s ≤ y % s + d → (y % s + d) - s < s
    below above = omega (arith, bound, less, above)

    past : ltb (y % s + d) s ≡ false → s ≤ y % s + d
    past f = ground (arith, f)

pub items-cong :
    (data_at : ℕ → ℕ) (s x y n : ℕ) → x % s ≡ y % s → items data_at s x n ≡ items data_at s y n
unfolding items
items-cong data_at s x y zero e = refl
items-cong data_at s x y (suc n) e =
    ap₂ (λ i is. data_at i ∷ is) e
      (items-cong data_at s (x + 1) (y + 1) n
        (sym (mod-add-mod x s 1) ∙ ap (λ z. (z + 1) % s) e ∙ mod-add-mod y s 1))

pub items-snoc :
    (data_at : ℕ → ℕ) (s x n : ℕ)
    → items data_at s x (n + 1) ≡ items data_at s x n ++ (data_at ((x + n) % s) ∷ [])
unfolding items
items-snoc data_at s x zero = ap (λ z. data_at (z % s) ∷ []) (omega arith)
items-snoc data_at s x (suc n) =
    ap (items data_at s x) {y = suc (n + 1)} (omega arith)
    ∙ ap (λ is. data_at (x % s) ∷ is) (items-snoc data_at s (x + 1) n)
    ∙ ap (λ z. data_at (x % s) ∷ (items data_at s (x + 1) n ++ (data_at (z % s) ∷ [])))
        (omega arith)

-- A write at a place that none of them has.
pub items-update :
    (data_at : ℕ → ℕ) (s x n d v : ℕ)
    → n ≤ d
    → d < s
    → items (update data_at ((x + d) % s) v) s x n ≡ items data_at s x n
unfolding items
items-update data_at s x zero d v h less = refl
items-update data_at s x (suc n) d v h less =
    ap₂ (λ i is. i ∷ is) (untouched (omega (arith, h)))
      (ap (λ z. items (update data_at (z % s) v) s (x + 1) n) (omega (arith, h))
        ∙ items-update data_at s (x + 1) n (d - 1) v (omega (arith, h)) (omega (arith, less)))
  where
    untouched : 1 ≤ d → update data_at ((x + d) % s) v (x % s) ≡ data_at (x % s)
    untouched one = rw (ne→==-false ((x + d) % s) (x % s) (place-ne s x d one less)) refl
