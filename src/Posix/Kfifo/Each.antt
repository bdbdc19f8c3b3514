-- ===== src/Posix/Kfifo/Each.antt =====
-- Octets put one by one (src/lib/platform/posix/kfifo.h: kfifo_put).
use Prim.Native.Nat.{◌∣◌}
use native.Mathlib.Nat.{mod-mod_of_dvd, mod-add-mod, mod-eq_of_lt, mod_self}
use ludlc.Prelude.{
  ℕ, suc, ◌+◌, ◌%◌, ◌^◌, ◌≤◌, ◌<◌, ◌≡◌, refl, ◌∙◌, ap, ap₂, sym, Bool, true, false, List, [], ◌∷◌,
  ◌++◌, arith, leb, if◌then◌else◌, u32, update, length,
}
use mathlib.Core.Path.{subst}
use ludlc.Posix.Kfifo.{Kfifo, index_sub, kfifo_len, kfifo_put, write_at, kfifo_put_finish}
use ludlc.Posix.Kfifo.Queue.{IsKfifo}
use ludlc.Posix.Kfifo.Refine.{kfifo_put-Put, len_more}

-- kfifo_put for each octet, and how many of the calls return true.
unfoldable pub put_each : Kfifo → List ℕ → Kfifo × ℕ
put_each fifo [] = (fifo, 0)
put_each fifo (x ∷ xs) =
    let out = kfifo_put fifo x in
    let rest = put_each out.0 xs in (rest.0, if out.1 then rest.1 + 1 else rest.1)

-- A queue with room takes an octet.
pub put_one :
    (fifo : Kfifo) (x : ℕ)
    → kfifo_len fifo < fifo.size
    → kfifo_put fifo x ≡ (
      record fifo {
        octets = update fifo.octets (fifo.in_index % fifo.size) x;
        in_index = u32 (fifo.in_index + 1);
      },
      true,
    )
unfolding kfifo_put
put_one fifo x h = ground (arith, h)

pub put_full :
    (fifo : Kfifo) (xs : List ℕ) → fifo.size ≤ kfifo_len fifo → put_each fifo xs ≡ (fifo, 0)
unfolding put_each kfifo_put
put_full fifo [] h = refl
put_full fifo (x ∷ xs) h = rw (leb_yes h) (put_full fifo xs h)
  where
    leb_yes : fifo.size ≤ kfifo_len fifo → leb fifo.size (kfifo_len fifo) ≡ true
    leb_yes k = ground (arith, k)

pub put_rest :
    (xs : List ℕ) (fifo : Kfifo)
    → (1 ≤ length xs → fifo.size ≤ kfifo_len fifo)
    → put_each fifo xs ≡ (fifo, 0)
unfolding put_each
put_rest [] fifo h = refl
put_rest (x ∷ xs) fifo h = put_full fifo (x ∷ xs) (h (omega arith))

abbrev pub written_on : Kfifo → ℕ → List ℕ → Kfifo
written_on fifo p xs =
    kfifo_put_finish (record fifo { octets = write_at fifo.octets p xs }) (length xs)

-- The place behind a place, if the buffer goes on.
pub next_place :
    (size i p : ℕ) → size ∣ 2 ^ 32 → i % size ≡ p → p + 1 < size → u32 (i + 1) % size ≡ p + 1
next_place size i p d e h =
    mod-mod_of_dvd size (i + 1) d
    ∙ sym (mod-add-mod i size 1)
    ∙ ap (λ q. (q + 1) % size) e
    ∙ mod-eq_of_lt h

-- Octets that fit before the buffer's end.
pub put_run :
    (xs : List ℕ) (fifo : Kfifo) (p : ℕ)
    → IsKfifo fifo
    → (1 ≤ length xs → fifo.in_index % fifo.size ≡ p)
    → p + length xs ≤ fifo.size
    → kfifo_len fifo + length xs ≤ fifo.size
    → put_each fifo xs ≡ (written_on fifo p xs, length xs)
unfolding put_each write_at kfifo_put_finish
put_run [] fifo p h at fits room =
    ap (λ i. (record fifo { in_index = i }, 0)) (omega (arith, h.in_to))
put_run (x ∷ xs) fifo p h at fits room =
    let one = put_one fifo x (omega (arith, room)) in
    ap (λ out. let rest = put_each out.0 xs in (rest.0, if out.1 then rest.1 + 1 else rest.1)) one
    ∙ ap (λ rest. (rest.0, rest.1 + 1))
        (put_run xs (f₁ fifo) (p + 1)
          (subst (λ out. IsKfifo out.0) one (kfifo_put-Put fifo x h).kept)
          (λ more.
            next_place fifo.size fifo.in_index p h.divides (at (omega arith))
              (omega (arith, fits, more)))
          (omega (arith, fits))
          (omega (
            arith,
            len_more fifo.in_index fifo.out_index h.in_to h.out_to (omega (arith, room, h.size_to)),
            room,
          )))
    ∙ ap₂
        (λ q i. (
          record fifo { octets = write_at (update fifo.octets q x) (p + 1) xs; in_index = i },
          length xs + 1,
        ))
        (at (omega arith)) (omega arith)
    ∙ ap (λ n. (written_on fifo p (x ∷ xs), n)) {y = suc (length xs)} (omega arith)
  where
    f₁ : Kfifo → Kfifo
    f₁ f = record f {
      octets = update f.octets (f.in_index % f.size) x;
      in_index = u32 (f.in_index + 1);
    }

pub put_each-append :
    (xs : List ℕ) (fifo : Kfifo) (ys : List ℕ)
    → put_each fifo (xs ++ ys) ≡ (
      (put_each (put_each fifo xs).0 ys).0,
      (put_each fifo xs).1 + (put_each (put_each fifo xs).0 ys).1,
    )
unfolding put_each
put_each-append [] fifo ys = ap (λ n. ((put_each fifo ys).0, n)) (omega arith)
put_each-append (x ∷ xs) fifo ys =
    let out = kfifo_put fifo x in
    let first = put_each out.0 xs in
    let rest = put_each first.0 ys in
    ap (λ r. (r.0, if out.1 then r.1 + 1 else r.1)) (put_each-append xs out.0 ys)
    ∙ ap (λ n. (rest.0, n)) (counted out.1 first.1 rest.1)
  where
    counted : (b : Bool) (n m : ℕ) → (if b then n + m + 1 else n + m) ≡ (if b then n + 1 else n) + m
    counted true n m = omega arith
    counted false n m = refl

pub put_each-IsKfifo : (xs : List ℕ) (fifo : Kfifo) → IsKfifo fifo → IsKfifo (put_each fifo xs).0
unfolding put_each
put_each-IsKfifo [] fifo h = h
put_each-IsKfifo (x ∷ xs) fifo h =
    put_each-IsKfifo xs (kfifo_put fifo x).0 (kfifo_put-Put fifo x h).kept

pub len_add :
    (i o n : ℕ)
    → i < 2 ^ 32
    → o < 2 ^ 32
    → index_sub i o + n < 2 ^ 32
    → index_sub (u32 (i + n)) o ≡ index_sub i o + n
len_add i o n a b h = omega arith

-- Past the buffer's end is its start.
pub around :
    (size i n : ℕ) → size ∣ 2 ^ 32 → 1 ≤ size → i % size + n ≡ size → u32 (i + n) % size ≡ 0
around size i n d one e =
    mod-mod_of_dvd size (i + n) d
    ∙ sym (mod-add-mod i size n)
    ∙ ap (λ q. q % size) e
    ∙ mod_self size
