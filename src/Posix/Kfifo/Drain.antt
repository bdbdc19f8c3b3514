-- ===== src/Posix/Kfifo/Drain.antt =====
-- Octets taken one by one, and many at once (src/lib/platform/posix/kfifo.h: kfifo_out, kfifo_get_claim,
-- kfifo_get_finish).
use native.Mathlib.Nat.{mod-lt}
use ludlc.Prelude.{
  ℕ, zero, suc, ◌+◌, ◌-◌, ◌%◌, ◌^◌, ◌≤◌, ◌<◌, ◌≡◌, refl, ◌∙◌, ap, ap₂, sym, not, Option, none, some,
  List, [], ◌∷◌, ◌++◌, append-nil, arith, ◌==◌, Bool-cases, inl, inr, if◌then◌else◌, u32, min,
  length, length-append,
}
use mathlib.Core.Path.{subst}
use ludlc.Framing.Octets.{octets, length-octets}
use ludlc.Posix.Kfifo.{
  Kfifo, index_sub, kfifo_len, kfifo_get, kfifo_out, kfifo_get_claim, kfifo_get_finish,
}
use ludlc.Posix.Kfifo.Queue.{IsKfifo}
use ludlc.Posix.Kfifo.Refine.{dequeued, kfifo_get-Got, len_suc}
use ludlc.Posix.Kfifo.Each.{next_place, around}

-- So many calls of kfifo_get, and the octets that they give.
unfoldable pub get_each : ℕ → Kfifo → Kfifo × List ℕ
get_each zero fifo = (fifo, [])
get_each (suc n) fifo =
    let out = kfifo_get fifo in let rest = get_each n out.0 in (rest.0, dequeued out.1 rest.1)

abbrev past_one : Kfifo → Kfifo
past_one fifo = record fifo { out_index = u32 (fifo.out_index + 1) }

get_one :
    (fifo : Kfifo)
    → IsKfifo fifo
    → 1 ≤ kfifo_len fifo
    → kfifo_get fifo ≡ (past_one fifo, some (fifo.octets (fifo.out_index % fifo.size)))
unfolding kfifo_get
get_one fifo h one = ground (arith, h.in_to, h.out_to, one)

get_empty : (fifo : Kfifo) → IsKfifo fifo → kfifo_len fifo ≡ 0 → kfifo_get fifo ≡ (fifo, none)
unfolding kfifo_get
get_empty fifo h e = ground (arith, h.in_to, h.out_to, e)

get_none : (n : ℕ) (fifo : Kfifo) → IsKfifo fifo → kfifo_len fifo ≡ 0 → get_each n fifo ≡ (fifo, [])
unfolding get_each
get_none zero fifo h e = refl
get_none (suc n) fifo h e =
    ap (λ out. let rest = get_each n out.0 in (rest.0, dequeued out.1 rest.1)) (get_empty fifo h e)
    ∙ get_none n fifo h e

get_rest :
    (n : ℕ) (fifo : Kfifo)
    → IsKfifo fifo
    → (1 ≤ n → kfifo_len fifo ≡ 0)
    → get_each n fifo ≡ (fifo, [])
unfolding get_each
get_rest zero fifo h e = refl
get_rest (suc n) fifo h e = get_none (suc n) fifo h (e (omega arith))

get_each-IsKfifo : (n : ℕ) (fifo : Kfifo) → IsKfifo fifo → IsKfifo (get_each n fifo).0
unfolding get_each
get_each-IsKfifo zero fifo h = h
get_each-IsKfifo (suc n) fifo h = get_each-IsKfifo n (kfifo_get fifo).0 (kfifo_get-Got fifo h).kept

len_less :
    (i o n : ℕ)
    → i < 2 ^ 32
    → o < 2 ^ 32
    → n ≤ index_sub i o
    → index_sub i (u32 (o + n)) ≡ index_sub i o - n
len_less i o n a b h = omega arith

-- Octets before the buffer's end.
get_run :
    (n : ℕ) (fifo : Kfifo) (p : ℕ)
    → IsKfifo fifo
    → (1 ≤ n → fifo.out_index % fifo.size ≡ p)
    → p + n ≤ fifo.size
    → n ≤ kfifo_len fifo
    → get_each n fifo ≡ (kfifo_get_finish fifo n, octets fifo.octets p n)
unfolding get_each octets kfifo_get_finish
get_run zero fifo p h at fits long =
    ap (λ i. (record fifo { out_index = i }, [])) (omega (arith, h.out_to))
get_run (suc n) fifo p h at fits long =
    let one = get_one fifo h (omega (arith, long)) in
    ap (λ out. let rest = get_each n out.0 in (rest.0, dequeued out.1 rest.1)) one
    ∙ ap (λ rest. (rest.0, fifo.octets (fifo.out_index % fifo.size) ∷ rest.1))
        (get_run n (past_one fifo) (p + 1)
          (subst (λ out. IsKfifo out.0) one (kfifo_get-Got fifo h).kept)
          (λ more.
            next_place fifo.size fifo.out_index p h.divides (at (omega arith))
              (omega (arith, fits, more)))
          (omega (arith, fits))
          (omega (arith, len_suc fifo h (λ e. absurd (omega (arith, e, long, h.out_to))), long)))
    ∙ ap₂ (λ i q. (record fifo { out_index = i }, fifo.octets q ∷ octets fifo.octets (p + 1) n))
        (omega arith) (at (omega arith))

get_each_add :
    (n : ℕ) (fifo : Kfifo) (m : ℕ)
    → get_each (n + m) fifo ≡ (
      (get_each m (get_each n fifo).0).0,
      (get_each n fifo).1 ++ (get_each m (get_each n fifo).0).1,
    )
unfolding get_each
get_each_add zero fifo m = ap (λ k. get_each k fifo) {x = 0 + m} {y = m} (omega arith)
get_each_add (suc n) fifo m =
    let out = kfifo_get fifo in
    ap (λ k. get_each k fifo) {x = suc n + m} {y = suc (n + m)} (omega arith)
    ∙ ap (λ rest. (rest.0, dequeued out.1 rest.1)) (get_each_add n out.0 m)
    ∙ ap (λ xs. ((get_each m (get_each n out.0).0).0, xs))
        (dequeued_append out.1 (get_each n out.0).1 (get_each m (get_each n out.0).0).1)
  where
    dequeued_append : (o : Option ℕ) (xs ys : List ℕ) → dequeued o (xs ++ ys) ≡ dequeued o xs ++ ys
    dequeued_append none xs ys = refl
    dequeued_append (some x) xs ys = refl

-- Octets up to the buffer's end, octets from its start, and calls for which there is none.
get_parts :
    (fifo : Kfifo) (n m k : ℕ)
    → IsKfifo fifo
    → fifo.out_index % fifo.size + n ≤ fifo.size
    → (1 ≤ m → fifo.out_index % fifo.size + n ≡ fifo.size)
    → n + m ≤ kfifo_len fifo
    → (1 ≤ k → n + m ≡ kfifo_len fifo)
    → get_each (n + (m + k)) fifo ≡ (
      record fifo { out_index = u32 (fifo.out_index + (n + m)) },
      octets fifo.octets (fifo.out_index % fifo.size) n ++ octets fifo.octets 0 m,
    )
unfolding kfifo_get_finish
get_parts fifo n m k h fits wraps few all =
    get_each_add n fifo (m + k)
    ∙ ap (λ out. ((get_each (m + k) out.0).0, out.1 ++ (get_each (m + k) out.0).1)) first
    ∙ ap (λ out. (out.0, xs ++ out.1))
        (get_each_add m f₁ k
          ∙ ap (λ out. ((get_each k out.0).0, out.1 ++ (get_each k out.0).1)) second
          ∙ ap (λ out. (out.0, octets fifo.octets 0 m ++ out.1)) third)
    ∙ ap₂ (λ i ys. (record fifo { out_index = i }, xs ++ ys)) (omega arith)
        (append-nil (octets fifo.octets 0 m))
  where
    f₁ : Kfifo
    f₁ = kfifo_get_finish fifo n

    f₂ : Kfifo
    f₂ = kfifo_get_finish f₁ m

    xs : List ℕ
    xs = octets fifo.octets (fifo.out_index % fifo.size) n

    first : get_each n fifo ≡ (f₁, xs)
    first = get_run n fifo (fifo.out_index % fifo.size) h (λ _. refl) fits (omega (arith, few))

    h₁ : IsKfifo f₁
    h₁ = subst (λ out. IsKfifo out.0) first (get_each-IsKfifo n fifo h)

    len_is : kfifo_len f₁ ≡ kfifo_len fifo - n
    len_is = len_less fifo.in_index fifo.out_index n h.in_to h.out_to (omega (arith, few))

    second : get_each m f₁ ≡ (f₂, octets fifo.octets 0 m)
    second =
        get_run m f₁ 0 h₁
          (λ more. around fifo.size fifo.out_index n h.divides h.size_from (wraps more))
          (omega (arith, few, h.len_to)) (omega (arith, few, len_is))

    third : get_each k f₂ ≡ (f₂, [])
    third = get_rest k f₂ (subst (λ out. IsKfifo out.0) second (get_each-IsKfifo m f₁ h₁)) (λ more.
        omega (
          arith,
          all more,
          len_is,
          len_less f₁.in_index f₁.out_index m h₁.in_to h₁.out_to (omega (arith, few, len_is)),
        ))

-- A queue whose size divides 2^32 and which holds no more than that: kfifo_out leaves the indexes, and
-- copies the octets, that as many calls of kfifo_get leave and give as it is asked for octets; and it
-- returns how many they are.
pub kfifo_out-get_each :
    (fifo : Kfifo) (sz : ℕ)
    → IsKfifo fifo
    → kfifo_out fifo sz ≡ ((get_each sz fifo).0, (get_each sz fifo).1, length (get_each sz fifo).1)
unfolding kfifo_out octets
kfifo_out-get_each fifo sz h =
    ap (λ xs. (past, xs, n)) copied
    ∙ ap (λ k. (past, out, k)) counted
    ∙ ap (λ r. (r.0, r.1, length r.1)) (sym (ap (λ k. get_each k fifo) all_calls ∙ in_parts))
  where
    tail : ℕ
    tail = fifo.out_index % fifo.size

    n : ℕ
    n = min sz (kfifo_len fifo)

    l : ℕ
    l = min n (fifo.size - tail)

    past : Kfifo
    past = record fifo { out_index = u32 (fifo.out_index + n) }

    out : List ℕ
    out = octets fifo.octets tail l ++ octets fifo.octets 0 (n - l)

    tail_to : fifo.out_index % fifo.size < fifo.size
    tail_to = mod-lt fifo.out_index h.size_from

    all_calls : sz ≡ l + ((n - l) + (sz - n))
    all_calls = omega arith

    in_parts : get_each (l + ((n - l) + (sz - n))) fifo ≡ (past, out)
    in_parts =
        get_parts fifo l (n - l) (sz - n) h (omega (arith, tail_to))
          (λ more. omega (arith, tail_to, more)) (omega arith) (λ more. omega (arith, more))
        ∙ ap (λ i. (record fifo { out_index = u32 (fifo.out_index + i) }, out)) {x = l + (n - l)}
            {y = n} (omega arith)

    copied :
        (if not (n - l == 0)
          then octets fifo.octets tail l ++ octets fifo.octets 0 (n - l)
          else octets fifo.octets tail l)
        ≡ out
    copied = elim (Bool-cases (n - l == 0)) [
      | inl e ↦ rw e (
          sym (append-nil (octets fifo.octets tail l))
          ∙ ap (λ k. octets fifo.octets tail l ++ octets fifo.octets 0 k) {x = 0}
              (ground (arith, e)))
      | inr e ↦ rw e refl
    ]

    counted : n ≡ length out
    counted = omega (
      arith,
      length-append (octets fifo.octets tail l) (octets fifo.octets 0 (n - l)),
      length-octets fifo.octets tail l,
      length-octets fifo.octets 0 (n - l),
    )

-- A queue whose size divides 2^32 and which holds no more than that: the octets that stand where
-- kfifo_get_claim says, no more than it says, are those that as many calls of kfifo_get give, and
-- kfifo_get_finish leaves the indexes that those calls leave.
pub kfifo_get_finish-get_each :
    (fifo : Kfifo) (n count : ℕ)
    → IsKfifo fifo
    → count ≤ (kfifo_get_claim fifo n).1
    → get_each count fifo
      ≡ (kfifo_get_finish fifo count, octets fifo.octets (kfifo_get_claim fifo n).0 count)
unfolding kfifo_get_claim
kfifo_get_finish-get_each fifo n count h few =
    get_run count fifo (fifo.out_index % fifo.size) h (λ _. refl)
      (omega (arith, few, mod-lt fifo.out_index h.size_from)) (omega (arith, few))
