-- ===== src/Posix/Kfifo/Bulk.antt =====
-- Octets put many at once (src/lib/platform/posix/kfifo.h: kfifo_in, kfifo_put_claim, kfifo_put_finish).
use native.Mathlib.Nat.{mod-lt}
use ludlc.Prelude.{
  ℕ, ◌+◌, ◌-◌, ◌%◌, ◌^◌, ◌≤◌, ◌<◌, ◌≡◌, refl, ◌∙◌, ap, ap₂, sym, not, List, ◌++◌, arith, ◌==◌,
  Bool-cases, inl, inr, if◌then◌else◌, u32, min, length, take, drop, length-take, take-append-drop,
  length-drop,
}
use mathlib.Core.Path.{subst}
use ludlc.Posix.Kfifo.{
  Kfifo, index_sub, kfifo_len, write_at, kfifo_in, kfifo_put_claim, kfifo_put_finish,
}
use ludlc.Posix.Kfifo.Queue.{IsKfifo}
use ludlc.Posix.Kfifo.Each.{
  put_each, put_rest, written_on, put_run, put_each-append, put_each-IsKfifo, len_add, around,
}

-- Octets up to the buffer's end, octets from its start, and octets for which there is no room.
put_parts :
    (fifo : Kfifo) (xs ys zs : List ℕ)
    → IsKfifo fifo
    → fifo.in_index % fifo.size + length xs ≤ fifo.size
    → (1 ≤ length ys → fifo.in_index % fifo.size + length xs ≡ fifo.size)
    → kfifo_len fifo + length xs + length ys ≤ fifo.size
    → (1 ≤ length zs → kfifo_len fifo + length xs + length ys ≡ fifo.size)
    → put_each fifo (xs ++ (ys ++ zs)) ≡ (
      record fifo {
        octets = write_at (write_at fifo.octets (fifo.in_index % fifo.size) xs) 0 ys;
        in_index = u32 (fifo.in_index + (length xs + length ys));
      },
      length xs + length ys,
    )
unfolding kfifo_put_finish
put_parts fifo xs ys zs h fits wraps room full =
    put_each-append xs fifo (ys ++ zs)
    ∙ ap (λ out. ((put_each out.0 (ys ++ zs)).0, out.1 + (put_each out.0 (ys ++ zs)).1)) first
    ∙ ap (λ out. (out.0, length xs + out.1))
        (put_each-append ys f₁ zs
          ∙ ap (λ out. ((put_each out.0 zs).0, out.1 + (put_each out.0 zs).1)) second
          ∙ ap (λ out. (out.0, length ys + out.1)) third)
    ∙ ap₂
        (λ i n. (
          record fifo {
            octets = write_at (write_at fifo.octets (fifo.in_index % fifo.size) xs) 0 ys;
            in_index = i;
          },
          n,
        ))
        (omega arith) (omega arith)
  where
    f₁ : Kfifo
    f₁ = written_on fifo (fifo.in_index % fifo.size) xs

    f₂ : Kfifo
    f₂ = written_on f₁ 0 ys

    first : put_each fifo xs ≡ (f₁, length xs)
    first = put_run xs fifo (fifo.in_index % fifo.size) h (λ _. refl) fits (omega (arith, room))

    len_is : kfifo_len f₁ ≡ kfifo_len fifo + length xs
    len_is =
        len_add fifo.in_index fifo.out_index (length xs) h.in_to h.out_to
          (omega (arith, room, h.size_to))

    h₁ : IsKfifo f₁
    h₁ = subst (λ out. IsKfifo out.0) first (put_each-IsKfifo xs fifo h)

    second : put_each f₁ ys ≡ (f₂, length ys)
    second =
        put_run ys f₁ 0 h₁
          (λ more. around fifo.size fifo.in_index (length xs) h.divides h.size_from (wraps more))
          (omega (arith, room)) (omega (arith, room, len_is))

    third : put_each f₂ zs ≡ (f₂, 0)
    third = put_rest zs f₂ (λ more. omega (
      arith,
      full more,
      len_is,
      len_add f₁.in_index f₁.out_index (length ys) h₁.in_to h₁.out_to
          (omega (arith, room, len_is, h.size_to)),
    ))

sub_exact : (a b : ℕ) → b ≤ a → a < 2 ^ 32 → index_sub a b ≡ a - b
sub_exact a b h k = omega arith

-- A queue whose size divides 2^32 and which holds no more than that: kfifo_in leaves the buffer and the
-- indexes that kfifo_put leaves which is called for one octet after the other, and returns how many of
-- those calls return true.
pub kfifo_in-put_each :
    (fifo : Kfifo) (src : List ℕ) → IsKfifo fifo → kfifo_in fifo src ≡ put_each fifo src
unfolding kfifo_in write_at
kfifo_in-put_each fifo src h =
    ap₂ (λ buf n. (record fifo { octets = buf; in_index = u32 (fifo.in_index + n) }, n)) wrote
      count_is
    ∙ sym (
        ap (put_each fifo) (sym whole)
        ∙ put_parts fifo xs ys zs h (omega (arith, xs_length, head_to))
            (λ more. omega (arith, xs_length, ys_length, head_to, more))
            (omega (arith, xs_length, ys_length, free_is, h.len_to))
            (λ more. omega (arith, xs_length, ys_length, zs_length, free_is, h.len_to, more)))
  where
    head : ℕ
    head = fifo.in_index % fifo.size

    len : ℕ
    len = min (length src) (index_sub fifo.size (kfifo_len fifo))

    l : ℕ
    l = min len (fifo.size - head)

    xs : List ℕ
    xs = take l src

    ys : List ℕ
    ys = take (len - l) (drop l src)

    zs : List ℕ
    zs = drop (len - l) (drop l src)

    whole : xs ++ (ys ++ zs) ≡ src
    whole = ap (λ t. xs ++ t) (take-append-drop (len - l) (drop l src)) ∙ take-append-drop l src

    free_is : index_sub fifo.size (kfifo_len fifo) ≡ fifo.size - kfifo_len fifo
    free_is = sub_exact fifo.size (kfifo_len fifo) h.len_to h.size_to

    head_to : fifo.in_index % fifo.size < fifo.size
    head_to = mod-lt fifo.in_index h.size_from

    xs_length : length xs ≡ l
    xs_length = omega (arith, length-take l src)

    ys_length : length ys ≡ len - l
    ys_length = omega (arith, length-take (len - l) (drop l src), length-drop l src)

    zs_length : length zs ≡ length src - len
    zs_length = omega (arith, length-drop (len - l) (drop l src), length-drop l src)

    count_is : len ≡ length xs + length ys
    count_is = omega (arith, xs_length, ys_length)

    wrote :
        (if not (len - l == 0)
          then write_at (write_at fifo.octets head xs) 0 ys
          else write_at fifo.octets head xs)
        ≡ write_at (write_at fifo.octets head xs) 0 ys
    wrote = elim (Bool-cases (len - l == 0)) [
      | inl e ↦ rw e (
          ap (λ n. write_at (write_at fifo.octets head xs) 0 (take n (drop l src))) {x = 0}
            (ground (arith, e)))
      | inr e ↦ rw e refl
    ]

-- A queue whose size divides 2^32 and which holds no more than that: octets that are written where
-- kfifo_put_claim says, no more than it says, and published with kfifo_put_finish leave the buffer and the
-- indexes that kfifo_put leaves which is called for one after the other; and all those calls return true.
pub kfifo_put_finish-put_each :
    (fifo : Kfifo) (n : ℕ) (xs : List ℕ)
    → IsKfifo fifo
    → length xs ≤ (kfifo_put_claim fifo n).1
    → put_each fifo xs ≡ (
      kfifo_put_finish
          (record fifo { octets = write_at fifo.octets (kfifo_put_claim fifo n).0 xs })
          (length xs),
      length xs,
    )
unfolding kfifo_put_claim
kfifo_put_finish-put_each fifo n xs h few =
    put_run xs fifo (fifo.in_index % fifo.size) h (λ _. refl)
      (omega (arith, few, mod-lt fifo.in_index h.size_from))
      (omega (arith, few, sub_exact fifo.size (kfifo_len fifo) h.len_to h.size_to, h.len_to))
