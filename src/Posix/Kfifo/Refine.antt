-- ===== src/Posix/Kfifo/Refine.antt =====
-- The queue's operations on its octets in order (src/lib/platform/posix/kfifo.h: kfifo_put, kfifo_get).
use native.Mathlib.Nat.{mod-mod_of_dvd}
use ludlc.Prelude.{
  ℕ, suc, ◌+◌, ◌%◌, ◌^◌, ◌<◌, ◌≡◌, ◌≢◌, refl, ◌∙◌, ap, ap₂, sym, Bool, true, false, not, Option,
  none, some, List, [], ◌∷◌, ◌++◌, arith, leb, ==-refl, Bool-cases, inl, inr, if◌then◌else◌, u32,
  update,
}
use ludlc.Posix.Kfifo.{
  Kfifo, index_sub, kfifo_len, kfifo_is_empty, kfifo_is_full, kfifo_put, kfifo_get,
}
use ludlc.Posix.Kfifo.Queue.{items, contents, IsKfifo, items-cong, items-snoc, items-update}

abbrev pub enqueue : Bool → List ℕ → ℕ → List ℕ
enqueue full xs val = if full then xs else (xs ++ (val ∷ []))

-- What kfifo_put does to the octets in order.
pub record Put (fifo : Kfifo) (val : ℕ) (out : Kfifo × Bool) : Type 0 where
  pub queued : contents out.0 ≡ enqueue (kfifo_is_full fifo) (contents fifo) val
  pub answer : out.1 ≡ not (kfifo_is_full fifo)
  pub kept : IsKfifo out.0

-- An index past the octets in a queue.
pub in-place :
    (fifo : Kfifo)
    → IsKfifo fifo
    → fifo.in_index % fifo.size ≡ (fifo.out_index + kfifo_len fifo) % fifo.size
in-place fifo h =
    ap (λ x. x % fifo.size) around
    ∙ mod-mod_of_dvd fifo.size (fifo.out_index + kfifo_len fifo) h.divides
  where
    around : fifo.in_index ≡ u32 (fifo.out_index + kfifo_len fifo)
    around = omega (arith, h.in_to, h.out_to)

pub len_more :
    (i o : ℕ)
    → i < 2 ^ 32
    → o < 2 ^ 32
    → index_sub i o + 1 < 2 ^ 32
    → index_sub (u32 (i + 1)) o ≡ index_sub i o + 1
len_more i o a b h = omega arith

pub len_suc :
    (fifo : Kfifo)
    → IsKfifo fifo
    → fifo.in_index ≢ fifo.out_index
    → kfifo_len fifo ≡ suc (index_sub fifo.in_index (u32 (fifo.out_index + 1)))
len_suc fifo h e = omega (arith, h.in_to, h.out_to, e)

no_items : (data_at : ℕ → ℕ) (s x n : ℕ) → n ≡ 0 → items data_at s x n ≡ []
unfolding items
no_items data_at s x n e = ap (items data_at s x) e

put_contents :
    (fifo : Kfifo) (val : ℕ)
    → IsKfifo fifo
    → kfifo_len fifo < fifo.size
    → items
        (update fifo.octets (fifo.in_index % fifo.size) val)
        fifo.size
        fifo.out_index
        (index_sub (u32 (fifo.in_index + 1)) fifo.out_index)
      ≡ contents fifo ++ (val ∷ [])
put_contents fifo val h room =
    ap (items data_at s o)
      (len_more fifo.in_index o h.in_to h.out_to (omega (arith, room, h.size_to)))
    ∙ ap (λ p. items (update fifo.octets p val) s o (n + 1)) (in-place fifo h)
    ∙ items-snoc (update fifo.octets ((o + n) % s) val) s o n
    ∙ ap₂ (λ is i. is ++ (i ∷ [])) (items-update fifo.octets s o n n val (omega arith) room)
        (written ((o + n) % s))
  where
    s : ℕ
    s = fifo.size

    o : ℕ
    o = fifo.out_index

    n : ℕ
    n = kfifo_len fifo

    data_at : ℕ → ℕ
    data_at = update fifo.octets (fifo.in_index % fifo.size) val

    written : (p : ℕ) → update fifo.octets p val p ≡ val
    written p = rw (==-refl p) refl

-- A queue whose size divides 2^32 and which holds no more than that takes an octet at its end, unless it is
-- full: then kfifo_put says so and leaves it. Either way the queue is one of that kind again.
pub kfifo_put-Put : (fifo : Kfifo) (val : ℕ) → IsKfifo fifo → Put fifo val (kfifo_put fifo val)
unfolding kfifo_put
kfifo_put-Put fifo val h = elim (Bool-cases (leb fifo.size (kfifo_len fifo))) [
  | inl e ↦ rw e record {
    queued = ap (λ t. enqueue t (contents fifo) val) (sym (is_full e));
    answer = ap not (sym (is_full e));
    kept = h;
  }
  | inr e ↦ rw e record {
    queued =
        put_contents fifo val h (has_room e)
        ∙ ap (λ t. enqueue t (contents fifo) val) (sym (not_full e));
    answer = ap not (sym (not_full e));
    kept = record {
      divides = h.divides;
      size_from = h.size_from;
      size_to = h.size_to;
      in_to = omega arith;
      out_to = h.out_to;
      len_to =
          rw
            (len_more fifo.in_index fifo.out_index h.in_to h.out_to
              (omega (arith, has_room e, h.size_to)))
            (omega (arith, has_room e));
    };
  }
]
  where
    is_full : leb fifo.size (kfifo_len fifo) ≡ true → kfifo_is_full fifo ≡ true
    is_full e = ground (arith, e, h.len_to)

    not_full : leb fifo.size (kfifo_len fifo) ≡ false → kfifo_is_full fifo ≡ false
    not_full e = ground (arith, e, h.len_to)

    has_room : leb fifo.size (kfifo_len fifo) ≡ false → kfifo_len fifo < fifo.size
    has_room e = ground (arith, e)

abbrev pub dequeued : Option ℕ → List ℕ → List ℕ
dequeued none xs = xs
dequeued (some val) xs = val ∷ xs

-- What kfifo_get does to the octets in order.
pub record Got (fifo : Kfifo) (out : Kfifo × Option ℕ) : Type 0 where
  pub taken : contents fifo ≡ dequeued out.1 (contents out.0)
  pub answer : out.1 ≡ none → contents fifo ≡ []
  pub kept : IsKfifo out.0

pub get_contents :
    (fifo : Kfifo)
    → IsKfifo fifo
    → fifo.in_index ≢ fifo.out_index
    → contents fifo
      ≡ fifo.octets (fifo.out_index % fifo.size)
        ∷ items fifo.octets fifo.size
            (u32 (fifo.out_index + 1))
            (index_sub fifo.in_index (u32 (fifo.out_index + 1)))
unfolding items
get_contents fifo h e =
    ap (items fifo.octets fifo.size fifo.out_index)
      {y = suc (index_sub fifo.in_index (u32 (fifo.out_index + 1)))} (len_suc fifo h e)
    ∙ ap (λ is. fifo.octets (fifo.out_index % fifo.size) ∷ is)
        (items-cong fifo.octets fifo.size (fifo.out_index + 1) (u32 (fifo.out_index + 1))
          (index_sub fifo.in_index (u32 (fifo.out_index + 1)))
          (sym (mod-mod_of_dvd fifo.size (fifo.out_index + 1) h.divides)))

-- A queue whose size divides 2^32 and which holds no more than that gives the octet that was put first,
-- or none where it has none, and keeps the others in order. Either way the queue is one of that kind
-- again.
pub kfifo_get-Got : (fifo : Kfifo) → IsKfifo fifo → Got fifo (kfifo_get fifo)
unfolding kfifo_get
kfifo_get-Got fifo h = elim (Bool-cases (kfifo_is_empty fifo)) [
  | inl e ↦ rw e record { taken = refl; answer = λ q. no_contents (ground (arith, e)); kept = h }
  | inr e ↦ rw e record {
    taken = get_contents fifo h (ground (arith, e));
    answer = λ q. ground (arith, q);
    kept = record {
      divides = h.divides;
      size_from = h.size_from;
      size_to = h.size_to;
      in_to = h.in_to;
      out_to = omega arith;
      len_to = omega (arith, len_suc fifo h (ground (arith, e)), h.len_to);
    };
  }
]
  where
    no_contents : fifo.in_index ≡ fifo.out_index → contents fifo ≡ []
    no_contents e =
        no_items fifo.octets fifo.size fifo.out_index (kfifo_len fifo) (omega (arith, e, h.out_to))
