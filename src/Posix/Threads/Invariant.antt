-- ===== src/Posix/Threads/Invariant.antt =====
-- What each thread may rely on between its loads and its stores (src/lib/platform/posix/kfifo.h).
use ludlc.Prelude.{
  ℕ, ◌+◌, ◌%◌, ◌^◌, ◌≤◌, ◌<◌, ◌≡◌, refl, ◌∙◌, ap, sym, [], ◌∷◌, ◌++◌, ne→==-false, arith, u32,
  update,
}
use ludlc.Posix.Kfifo.{Kfifo, index_sub, kfifo_len}
use ludlc.Posix.Kfifo.Queue.{contents, items, IsKfifo, items-snoc, items-update, place-ne}
use ludlc.Posix.Kfifo.Refine.{in-place, len_more}
use ludlc.Posix.Threads.{
  PutPc, put_idle, put_called, put_loaded_in, put_loaded, put_stored, GetPc, get_idle, get_called,
  get_loaded_in, get_loaded, get_read,
}

-- The producer's copy of its own index is up to date; of the consumer's index it knows what was.
abbrev pub PutAt : Kfifo → PutPc → Type 0
PutAt fifo put_idle = Unit {0}
PutAt fifo (put_called val) = Unit {0}
PutAt fifo (put_loaded_in val i) = i ≡ fifo.in_index
PutAt fifo (put_loaded val i o) = (i ≡ fifo.in_index) × (kfifo_len fifo ≤ index_sub i o)
PutAt fifo (put_stored val i) =
    (i ≡ fifo.in_index)
    × (kfifo_len fifo < fifo.size)
    × (fifo.octets (fifo.in_index % fifo.size) ≡ val)

abbrev pub GetAt : Kfifo → GetPc → Type 0
GetAt fifo get_idle = Unit {0}
GetAt fifo get_called = Unit {0}
GetAt fifo (get_loaded_in i) = (i < 2 ^ 32) × (index_sub i fifo.out_index ≤ kfifo_len fifo)
GetAt fifo (get_loaded i o) = (i < 2 ^ 32) × (o ≡ fifo.out_index) × (index_sub i o ≤ kfifo_len fifo)
GetAt fifo (get_read o val) =
    (o ≡ fifo.out_index) × (1 ≤ kfifo_len fifo) × (fifo.octets (fifo.out_index % fifo.size) ≡ val)

-- The producer's store of an octet, at a place that no octet of the queue has.
abbrev pub with_octet : Kfifo → ℕ → Kfifo
with_octet fifo val = record fifo { octets = update fifo.octets (fifo.in_index % fifo.size) val }

pub stored-contents :
    (fifo : Kfifo) (val : ℕ)
    → IsKfifo fifo
    → kfifo_len fifo < fifo.size
    → contents (with_octet fifo val) ≡ contents fifo
stored-contents fifo val h room =
    ap (λ p. items (update fifo.octets p val) fifo.size fifo.out_index (kfifo_len fifo))
      (in-place fifo h)
    ∙ items-update fifo.octets fifo.size fifo.out_index (kfifo_len fifo) (kfifo_len fifo) val
        (omega arith) room

-- The octet that the consumer is at stays.
pub stored-head :
    (fifo : Kfifo) (val : ℕ)
    → IsKfifo fifo
    → kfifo_len fifo < fifo.size
    → 1 ≤ kfifo_len fifo
    → (with_octet fifo val).octets (fifo.out_index % fifo.size)
      ≡ fifo.octets (fifo.out_index % fifo.size)
stored-head fifo val h room one =
    rw
      (ne→==-false (fifo.in_index % fifo.size) (fifo.out_index % fifo.size) (λ e.
        place-ne fifo.size fifo.out_index (kfifo_len fifo) one room (sym (in-place fifo h) ∙ e)))
      refl

-- The producer publishes the octet.
pub published-contents :
    (fifo : Kfifo)
    → IsKfifo fifo
    → kfifo_len fifo < fifo.size
    → contents (record fifo { in_index = u32 (fifo.in_index + 1) })
      ≡ contents fifo ++ (fifo.octets (fifo.in_index % fifo.size) ∷ [])
published-contents fifo h room =
    ap (items fifo.octets fifo.size fifo.out_index)
      (len_more fifo.in_index fifo.out_index h.in_to h.out_to (omega (arith, room, h.size_to)))
    ∙ items-snoc fifo.octets fifo.size fifo.out_index (kfifo_len fifo)
    ∙ ap (λ p. contents fifo ++ (fifo.octets p ∷ [])) (sym (in-place fifo h))
