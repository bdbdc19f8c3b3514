-- ===== src/Posix/Kfifo.antt =====
-- The queue of octets between the threads of the POSIX port, struct kfifo
-- (src/lib/platform/posix/kfifo.h). The size is a power of two, so that
-- `& (size - 1)` is the remainder; `data i` is the octet at `i`.
pub mod Queue
pub mod Refine
pub mod Each
pub mod Bulk
pub mod Drain
use ludlc.Prelude.{
  ℕ, zero, suc, ◌+◌, ◌-◌, ◌%◌, ◌^◌, Bool, true, false, Option, none, some, List, [], ◌∷◌, ◌++◌,
  length, take, drop, min, not, leb, ◌==◌, if◌then◌else◌, u32, update,
}
use ludlc.Framing.Octets.{octets}

pub record Kfifo : Type 0 where
  pub octets : ℕ → ℕ
  pub size : ℕ
  pub in_index : ℕ
  pub out_index : ℕ

-- The difference of two indexes, of 32 bits.
abbrev pub index_sub : ℕ → ℕ → ℕ
index_sub a b = u32 (a + (2 ^ 32 - b))

-- kfifo_is_empty.
abbrev pub kfifo_is_empty : Kfifo → Bool
kfifo_is_empty fifo = fifo.in_index == fifo.out_index

-- kfifo_len.
abbrev pub kfifo_len : Kfifo → ℕ
kfifo_len fifo = index_sub fifo.in_index fifo.out_index

-- kfifo_is_full.
abbrev pub kfifo_is_full : Kfifo → Bool
kfifo_is_full fifo = kfifo_len fifo == fifo.size

-- kfifo_reset.
abbrev pub kfifo_reset : Kfifo → Kfifo
kfifo_reset fifo = record fifo { in_index = 0; out_index = 0 }

-- kfifo_init.
unfoldable pub kfifo_init : Kfifo → (ℕ → ℕ) → ℕ → Kfifo
kfifo_init fifo buf size = kfifo_reset (record fifo { octets = buf; size = size })

-- kfifo_put.
unfoldable pub kfifo_put : Kfifo → ℕ → Kfifo × Bool
kfifo_put fifo val = if leb fifo.size (kfifo_len fifo) then (fifo, false) else (
  record fifo {
    octets = update fifo.octets (fifo.in_index % fifo.size) val;
    in_index = u32 (fifo.in_index + 1);
  },
  true,
)

-- kfifo_get: the octet, or none where it returns false.
unfoldable pub kfifo_get : Kfifo → Kfifo × Option ℕ
kfifo_get fifo = if kfifo_is_empty fifo then (fifo, none) else (
  record fifo { out_index = u32 (fifo.out_index + 1) },
  some (fifo.octets (fifo.out_index % fifo.size)),
)

-- memcpy into the buffer.
unfoldable pub write_at : (ℕ → ℕ) → ℕ → List ℕ → ℕ → ℕ
write_at buf p [] = buf
write_at buf p (x ∷ xs) = write_at (update buf p x) (p + 1) xs

-- kfifo_in: what it leaves, and how many octets it takes.
unfoldable pub kfifo_in : Kfifo → List ℕ → Kfifo × ℕ
kfifo_in fifo src =
    let head = fifo.in_index % fifo.size in
    let free = index_sub fifo.size (kfifo_len fifo) in
    let len = min (length src) free in
    let l = min len (fifo.size - head) in
    let first = write_at fifo.octets head (take l src) in
    (
      record fifo {
        octets =
            if not (len - l == 0) then write_at first 0 (take (len - l) (drop l src)) else first;
        in_index = u32 (fifo.in_index + len);
      },
      len,
    )

-- kfifo_out: what it leaves, the octets that it copies, and how many it says they are.
unfoldable pub kfifo_out : Kfifo → ℕ → Kfifo × List ℕ × ℕ
kfifo_out fifo sz =
    let tail = fifo.out_index % fifo.size in
    let n = min sz (kfifo_len fifo) in
    let l = min n (fifo.size - tail) in
    let first = octets fifo.octets tail l in
    (
      record fifo { out_index = u32 (fifo.out_index + n) },
      if not (n - l == 0) then first ++ octets fifo.octets 0 (n - l) else first,
      n,
    )

-- kfifo_put_claim: where the octets may be written, and how many.
unfoldable pub kfifo_put_claim : Kfifo → ℕ → ℕ × ℕ
kfifo_put_claim fifo n =
    let head = fifo.in_index % fifo.size in
    (head, min (min n (index_sub fifo.size (kfifo_len fifo))) (fifo.size - head))

-- kfifo_put_finish.
unfoldable pub kfifo_put_finish : Kfifo → ℕ → Kfifo
kfifo_put_finish fifo count = record fifo { in_index = u32 (fifo.in_index + count) }

-- kfifo_get_claim: where there are octets to read, and how many.
unfoldable pub kfifo_get_claim : Kfifo → ℕ → ℕ × ℕ
kfifo_get_claim fifo n =
    let tail = fifo.out_index % fifo.size in (tail, min (min n (kfifo_len fifo)) (fifo.size - tail))

-- kfifo_get_finish.
unfoldable pub kfifo_get_finish : Kfifo → ℕ → Kfifo
kfifo_get_finish fifo count = record fifo { out_index = u32 (fifo.out_index + count) }
