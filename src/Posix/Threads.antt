-- ===== src/Posix/Threads.antt =====
-- The queue between two threads (src/lib/platform/posix/kfifo.h: kfifo_put and kfifo_get), one load or
-- store of either thread at a time. A load with memory_order_acquire sees the stores before the store that
-- it reads, so that the loads and the stores of the two threads have one order.
pub mod Invariant
pub mod Order
mod Tests
use ludlc.Prelude.{ℕ, ◌+◌, ◌%◌, ◌≡◌, true, false, List, [], ◌∷◌, ◌++◌, leb, ◌==◌, u32, update}
use ludlc.Posix.Kfifo.{Kfifo, index_sub}

-- Where the producer stands in kfifo_put, with what it has loaded.
pub data PutPc : Type 0 where
  put_idle : PutPc
  put_called : ℕ → PutPc
  put_loaded_in : ℕ → ℕ → PutPc
  put_loaded : ℕ → ℕ → ℕ → PutPc
  put_stored : ℕ → ℕ → PutPc

-- Where the consumer stands in kfifo_get, with what it has loaded.
pub data GetPc : Type 0 where
  get_idle : GetPc
  get_called : GetPc
  get_loaded_in : ℕ → GetPc
  get_loaded : ℕ → ℕ → GetPc
  get_read : ℕ → ℕ → GetPc

-- What the producer does next to the queue, and the octet of a call that returns true.
pub data PutMove (fifo : Kfifo) : PutPc → Kfifo → PutPc → List ℕ → Type 0 where
  call_put : (val : ℕ) → PutMove fifo put_idle fifo (put_called val) []
  load_in_put : (val : ℕ) → PutMove fifo (put_called val) fifo (put_loaded_in val fifo.in_index) []
  load_out_put :
      (val i : ℕ) → PutMove fifo (put_loaded_in val i) fifo (put_loaded val i fifo.out_index) []
  found_full :
      (val i o : ℕ)
      → leb fifo.size (index_sub i o) ≡ true
      → PutMove fifo (put_loaded val i o) fifo put_idle []
  store_octet :
      (val i o : ℕ)
      → leb fifo.size (index_sub i o) ≡ false
      → PutMove fifo
          (put_loaded val i o)
          (record fifo { octets = update fifo.octets (i % fifo.size) val })
          (put_stored val i)
          []
  store_in :
      (val i : ℕ)
      → PutMove fifo (put_stored val i) (record fifo { in_index = u32 (i + 1) }) put_idle (val ∷ [])

-- What the consumer does next to the queue, and the octet of a call that returns true.
pub data GetMove (fifo : Kfifo) : GetPc → Kfifo → GetPc → List ℕ → Type 0 where
  call_get : GetMove fifo get_idle fifo get_called []
  load_in_get : GetMove fifo get_called fifo (get_loaded_in fifo.in_index) []
  load_out_get : (i : ℕ) → GetMove fifo (get_loaded_in i) fifo (get_loaded i fifo.out_index) []
  found_empty : (i o : ℕ) → (i == o) ≡ true → GetMove fifo (get_loaded i o) fifo get_idle []
  read_octet :
      (i o : ℕ)
      → (i == o) ≡ false
      → GetMove fifo (get_loaded i o) fifo (get_read o (fifo.octets (o % fifo.size))) []
  store_out :
      (o val : ℕ)
      → GetMove fifo (get_read o val) (record fifo { out_index = u32 (o + 1) }) get_idle (val ∷ [])

-- The queue and its two threads, with the octets that have been put and those that have been got.
pub record TwoThreads : Type 0 where
  pub fifo : Kfifo
  pub producer : PutPc
  pub consumer : GetPc
  pub put_log : List ℕ
  pub got_log : List ℕ

pub data ThreadStep (s : TwoThreads) : TwoThreads → Type 0 where
  produce :
      {fifo : Kfifo} {pc : PutPc} {out : List ℕ}
      → PutMove s.fifo s.producer fifo pc out
      → ThreadStep s (record s { fifo = fifo; producer = pc; put_log = s.put_log ++ out })
  consume :
      {fifo : Kfifo} {pc : GetPc} {out : List ℕ}
      → GetMove s.fifo s.consumer fifo pc out
      → ThreadStep s (record s { fifo = fifo; consumer = pc; got_log = s.got_log ++ out })

-- Both threads between two calls, and nothing logged.
abbrev pub start_with : Kfifo → TwoThreads
start_with fifo = record {
  fifo = fifo;
  producer = put_idle;
  consumer = get_idle;
  put_log = [];
  got_log = [];
}

-- The steps of the two threads from a queue, in any order.
pub data ThreadReach (fifo : Kfifo) : TwoThreads → Type 0 where
  started : ThreadReach fifo (start_with fifo)
  later : {s t : TwoThreads} → ThreadReach fifo s → ThreadStep s t → ThreadReach fifo t
