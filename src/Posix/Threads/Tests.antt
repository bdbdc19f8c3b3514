-- ===== src/Posix/Threads/Tests.antt =====
-- Two threads on a queue whose indexes are about to wrap (src/lib/platform/posix/kfifo.h).
use ludlc.Prelude.{◌≡◌, refl, [], ◌∷◌, ◌++◌, arith, update}
use ludlc.Posix.Kfifo.{Kfifo}
use ludlc.Posix.Kfifo.Queue.{contents, IsKfifo}
use ludlc.Posix.Threads.{
  TwoThreads, ThreadReach, started, later, produce, consume, call_put, load_in_put, load_out_put,
  store_octet, store_in, call_get, load_in_get, load_out_get, read_octet, store_out, put_idle,
  get_idle,
}
use ludlc.Posix.Threads.Order.{got_in_order}

abbrev shared_fifo : Kfifo
shared_fifo = record { octets = λ i. i; size = 4; in_index = 0xffffffff; out_index = 0xfffffffe }

shared-IsKfifo : IsKfifo shared_fifo
shared-IsKfifo = record {
  divides = ∣ (0x40000000, refl) ∣₁;
  size_from = omega arith;
  size_to = omega arith;
  in_to = omega arith;
  out_to = omega arith;
  len_to = omega arith;
}

-- The consumer takes the octet that was there while the producer is about to publish another.
abbrev after_both : TwoThreads
after_both = record {
  fifo = record { octets = update (λ i. i) 3 9; size = 4; in_index = 0; out_index = 0xffffffff };
  producer = put_idle;
  consumer = get_idle;
  put_log = 9 ∷ [];
  got_log = 2 ∷ [];
}

both_ran : ThreadReach shared_fifo after_both
both_ran =
    later
      (later
        (later
          (later
            (later
              (later
                (later
                  (later (later (later started (produce (call_put 9))) (consume call_get))
                    (produce (load_in_put 9)))
                  (consume load_in_get))
                (produce (load_out_put 9 0xffffffff)))
              (consume (load_out_get 0xffffffff)))
            (produce (store_octet 9 0xffffffff 0xfffffffe refl)))
          (consume (read_octet 0xffffffff 0xfffffffe refl)))
        (produce (store_in 9 0xffffffff)))
      (consume (store_out 0xfffffffe 2))

got_in_order_example :
    (contents shared_fifo ++ (9 ∷ []) ≡ (2 ∷ []) ++ contents after_both.fifo)
    × IsKfifo after_both.fifo
got_in_order_example = got_in_order shared_fifo shared-IsKfifo both_ran
