-- ===== src/Posix/Tests.antt =====
-- Queues to try the theorems on (src/lib/platform/posix/kfifo.h), whose indexes are about to wrap.
use ludlc.Prelude.{ℕ, ◌≡◌, ◌≤◌, refl, List, [], ◌∷◌, arith, length}
use ludlc.Framing.Octets.{octets}
use ludlc.Posix.Kfifo.{
  Kfifo, kfifo_put, write_at, kfifo_in, kfifo_out, kfifo_put_claim, kfifo_put_finish,
  kfifo_get_claim, kfifo_get_finish,
}
use ludlc.Posix.Kfifo.Queue.{IsKfifo}
use ludlc.Posix.Kfifo.Refine.{Put, kfifo_put-Put}
use ludlc.Posix.Kfifo.Each.{put_each}
use ludlc.Posix.Kfifo.Bulk.{kfifo_in-put_each, kfifo_put_finish-put_each}
use ludlc.Posix.Kfifo.Drain.{get_each, kfifo_out-get_each, kfifo_get_finish-get_each}

abbrev test_fifo : Kfifo
test_fifo = record { octets = λ i. i; size = 4; in_index = 0xffffffff; out_index = 0xfffffffe }

test-IsKfifo : IsKfifo test_fifo
test-IsKfifo = record {
  divides = ∣ (0x40000000, refl) ∣₁;
  size_from = omega arith;
  size_to = omega arith;
  in_to = omega arith;
  out_to = omega arith;
  len_to = omega arith;
}

kfifo_put-Put_example : Put test_fifo 9 (kfifo_put test_fifo 9)
kfifo_put-Put_example = kfifo_put-Put test_fifo 9 test-IsKfifo

-- Three octets for four, of which one is there: the buffer is cut at its end.
in_is : (kfifo_in test_fifo (7 ∷ 8 ∷ 9 ∷ 10 ∷ [])).1 ≡ 3
unfolding kfifo_in
in_is = refl

kfifo_in-put_each_example :
    kfifo_in test_fifo (7 ∷ 8 ∷ 9 ∷ 10 ∷ []) ≡ put_each test_fifo (7 ∷ 8 ∷ 9 ∷ 10 ∷ [])
kfifo_in-put_each_example = kfifo_in-put_each test_fifo (7 ∷ 8 ∷ 9 ∷ 10 ∷ []) test-IsKfifo

abbrev one_octet : List ℕ
one_octet = 7 ∷ []

one_free : length one_octet ≤ (kfifo_put_claim test_fifo 9).1
unfolding kfifo_put_claim
one_free = omega arith

kfifo_put_finish-put_each_example : put_each test_fifo one_octet ≡ (
  kfifo_put_finish
      (record test_fifo {
        octets = write_at test_fifo.octets (kfifo_put_claim test_fifo 9).0 one_octet;
      })
      (length one_octet),
  length one_octet,
)
kfifo_put_finish-put_each_example =
    kfifo_put_finish-put_each test_fifo 9 one_octet test-IsKfifo one_free

abbrev wrapped_fifo : Kfifo
wrapped_fifo = record { octets = λ i. i; size = 4; in_index = 1; out_index = 0xfffffffe }

wrapped-IsKfifo : IsKfifo wrapped_fifo
wrapped-IsKfifo = record {
  divides = ∣ (0x40000000, refl) ∣₁;
  size_from = omega arith;
  size_to = omega arith;
  in_to = omega arith;
  out_to = omega arith;
  len_to = omega arith;
}

out_is : (kfifo_out wrapped_fifo 9).1 ≡ 2 ∷ 3 ∷ 0 ∷ []
unfolding kfifo_out octets
out_is = refl

kfifo_out-get_each_example :
    kfifo_out wrapped_fifo 9
    ≡ ((get_each 9 wrapped_fifo).0, (get_each 9 wrapped_fifo).1, length (get_each 9 wrapped_fifo).1)
kfifo_out-get_each_example = kfifo_out-get_each wrapped_fifo 9 wrapped-IsKfifo

two_there : 2 ≤ (kfifo_get_claim wrapped_fifo 9).1
unfolding kfifo_get_claim
two_there = omega arith

kfifo_get_finish-get_each_example : get_each 2 wrapped_fifo ≡ (
  kfifo_get_finish wrapped_fifo 2,
  octets wrapped_fifo.octets (kfifo_get_claim wrapped_fifo 9).0 2,
)
kfifo_get_finish-get_each_example =
    kfifo_get_finish-get_each wrapped_fifo 9 2 wrapped-IsKfifo two_there
