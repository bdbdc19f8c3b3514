-- ===== src/Framing/Tests/Cobs.antt =====
-- A packet with a zero to try the theorems on (src/lib/ludlc_cobs.c).
use ludlc.Prelude.{ℕ, ◌+◌, ◌≤◌, ◌≡◌, refl, true, false, some, List, [], ◌∷◌, ◌++◌, arith, length}
use ludlc.Framing.Counters.{count_rx_packet}
use ludlc.Framing.Csum.{framed, csum_run, wire_octets}
use ludlc.Framing.Hdlc.Sent.{packet_at}
use ludlc.Framing.Hdlc.RoundTrip.{Fits}
use ludlc.Framing.Cobs.{Cdec, delimiter, cdec_octet, cdec_feed, cdec_prep, cobs_wire_len}
use ludlc.Framing.Cobs.Groups.{groups, stuffed, run_of, rest_of, length-stuffed}
use ludlc.Framing.Cobs.Received.{CobsReceived, cdec_feed-stuffed}
use ludlc.Framing.Cobs.Resync.{cdec_feed-resyncs}
use ludlc.Framing.Cobs.Bounds.{CobsInBuffer, cdec_feed-CobsInBuffer}
use ludlc.Framing.Tests.{sum_alg, sum_alg-IsResidual, test_memory, test_stats}

abbrev zero_packet : List ℕ
zero_packet = 0x55 ∷ 0 ∷ 0xaa ∷ 7 ∷ []

-- A decoder in a group of a frame that it has dropped.
abbrev pub over_decoder : Cdec
over_decoder = record {
  payload = λ i. i;
  payload_cap = 2;
  size = 2;
  csum = 9;
  code = 7;
  left = 3;
  started = true;
  over = true;
}

zero-Fits : Fits (some sum_alg) 16 zero_packet
zero-Fits = record {
  checked = sum_alg-IsResidual;
  are_octets = (omega arith, (omega arith, (omega arith, (omega arith, tt))));
  from_two = omega arith;
  in_cap = omega arith;
  cap_width = omega arith;
}

stuffed_is : stuffed (framed (some sum_alg) zero_packet) ≡ 2 ∷ 0x55 ∷ 4 ∷ 0xaa ∷ 7 ∷ 0xfa ∷ 0 ∷ []
unfolding groups run_of rest_of csum_run wire_octets
stuffed_is = refl

cdec_feed-stuffed_example :
    CobsReceived zero_packet
      (length (
        groups
          (length (framed (some sum_alg) zero_packet) + 1)
          (framed (some sum_alg) zero_packet)))
      (count_rx_packet test_stats)
      (cdec_feed
        (some sum_alg)
        (cdec_prep (some sum_alg) over_decoder (λ i. i) 16)
        test_stats
        (stuffed (framed (some sum_alg) zero_packet) ++ (3 ∷ [])))
cdec_feed-stuffed_example =
    cdec_feed-stuffed (some sum_alg) zero_packet over_decoder (λ i. i) 16 test_stats (3 ∷ [])
      zero-Fits

length-stuffed_example :
    length (stuffed (framed (some sum_alg) (packet_at test_memory 1 2 3 2)))
    ≤ cobs_wire_len (some sum_alg) 2 2
length-stuffed_example = length-stuffed (some sum_alg) test_memory 1 2 3 2 (omega arith)

abbrev wide_decoder : Cdec
wide_decoder = record {
  payload = λ i. i;
  payload_cap = 16;
  size = 2;
  csum = 9;
  code = 7;
  left = 3;
  started = true;
  over = false;
}

cdec_feed-resyncs_example :
    CobsReceived zero_packet
      (length (
          groups
            (length (framed (some sum_alg) zero_packet) + 1)
            (framed (some sum_alg) zero_packet))
        + 1)
      (count_rx_packet (cdec_octet (some sum_alg) delimiter wide_decoder test_stats).1)
      (cdec_feed
        (some sum_alg)
        wide_decoder
        test_stats
        (delimiter ∷ (stuffed (framed (some sum_alg) zero_packet) ++ (9 ∷ []))))
unfolding cdec_octet
cdec_feed-resyncs_example =
    cdec_feed-resyncs (some sum_alg) zero_packet wide_decoder test_stats (9 ∷ []) zero-Fits refl

cdec_feed-CobsInBuffer_example :
    CobsInBuffer 2
      (λ i. i)
      (cdec_feed
        (some sum_alg)
        (cdec_prep (some sum_alg) wide_decoder (λ i. i) 2)
        test_stats
        (5 ∷ 1 ∷ 2 ∷ 3 ∷ 4 ∷ [])).dec
cdec_feed-CobsInBuffer_example =
    cdec_feed-CobsInBuffer (some sum_alg) wide_decoder (λ i. i) 2 test_stats
      (5 ∷ 1 ∷ 2 ∷ 3 ∷ 4 ∷ []) (omega arith)
