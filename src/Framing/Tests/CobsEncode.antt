-- ===== src/Framing/Tests/CobsEncode.antt =====
-- A packet with a zero that the zero-stuffing encoder sends (src/lib/ludlc_cobs.c).
use ludlc.Prelude.{ℕ, ◌+◌, ◌<◌, ◌≡◌, refl, false, some, [], ◌∷◌, ◌++◌, arith, get_or, length}
use ludlc.Framing.Counters.{count_rx_packet}
use ludlc.Framing.Octets.{octets}
use ludlc.Framing.Filling
use ludlc.Framing.Csum.{framed}
use ludlc.Framing.Hdlc.Sent.{packet_at}
use ludlc.Framing.Hdlc.RoundTrip.{Fits}
use ludlc.Framing.Cobs.{cdec_prep, cdec_feed, cobs_wire_len}
use ludlc.Framing.Cobs.Groups.{groups}
use ludlc.Framing.Cobs.Received.{CobsReceived}
use ludlc.Framing.Cobs.Encode.{Cenc, cenc_idle, cenc_prep, cenc_calls, scan, scan_octet}
use ludlc.Framing.Cobs.Sent.{IsCobsIdle, cenc_calls-cdec_feed}
use ludlc.Framing.Tests.{sum_alg, sum_alg-IsResidual, test_stats}
use ludlc.Framing.Tests.Cobs.{over_decoder}

abbrev zero_memory : ℕ → ℕ
zero_memory p = get_or (9 ∷ 0x55 ∷ 0 ∷ 0xaa ∷ 7 ∷ []) p 0

abbrev test_cobs_encoder : Cenc
test_cobs_encoder = record {
  hdr = 0;
  payload = 0;
  ptr = 7;
  hdr_size = 0;
  payload_size = 0;
  sz = 3;
  csum = 9;
  csum_left = 0;
  run = 2;
  state = cenc_idle;
  full = false;
  armed = false;
  delim = false;
}

test_cobs_encoder-IsCobsIdle : IsCobsIdle test_cobs_encoder
test_cobs_encoder-IsCobsIdle = record { idle = refl; unarmed = refl }

cobs_calls :
    (cenc_calls zero_memory
      (some sum_alg)
      (1 ∷ 2 ∷ 5 ∷ [])
      (cenc_prep test_cobs_encoder 1 2 3 2 false)).0
    ≡ 2 ∷ 0x55 ∷ 4 ∷ 0xaa ∷ 7 ∷ 0xfa ∷ 0 ∷ []
unfolding cenc_calls cenc_prep scan scan_octet octets Filling.fill_calls Filling.fill_loop
cobs_calls = refl

cobs_room_enough : cobs_wire_len (some sum_alg) 2 2 < Filling.total (1 ∷ 2 ∷ 5 ∷ [])
unfolding cobs_wire_len Filling.total
cobs_room_enough = omega arith

zero_memory-Fits : Fits (some sum_alg) 16 (packet_at zero_memory 1 2 3 2)
unfolding octets
zero_memory-Fits = record {
  checked = sum_alg-IsResidual;
  are_octets = (omega arith, (omega arith, (omega arith, (omega arith, tt))));
  from_two = omega arith;
  in_cap = omega arith;
  cap_width = omega arith;
}

cenc_calls-cdec_feed_example :
    CobsReceived
      (packet_at zero_memory 1 2 3 2)
      (length (
        groups
          (length (framed (some sum_alg) (packet_at zero_memory 1 2 3 2)) + 1)
          (framed (some sum_alg) (packet_at zero_memory 1 2 3 2))))
      (count_rx_packet test_stats)
      (cdec_feed (some sum_alg) (cdec_prep (some sum_alg) over_decoder (λ i. i) 16) test_stats (
        (cenc_calls zero_memory
          (some sum_alg)
          (1 ∷ 2 ∷ 5 ∷ [])
          (cenc_prep test_cobs_encoder 1 2 3 2 false)).0
        ++ (3 ∷ [])))
cenc_calls-cdec_feed_example =
    cenc_calls-cdec_feed zero_memory (some sum_alg) test_cobs_encoder 1 2 3 2 false (1 ∷ 2 ∷ 5 ∷ [])
      over_decoder (λ i. i) 16 test_stats (3 ∷ []) test_cobs_encoder-IsCobsIdle
      (λ e. absurd (omega (arith, e))) (omega arith) cobs_room_enough zero_memory-Fits
