-- ===== src/Framing/Tests.antt =====
-- Frames to try the theorems on: an additive checksum, and a packet whose octets must be escaped
-- (src/lib/ludlc_hdlc.c).
mod Raw
mod Cobs
mod CobsEncode
mod Announce
use ludlc.Prelude.{
  ℕ, zero, suc, ◌+◌, ◌-◌, ◌%◌, ◌<◌, ◌≤◌, ◌≡◌, ◌≢◌, refl, ◌∙◌, ap, sym, Bool, true, false, Option,
  none, some, List, [], ◌∷◌, ◌++◌, All, arith, inl, inr, length, get_or,
}
use ludlc.Core.State.{Stats}
use ludlc.Framing.Counters.{count_rx_packet}
use ludlc.Framing.Octets.{octets}
use ludlc.Framing.Filling
use ludlc.Framing.Csum.{
  CsumAlg, csum_run, csum_run-append, framed, wire_octets, IsOctet, IsResidual, IsChecked,
}
use ludlc.Framing.Hdlc.{
  sof, esc, Henc, enc_idle, enc_busy, enc_prep, enc_fill, enc_calls, Hdec, dec_esc, dec_idle,
  dec_octet, dec_feed, dec_prep,
}
use ludlc.Framing.Hdlc.Escape.{escape, hide}
use ludlc.Framing.Hdlc.Encode.{pending, IsLoaded}
use ludlc.Framing.Hdlc.Sent.{frame, packet_at, IsPacket, enc_calls-frame}
use ludlc.Framing.Hdlc.Fill.{enc_fill-Filled}
use ludlc.Framing.Hdlc.Received.{Received}
use ludlc.Framing.Hdlc.Stream.{dec_calls, joined, dec_calls-joined}
use ludlc.Framing.Hdlc.Bounds.{InBuffer, dec_calls-InBuffer}
use ludlc.Framing.Hdlc.RoundTrip.{Fits, dec_feed-resyncs, enc_calls-dec_calls}
use ludlc.Framing.Hdlc.Reject.{count_reject, dec_feed-rejects}
use ludlc.Framing.Hdlc.Train.{train, receive_packets, receive_packets-train}
use ludlc.Framing.Raw.{
  Renc, renc_idle, renc_busy, renc_prep, renc_calls, Rdec, rdec_idle, rdec_prep, raw_wire_len,
}
use ludlc.Framing.Raw.Sent.{IsRawPacket, renc_calls-framed}
use ludlc.Framing.Raw.RoundTrip.{RawReceived, rdec_calls, renc_calls-rdec_calls}

-- A sum of octets, sent as what makes it zero.
abbrev pub sum_alg : CsumAlg
sum_alg = record {
  csum = λ sum c. (sum + c) % 256;
  to_wire = some (λ sum. (256 - sum) % 256);
  init = 0;
  verify = 0;
  octets = 1;
}

sum_run_bound : (sum : ℕ) (xs : List ℕ) → sum < 256 → csum_run (some sum_alg) sum xs < 256
unfolding csum_run
sum_run_bound sum [] h = h
sum_run_bound sum (x ∷ xs) h = sum_run_bound ((sum + x) % 256) xs (omega arith)

pub sum_alg-IsResidual : IsResidual sum_alg
unfolding csum_run wire_octets
sum_alg-IsResidual = record {
  residual = λ packet h.
      csum_run-append (some sum_alg) 0 packet
        (((256 - csum_run (some sum_alg) 0 packet) % 256) % 256 ∷ [])
      ∙ omega (arith, sum_run_bound 0 packet (omega arith));
  octets_from = omega arith;
  octets_to = omega arith;
}

-- The packet 0x55 1, 0xaa 7 in memory.
abbrev test_memory : ℕ → ℕ
test_memory p = get_or (0 ∷ 0x55 ∷ 1 ∷ 0xaa ∷ 7 ∷ []) p 0

abbrev test_packet : List ℕ
test_packet = 0x55 ∷ 1 ∷ 0xaa ∷ 7 ∷ []

test_packet-octets : All IsOctet test_packet
test_packet-octets = (omega arith, (omega arith, (omega arith, (omega arith, tt))))

abbrev test_stats : Stats
test_stats = record {
  rx_packet = 4;
  tx_packet = 0;
  bad_csum = 0;
  jabber = 0;
  on_conn = 1;
  on_disconn = 0;
  dropped = 0;
  overrun = 0;
}

abbrev test_encoder : Henc
test_encoder = record {
  hdr = 1;
  payload = 0;
  ptr = 0;
  hdr_size = 0;
  payload_size = 0;
  sz = 0;
  csum = 9;
  state = enc_idle;
  esc_state = enc_idle;
  esc_data = 0;
  send_eof = false;
}

-- A decoder that waits for the second octet of an escape.
abbrev test_decoder : Hdec
test_decoder = record { size = 1; csum = 9; state = dec_esc; payload = λ i. i; payload_cap = 16 }

test-IsPacket : IsPacket (some sum_alg) 1 2 2
test-IsPacket = record {
  hdr_some = λ e. absurd (omega (arith, e));
  hdr_size_from = omega arith;
  hdr_size_to = omega arith;
  pay_size_to = omega arith;
  width = (omega arith, omega arith);
}

test-Fits : Fits (some sum_alg) 16 test_packet
test-Fits = record {
  checked = sum_alg-IsResidual;
  are_octets = test_packet-octets;
  from_two = omega arith;
  in_cap = omega arith;
  cap_width = omega arith;
}

-- The frame: start, escaped 0x55, 1, escaped 0xaa, 7, the checksum 0xf9, end.
abbrev test_frame : List ℕ
test_frame = 0x55 ∷ 0xaa ∷ 0x75 ∷ 1 ∷ 0xaa ∷ 0x8a ∷ 7 ∷ 0xf9 ∷ 0x55 ∷ []

frame_is : frame (some sum_alg) test_packet true ≡ test_frame
unfolding escape hide csum_run wire_octets
frame_is = refl

-- Rooms that cut an escape in two.
abbrev test_rooms : List ℕ
test_rooms = 2 ∷ 1 ∷ 20 ∷ []

test-IsLoaded : IsLoaded (some sum_alg) (enc_prep test_encoder 1 2 3 2 true)
unfolding enc_prep
test-IsLoaded = record {
  hdr_some = λ e. absurd (omega (arith, e));
  hdr_bound = omega arith;
  payload_bound = omega arith;
  width = (omega arith, omega arith);
  phase = tt;
}

room_enough :
    length (frame (some sum_alg) (packet_at test_memory 1 2 3 2) true) < Filling.total test_rooms
unfolding escape hide csum_run wire_octets octets Filling.total
room_enough = omega arith

enc_fill-Filled_example :
    Filling.Filled enc_busy
      (pending test_memory (some sum_alg))
      (IsLoaded (some sum_alg))
      4
      (enc_prep test_encoder 1 2 3 2 true)
      (enc_fill test_memory (some sum_alg) 4 (enc_prep test_encoder 1 2 3 2 true))
enc_fill-Filled_example =
    enc_fill-Filled test_memory (some sum_alg) 4 (enc_prep test_encoder 1 2 3 2 true) test-IsLoaded

enc_calls-frame_example :
    ((enc_calls test_memory (some sum_alg) test_rooms (enc_prep test_encoder 1 2 3 2 true)).0
      ≡ frame (some sum_alg) (packet_at test_memory 1 2 3 2) true)
    × (enc_busy
          (enc_calls test_memory (some sum_alg) test_rooms (enc_prep test_encoder 1 2 3 2 true)).1
        ≡ false)
enc_calls-frame_example =
    enc_calls-frame test_memory (some sum_alg) test_encoder 1 2 3 2 true test_rooms refl
      test-IsPacket room_enough

dec_feed-resyncs_example :
    Received test_packet
      (length (frame (some sum_alg) test_packet true))
      (count_rx_packet (dec_octet (some sum_alg) sof test_decoder test_stats).1)
      (dec_feed
        (some sum_alg)
        test_decoder
        test_stats
        (frame (some sum_alg) test_packet true ++ (0x55 ∷ 3 ∷ [])))
unfolding dec_octet
dec_feed-resyncs_example =
    dec_feed-resyncs (some sum_alg) test_packet test_decoder test_stats (0x55 ∷ 3 ∷ []) test-Fits
      refl

packet_is : packet_at test_memory 1 2 3 2 ≡ test_packet
unfolding octets
packet_is = refl

enc_calls-dec_calls_example :
    Received
      (packet_at test_memory 1 2 3 2)
      (length (frame (some sum_alg) (packet_at test_memory 1 2 3 2) true))
      (count_rx_packet test_stats)
      (dec_calls
        (some sum_alg)
        (dec_prep (some sum_alg) test_decoder (λ i. i) 16)
        test_stats
        ((0x55 ∷ 0xaa ∷ []) ∷ (0x75 ∷ 1 ∷ 0xaa ∷ 0x8a ∷ 7 ∷ 0xf9 ∷ 0x55 ∷ 0x55 ∷ []) ∷ []))
unfolding enc_calls enc_prep joined escape hide csum_run wire_octets octets Filling.total
    Filling.fill_calls Filling.fill_loop
enc_calls-dec_calls_example =
    enc_calls-dec_calls test_memory (some sum_alg) test_encoder 1 2 3 2 test_rooms test_decoder
      (λ i. i) 16 test_stats
      ((0x55 ∷ 0xaa ∷ []) ∷ (0x75 ∷ 1 ∷ 0xaa ∷ 0x8a ∷ 7 ∷ 0xf9 ∷ 0x55 ∷ 0x55 ∷ []) ∷ []) (0x55 ∷ [])
      refl test-IsPacket room_enough test-Fits refl

-- A frame with a bad checksum before a good one.
dec_feed-rejects_example :
    Received test_packet
      (length (sof ∷ escape (1 ∷ 2 ∷ 3 ∷ [])) + length (frame (some sum_alg) test_packet true))
      (count_rx_packet (count_reject (some sum_alg) (1 ∷ 2 ∷ 3 ∷ []) test_stats))
      (dec_feed
        (some sum_alg)
        (dec_prep (some sum_alg) test_decoder (λ i. i) 16)
        test_stats
        ((sof ∷ escape (1 ∷ 2 ∷ 3 ∷ [])) ++ (frame (some sum_alg) test_packet true ++ [])))
unfolding csum_run
dec_feed-rejects_example =
    dec_feed-rejects (some sum_alg) (1 ∷ 2 ∷ 3 ∷ []) test_packet test_decoder (λ i. i) 16 test_stats
      [] (omega arith) (inl refl) test-Fits

receive_packets-train_example :
    receive_packets
      (some sum_alg)
      (λ i. i)
      16
      2
      test_decoder
      test_stats
      (train (some sum_alg) (test_packet ∷ test_packet ∷ []) ++ [])
    ≡ test_packet ∷ test_packet ∷ []
receive_packets-train_example =
    receive_packets-train (some sum_alg) (λ i. i) 16 (test_packet ∷ test_packet ∷ []) test_decoder
      test_stats [] (test-Fits, (test-Fits, tt))

dec_calls-InBuffer_example :
    InBuffer 2
      (λ i. i)
      (dec_calls
        (some sum_alg)
        (dec_prep (some sum_alg) test_decoder (λ i. i) 2)
        test_stats
        ((0x55 ∷ 1 ∷ 2 ∷ 3 ∷ []) ∷ (4 ∷ []) ∷ [])).dec
dec_calls-InBuffer_example =
    dec_calls-InBuffer (some sum_alg) test_decoder (λ i. i) 2 test_stats
      ((0x55 ∷ 1 ∷ 2 ∷ 3 ∷ []) ∷ (4 ∷ []) ∷ []) (omega arith)
