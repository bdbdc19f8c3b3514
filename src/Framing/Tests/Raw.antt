-- ===== src/Framing/Tests/Raw.antt =====
-- A raw frame to try the theorems on (src/lib/ludlc_raw.c).
use ludlc.Prelude.{◌<◌, ◌≡◌, refl, false, some, [], ◌∷◌, arith}
use ludlc.Framing.Counters.{count_rx_packet}
use ludlc.Framing.Octets.{octets}
use ludlc.Framing.Filling
use ludlc.Framing.Csum.{csum_run, framed, wire_octets}
use ludlc.Framing.Hdlc.Sent.{packet_at}
use ludlc.Framing.Hdlc.Stream.{joined}
use ludlc.Framing.Hdlc.RoundTrip.{Fits}
use ludlc.Framing.Raw.{
  Renc, renc_idle, renc_busy, renc_prep, renc_calls, Rdec, rdec_idle, rdec_prep, raw_wire_len,
}
use ludlc.Framing.Raw.Sent.{IsRawPacket, renc_calls-framed}
use ludlc.Framing.Raw.RoundTrip.{RawReceived, rdec_calls, renc_calls-rdec_calls}
use ludlc.Framing.Tests.{sum_alg, sum_alg-IsResidual, test_memory, test_packet-octets, test_stats}

abbrev test_raw_encoder : Renc
test_raw_encoder = record {
  hdr = 0;
  payload = 0;
  hdr_size = 0;
  payload_size = 0;
  ptr = 0;
  sz = 0;
  state = renc_idle;
  csum = 9;
}

test-IsRawPacket : IsRawPacket (some sum_alg) 1 2
test-IsRawPacket = record {
  hdr_some = λ e. absurd (omega (arith, e));
  hdr_size_from = omega arith;
  width = omega arith;
}

raw_room_enough : raw_wire_len (some sum_alg) 2 2 < Filling.total (3 ∷ 3 ∷ [])
unfolding raw_wire_len Filling.total
raw_room_enough = omega arith

renc_calls-framed_example :
    ((renc_calls test_memory
        (some sum_alg)
        (3 ∷ 3 ∷ [])
        (renc_prep test_raw_encoder 1 2 3 2 false)).0
      ≡ framed (some sum_alg) (packet_at test_memory 1 2 3 2))
    × (renc_busy
          (renc_calls test_memory
            (some sum_alg)
            (3 ∷ 3 ∷ [])
            (renc_prep test_raw_encoder 1 2 3 2 false)).1
        ≡ false)
renc_calls-framed_example =
    renc_calls-framed test_memory (some sum_alg) test_raw_encoder 1 2 3 2 false (3 ∷ 3 ∷ []) refl
      test-IsRawPacket raw_room_enough

abbrev test_raw_decoder : Rdec
test_raw_decoder = record { payload = λ i. i; size = 3; csum = 9; state = rdec_idle; sz = 0 }

raw-Fits : Fits (some sum_alg) (raw_wire_len (some sum_alg) 2 2) (packet_at test_memory 1 2 3 2)
unfolding raw_wire_len octets
raw-Fits = record {
  checked = sum_alg-IsResidual;
  are_octets = test_packet-octets;
  from_two = omega arith;
  in_cap = omega arith;
  cap_width = omega arith;
}

renc_calls-rdec_calls_example :
    RawReceived
      (packet_at test_memory 1 2 3 2)
      (raw_wire_len (some sum_alg) 2 2)
      (count_rx_packet test_stats)
      (rdec_calls
        (some sum_alg)
        (rdec_prep (some sum_alg) test_raw_decoder (λ i. i) (raw_wire_len (some sum_alg) 2 2))
        test_stats
        ((0x55 ∷ 1 ∷ []) ∷ (0xaa ∷ 7 ∷ 0xf9 ∷ []) ∷ []))
unfolding renc_calls renc_prep joined csum_run wire_octets octets Filling.fill_calls
    Filling.fill_loop
renc_calls-rdec_calls_example =
    renc_calls-rdec_calls test_memory (some sum_alg) test_raw_encoder 1 2 3 2 false (3 ∷ 3 ∷ [])
      test_raw_decoder (λ i. i) test_stats ((0x55 ∷ 1 ∷ []) ∷ (0xaa ∷ 7 ∷ 0xf9 ∷ []) ∷ []) [] refl
      test-IsRawPacket raw_room_enough raw-Fits refl
