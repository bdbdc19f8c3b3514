-- ===== src/Framing/Cobs/Resync.antt =====
-- The zero-stuffing decoder at a delimiter (src/lib/ludlc_cobs.c: ludlc_cobs_dec_feed).
use ludlc.Prelude.{ℕ, ◌+◌, ◌≡◌, ap, false, Option, none, some, List, ◌∷◌, ◌++◌, arith, length}
use ludlc.Core.State.{Stats}
use ludlc.Framing.Counters.{count_rx_packet}
use ludlc.Framing.Csum.{CsumAlg, framed}
use ludlc.Framing.Hdlc.RoundTrip.{Fits}
use ludlc.Framing.Cobs.{delimiter, Cdec, cdec_prep, cdec_reset, cdec_octet, cdec_feed}
use ludlc.Framing.Cobs.Groups.{groups, stuffed}
use ludlc.Framing.Cobs.Decode.{cfeed-step}
use ludlc.Framing.Cobs.Received.{CobsReceived, cdec_feed-stuffed}

-- The end of a frame that is no packet.
close-reset :
    (alg : Option CsumAlg) (d : Cdec) (st : Stats)
    → (cdec_octet alg delimiter d st).2 ≡ false
    → cdec_octet alg delimiter d st ≡ (cdec_reset alg d, (cdec_octet alg delimiter d st).1, false)
unfolding cdec_octet
close-reset none d st h = ground (arith, h)
close-reset (some alg) d st h = ground (arith, h)

reset-Received :
    (alg : Option CsumAlg) (packet : List ℕ) (d : Cdec) (st : Stats) (ys : List ℕ)
    → Fits alg d.payload_cap packet
    → CobsReceived packet
        (length (groups (length (framed alg packet) + 1) (framed alg packet)))
        (count_rx_packet st)
        (cdec_feed alg (cdec_reset alg d) st (stuffed (framed alg packet) ++ ys))
unfolding cdec_prep
reset-Received alg packet d st ys f = cdec_feed-stuffed alg packet d d.payload d.payload_cap st ys f

-- In any state, a decoder that counts no packet at a delimiter receives the packet whose encoding comes
-- next, whatever follows: it takes the octets before that encoding's delimiter, has the packet's octets in
-- its buffer, and counts one more packet than at the first delimiter. The packet has two or more octets
-- and fits the buffer (of fewer than 2^16 octets) with its checksum, and the checksum keeps what its
-- documentation says.
pub cdec_feed-resyncs :
    (alg : Option CsumAlg) (packet : List ℕ) (d : Cdec) (st : Stats) (ys : List ℕ)
    → Fits alg d.payload_cap packet
    → (cdec_octet alg delimiter d st).2 ≡ false
    → CobsReceived packet
        (length (groups (length (framed alg packet) + 1) (framed alg packet)) + 1)
        (count_rx_packet (cdec_octet alg delimiter d st).1)
        (cdec_feed alg d st (delimiter ∷ (stuffed (framed alg packet) ++ ys)))
cdec_feed-resyncs alg packet d st ys f h =
    let st₁ = (cdec_octet alg delimiter d st).1 in
    let r = reset-Received alg packet d st₁ ys f in
    rw
      (cfeed-step alg delimiter d (cdec_reset alg d) st st₁ (stuffed (framed alg packet) ++ ys)
        (close-reset alg d st h))
      record {
        done = r.done;
        taken = ap (λ n. n + 1) r.taken;
        stats = r.stats;
        size = r.size;
        stored_octets = r.stored_octets;
      }
