-- ===== src/Framing/Cobs/Received.antt =====
-- The packets that the zero-stuffing decoder receives (src/lib/ludlc_cobs.c: ludlc_cobs_dec_feed).
use ludlc.Prelude.{
  ℕ, ◌+◌, ◌-◌, ◌≤◌, ◌≡◌, refl, ◌∙◌, ap, true, false, Option, none, some, List, [], ◌∷◌, ◌++◌,
  append_assoc, arith, length,
}
use ludlc.Core.State.{Stats}
use ludlc.Framing.Counters.{count_rx_packet}
use ludlc.Framing.Octets.{octets, octets-prefix}
use ludlc.Framing.Csum.{
  CsumAlg, csum_octets, csum_run, csum_start, csum_rx_ok, framed, framed-ok, length-framed,
  start_again,
}
use ludlc.Framing.Hdlc.RoundTrip.{Fits}
use ludlc.Framing.Cobs.{delimiter, Cdec, cdec_prep, cdec_octet, cdec_feed, Cfed}
use ludlc.Framing.Cobs.Groups.{groups, stuffed}
use ludlc.Framing.Cobs.Decode.{CobsHolds, Ran, ctaken_after}
use ludlc.Framing.Cobs.Between.{groups-Ran}

-- A call of ludlc_cobs_dec_feed that ends with a packet, before whose delimiter it took `n` octets.
pub record CobsReceived (packet : List ℕ) (n : ℕ) (st : Stats) (fed : Cfed) : Type 0 where
  pub done : fed.done ≡ true
  pub taken : fed.taken ≡ n
  pub stats : fed.stats ≡ st
  pub size : fed.dec.size ≡ length packet
  pub stored_octets : octets fed.dec.payload 0 (length packet) ≡ packet

octet-close :
    (alg : Option CsumAlg) (d : Cdec) (st : Stats)
    → d.over ≡ false
    → d.left ≡ 0
    → csum_octets alg + 2 ≤ d.size
    → csum_rx_ok alg d.csum ≡ true
    → cdec_octet alg delimiter d st
      ≡ (record d { size = d.size - csum_octets alg }, count_rx_packet st, true)
unfolding cdec_octet
octet-close none d st o l long ok = ground (arith, o, l, long)
octet-close (some alg) d st o l long ok = ground (arith, o, l, long, ok)

cfeed-done :
    (alg : Option CsumAlg) (c : ℕ) (d d₁ : Cdec) (st st₁ : Stats) (ys : List ℕ)
    → cdec_octet alg c d st ≡ (d₁, st₁, true)
    → cdec_feed alg d st (c ∷ ys) ≡ record { dec = d₁; stats = st₁; taken = 0; done = true }
unfolding cdec_feed
cfeed-done alg c d d₁ st st₁ ys e = rw e refl

prep-CobsHolds :
    (alg : Option CsumAlg) (d : Cdec) (buf : ℕ → ℕ) (cap : ℕ)
    → CobsHolds alg (csum_start alg d.csum) cap [] (cdec_prep alg d buf cap)
unfolding cdec_prep octets csum_run
prep-CobsHolds alg d buf cap = record {
  stored = record { length_is = refl; octets_are = refl; sum_is = refl };
  room = refl;
  not_over = refl;
}

packet-Ran :
    (alg : Option CsumAlg) (packet : List ℕ) (d : Cdec) (buf : ℕ → ℕ) (cap : ℕ) (st : Stats)
    → Fits alg cap packet
    → Ran alg
        (csum_start alg d.csum)
        cap
        (framed alg packet)
        (groups (length (framed alg packet) + 1) (framed alg packet))
        (cdec_prep alg d buf cap)
        st
unfolding cdec_prep
packet-Ran alg packet d buf cap st f =
    groups-Ran (length (framed alg packet) + 1) (framed alg packet) [] (cdec_prep alg d buf cap) st
      (prep-CobsHolds alg d buf cap) refl (omega (arith, f.in_cap, length-framed alg packet))
      f.cap_width (omega arith)

close-CobsReceived :
    {start cap : ℕ} (alg : Option CsumAlg) (packet : List ℕ) (n : ℕ) (d : Cdec) (st : Stats)
    (ys : List ℕ)
    → CobsHolds alg start cap (framed alg packet) d
    → d.left ≡ 0
    → 2 ≤ length packet
    → csum_rx_ok alg d.csum ≡ true
    → CobsReceived packet n
        (count_rx_packet st)
        (ctaken_after n (cdec_feed alg d st (delimiter ∷ ys)))
close-CobsReceived alg packet n d st ys h l two ok =
    rw
      (cfeed-done alg delimiter d (record d { size = d.size - csum_octets alg }) st
        (count_rx_packet st) ys
        (octet-close alg d st h.not_over l
          (omega (arith, h.stored.length_is, length-framed alg packet)) ok))
      record {
        done = refl;
        taken = omega arith;
        stats = refl;
        size = omega (arith, h.stored.length_is, length-framed alg packet);
        stored_octets = octets-prefix d.payload 0 packet _ h.stored.octets_are;
      }

-- A decoder in any state that is given a buffer receives a packet from its encoding, whatever follows the
-- delimiter: it takes the octets before the delimiter, has the packet's octets in its buffer, and counts
-- one more packet. The packet has two or more octets and fits the buffer (of fewer than 2^16 octets) with
-- its checksum, and the checksum keeps what its documentation says.
pub cdec_feed-stuffed :
    (alg : Option CsumAlg) (packet : List ℕ) (d : Cdec) (buf : ℕ → ℕ) (cap : ℕ) (st : Stats)
    (ys : List ℕ)
    → Fits alg cap packet
    → CobsReceived packet
        (length (groups (length (framed alg packet) + 1) (framed alg packet)))
        (count_rx_packet st)
        (cdec_feed alg (cdec_prep alg d buf cap) st (stuffed (framed alg packet) ++ ys))
cdec_feed-stuffed alg packet d buf cap st ys f =
    let xs = framed alg packet in
    let r = packet-Ran alg packet d buf cap st f in
    rw (append_assoc (groups (length xs + 1) xs) (delimiter ∷ []) ys, r.fed (delimiter ∷ ys))
      (close-CobsReceived alg packet (length (groups (length xs + 1) xs)) r.dec st ys r.holds
        r.none_left f.from_two
        (ap (csum_rx_ok alg) r.holds.stored.sum_is
          ∙ framed-ok alg (csum_start alg d.csum) packet f.checked f.are_octets
              (start_again alg d.csum)))
