-- ===== src/Framing/Hdlc/Received.antt =====
-- The frames that the escaping decoder receives (src/lib/ludlc_hdlc.c: ludlc_hdlc_dec_feed).
use ludlc.Prelude.{
  ℕ, ◌+◌, ◌-◌, ◌^◌, ◌≤◌, ◌<◌, ◌≡◌, refl, ◌∙◌, ap, true, Option, none, some, List, [], ◌∷◌, ◌++◌,
  All, arith, length,
}
use ludlc.Core.State.{Stats}
use ludlc.Framing.Counters.{count_rx_packet}
use ludlc.Framing.Octets.{octets, octets-prefix}
use ludlc.Framing.Csum.{
  CsumAlg, csum_octets, csum_run, csum_start, csum_rx_ok, framed, framed-ok, length-framed, IsOctet,
  IsChecked,
}
use ludlc.Framing.Hdlc.{sof, Hdec, dec_payload, dec_octet, dec_feed, dec_prep, dec_restart, Fed}
use ludlc.Framing.Hdlc.Escape.{escape}
use ludlc.Framing.Hdlc.Decode.{Holds, stored_all, stored_all-Holds, feed-escape, taken_after}

-- A call of ludlc_hdlc_dec_feed that ends with a packet, after `n` octets.
pub record Received (packet : List ℕ) (n : ℕ) (st : Stats) (fed : Fed) : Type 0 where
  pub done : fed.done ≡ true
  pub taken : fed.taken ≡ n
  pub stats : fed.stats ≡ st
  pub size : fed.dec.size ≡ length packet
  pub stored_octets : octets fed.dec.payload 0 (length packet) ≡ packet
  pub in_frame : fed.dec.state ≡ dec_payload

-- The octet that ends a good frame.
octet-close :
    (alg : Option CsumAlg) (d : Hdec) (st : Stats)
    → csum_octets alg + 2 ≤ d.size
    → csum_rx_ok alg d.csum ≡ true
    → dec_octet alg sof d st ≡ (
      record d { state = dec_payload; size = (d.size - csum_octets alg) },
      count_rx_packet st,
      true,
    )
unfolding dec_octet
octet-close none d st long ok = ground (arith, long)
octet-close (some alg) d st long ok = ground (arith, long, ok)

pub feed-done :
    (alg : Option CsumAlg) (c : ℕ) (d d₁ : Hdec) (st st₁ : Stats) (ys : List ℕ)
    → dec_octet alg c d st ≡ (d₁, st₁, true)
    → dec_feed alg d st (c ∷ ys) ≡ record { dec = d₁; stats = st₁; taken = 1; done = true }
unfolding dec_feed
feed-done alg c d d₁ st st₁ ys e = rw e refl

close-Received :
    {start cap : ℕ} (alg : Option CsumAlg) (packet : List ℕ) (d : Hdec) (st : Stats) (ys : List ℕ)
    → Holds alg start cap (framed alg packet) d
    → 2 ≤ length packet
    → csum_rx_ok alg d.csum ≡ true
    → Received packet 1 (count_rx_packet st) (dec_feed alg d st (sof ∷ ys))
close-Received alg packet d st ys h two ok =
    rw
      (feed-done alg sof d (record d { state = dec_payload; size = (d.size - csum_octets alg) }) st
        (count_rx_packet st) ys
        (octet-close alg d st (omega (arith, h.stored.length_is, length-framed alg packet)) ok))
      record {
        done = refl;
        taken = refl;
        stats = refl;
        size = omega (arith, h.stored.length_is, length-framed alg packet);
        stored_octets = octets-prefix d.payload 0 packet _ h.stored.octets_are;
        in_frame = refl;
      }

pub taken_after-Received :
    {packet : List ℕ} {n : ℕ} {st : Stats} (m : ℕ) (fed : Fed)
    → Received packet n st fed
    → Received packet (n + m) st (taken_after m fed)
taken_after-Received m fed r = record {
  done = r.done;
  taken = ap (λ k. k + m) r.taken;
  stats = r.stats;
  size = r.size;
  stored_octets = r.stored_octets;
  in_frame = r.in_frame;
}

-- The octet that starts a frame.
pub restart-Holds :
    (alg : Option CsumAlg) (cap : ℕ) (d : Hdec)
    → d.payload_cap ≡ cap
    → Holds alg (csum_start alg d.csum) cap [] (dec_restart alg d)
unfolding octets csum_run
restart-Holds alg cap d e = record {
  in_frame = refl;
  stored = record { length_is = refl; octets_are = refl; sum_is = refl };
  room = e;
}

-- A decoder that has been given a buffer for a packet whose first octet is the next.
pub prep-Holds :
    (alg : Option CsumAlg) (d : Hdec) (buf : ℕ → ℕ) (cap : ℕ)
    → d.state ≡ dec_payload
    → Holds alg (csum_start alg d.csum) cap [] (dec_prep alg d buf cap)
unfolding dec_prep octets csum_run
prep-Holds alg d buf cap e = record {
  in_frame = e;
  stored = record { length_is = refl; octets_are = refl; sum_is = refl };
  room = refl;
}

-- The rest of a frame, in a decoder that has begun it.
pub body-Received :
    {start cap : ℕ} (alg : Option CsumAlg) (packet : List ℕ) (d : Hdec) (st : Stats) (ys : List ℕ)
    → Holds alg start cap [] d
    → start ≡ csum_start alg start
    → IsChecked alg
    → All IsOctet packet
    → 2 ≤ length packet
    → length packet + csum_octets alg ≤ cap
    → cap < 2 ^ 16
    → Received packet
        (1 + length (escape (framed alg packet)))
        (count_rx_packet st)
        (dec_feed alg d st (escape (framed alg packet) ++ (sof ∷ ys)))
body-Received {start} {cap} alg packet d st ys h e checked octs two fits small =
    let xs = framed alg packet in
    let h₁ = stored_all-Holds xs [] d h (omega (arith, body_fits)) small in
    rw (feed-escape xs [] d st (sof ∷ ys) h (omega (arith, body_fits)) small) (
      taken_after-Received (length (escape xs)) _ (
        close-Received alg packet (stored_all alg xs d) st ys h₁ two
          (ap (csum_rx_ok alg) h₁.stored.sum_is ∙ framed-ok alg start packet checked octs e)))
  where
    body_fits : length (framed alg packet) ≤ cap
    body_fits = omega (arith, fits, length-framed alg packet)
