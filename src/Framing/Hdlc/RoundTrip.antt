-- ===== src/Framing/Hdlc/RoundTrip.antt =====
-- Frames from one end of a link to the other (src/lib/ludlc_hdlc.c), the packets that are lost on the
-- way included.
use ludlc.Prelude.{
  ℕ, ◌+◌, ◌^◌, ◌≤◌, ◌<◌, ◌≡◌, refl, ap, sym, true, false, Option, none, some, List, [], ◌∷◌, ◌++◌,
  All, append_assoc, arith, length, length-append,
}
use mathlib.Core.Path.{subst}
use ludlc.Core.State.{Stats}
use ludlc.Framing.Counters.{count_rx_packet}
use ludlc.Framing.Csum.{CsumAlg, csum_octets, framed, start_again, IsOctet, IsChecked}
use ludlc.Framing.Hdlc.{
  sof, Henc, enc_idle, enc_prep, enc_calls, Hdec, dec_octet, dec_feed, dec_prep, dec_restart,
}
use ludlc.Framing.Hdlc.Escape.{escape}
use ludlc.Framing.Filling.{total}
use ludlc.Framing.Hdlc.Sent.{frame, IsPacket, packet_at, enc_calls-frame}
use ludlc.Framing.Hdlc.Decode.{feed-step}
use ludlc.Framing.Hdlc.Received.{Received, body-Received, taken_after-Received, restart-Holds}
use ludlc.Framing.Hdlc.Stream.{dec_calls, joined, dec_calls-joined}

-- The octet that starts a frame, unless it ends another.
sof-restart :
    (alg : Option CsumAlg) (d : Hdec) (st : Stats)
    → (dec_octet alg sof d st).2 ≡ false
    → dec_octet alg sof d st ≡ (dec_restart alg d, (dec_octet alg sof d st).1, false)
unfolding dec_octet
sof-restart none d st h = ground (arith, h)
sof-restart (some alg) d st h = ground (arith, h)

-- A packet that the decoder's buffer takes, the octets of its checksum included.
pub record Fits (alg : Option CsumAlg) (cap : ℕ) (packet : List ℕ) : Type 0 where
  pub checked : IsChecked alg
  pub are_octets : All IsOctet packet
  pub from_two : 2 ≤ length packet
  pub in_cap : length packet + csum_octets alg ≤ cap
  pub cap_width : cap < 2 ^ 16

pub frame_octets :
    (alg : Option CsumAlg) (packet ys : List ℕ)
    → frame alg packet true ++ ys ≡ sof ∷ (escape (framed alg packet) ++ (sof ∷ ys))
frame_octets alg packet ys =
    ap (λ zs. sof ∷ zs) (append_assoc (escape (framed alg packet)) (sof ∷ []) ys)

pub length-frame :
    (alg : Option CsumAlg) (packet : List ℕ)
    → (1 + length (escape (framed alg packet))) + 1 ≡ length (frame alg packet true)
length-frame alg packet = omega (arith, length-append (escape (framed alg packet)) (sof ∷ []))

-- In any state, a decoder whose buffer has room for a packet of two or more octets and its checksum, and
-- which counts no packet at the octet that starts its frame, receives the packet from its frame,
-- whatever follows: it takes the frame's octets, has the packet's octets in its buffer, and counts one
-- more packet. The checksum keeps what its documentation says, and the buffer is below 2^16 octets.
pub dec_feed-resyncs :
    (alg : Option CsumAlg) (packet : List ℕ) (d : Hdec) (st : Stats) (ys : List ℕ)
    → Fits alg d.payload_cap packet
    → (dec_octet alg sof d st).2 ≡ false
    → Received packet
        (length (frame alg packet true))
        (count_rx_packet (dec_octet alg sof d st).1)
        (dec_feed alg d st (frame alg packet true ++ ys))
dec_feed-resyncs alg packet d st ys f h =
    let st₁ = (dec_octet alg sof d st).1 in
    rw
      (
        frame_octets alg packet ys,
        feed-step alg sof d (dec_restart alg d) st st₁ _ (sof-restart alg d st h),
        sym (length-frame alg packet),
      )
      (taken_after-Received 1 _ (
        body-Received alg packet (dec_restart alg d) st₁ ys (restart-Holds alg d.payload_cap d refl)
          (start_again alg d.csum) f.checked f.are_octets f.from_two f.in_cap f.cap_width))

-- A decoder that has just been given a buffer starts a frame.
pub sof-prepared :
    (alg : Option CsumAlg) (d : Hdec) (buf : ℕ → ℕ) (cap : ℕ) (st : Stats)
    → dec_octet alg sof (dec_prep alg d buf cap) st
      ≡ (dec_restart alg (dec_prep alg d buf cap), st, false)
unfolding dec_octet dec_prep
sof-prepared none d buf cap st = ground arith
sof-prepared (some alg) d buf cap st = ground arith

pub prepared-Received :
    (alg : Option CsumAlg) (packet : List ℕ) (d : Hdec) (buf : ℕ → ℕ) (cap : ℕ) (st : Stats)
    (ys : List ℕ)
    → Fits alg cap packet
    → Received packet
        (length (frame alg packet true))
        (count_rx_packet st)
        (dec_feed alg (dec_prep alg d buf cap) st (frame alg packet true ++ ys))
unfolding dec_prep
prepared-Received alg packet d buf cap st ys f =
    let d₁ = dec_prep alg d buf cap in
    let start = sof-prepared alg d buf cap st in
    subst
      (λ s.
        Received packet (length (frame alg packet true)) (count_rx_packet s)
          (dec_feed alg d₁ st (frame alg packet true ++ ys)))
      (ap (λ o. o.1) start) (dec_feed-resyncs alg packet d₁ st ys f (ap (λ o. o.2) start))

-- A packet that is sent with any room in each call of the encoder (more than the frame in all), from an
-- idle encoder and with an octet that ends it, and whose octets, and any that follow, are handed on in any
-- pieces to a decoder that has been given a buffer, is received: the same octets, all of the frame taken,
-- and one more packet counted. The packet has a header and two or more octets in all, it fits the buffer
-- (of fewer than 2^16 octets) with its checksum, and the checksum keeps what its documentation says.
pub enc_calls-dec_calls :
    (mem : ℕ → ℕ) (alg : Option CsumAlg) (s : Henc) (hdr hdr_sz payload pay_sz : ℕ) (rooms : List ℕ)
    (d : Hdec) (buf : ℕ → ℕ) (cap : ℕ) (st : Stats) (srcs : List (List ℕ)) (ys : List ℕ)
    → s.state ≡ enc_idle
    → IsPacket alg hdr hdr_sz pay_sz
    → length (frame alg (packet_at mem hdr hdr_sz payload pay_sz) true) < total rooms
    → Fits alg cap (packet_at mem hdr hdr_sz payload pay_sz)
    → joined srcs ≡ (enc_calls mem alg rooms (enc_prep s hdr hdr_sz payload pay_sz true)).0 ++ ys
    → Received
        (packet_at mem hdr hdr_sz payload pay_sz)
        (length (frame alg (packet_at mem hdr hdr_sz payload pay_sz) true))
        (count_rx_packet st)
        (dec_calls alg (dec_prep alg d buf cap) st srcs)
enc_calls-dec_calls mem alg s hdr hdr_sz payload pay_sz rooms d buf cap st srcs ys e h enough f
      cut =
    let packet = packet_at mem hdr hdr_sz payload pay_sz in
    rw
      (
        dec_calls-joined alg (dec_prep alg d buf cap) st srcs,
        cut,
        (enc_calls-frame mem alg s hdr hdr_sz payload pay_sz true rooms e h enough).0,
      )
      (prepared-Received alg packet d buf cap st ys f)
