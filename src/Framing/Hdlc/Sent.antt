-- ===== src/Framing/Hdlc/Sent.antt =====
-- The frames that the escaping encoder sends (src/lib/ludlc_hdlc.c: ludlc_hdlc_enc_prep and
-- ludlc_hdlc_enc_fill), whatever room each call has.
use ludlc.Prelude.{
  ℕ, ◌≤◌, ◌<◌, ◌≡◌, ◌≢◌, ◌∙◌, ap, Bool, false, Option, List, ◌∷◌, ◌++◌, arith, length,
}
use ludlc.Framing.Octets.{octets}
use ludlc.Framing.Csum.{CsumAlg, framed, framed-start}
use ludlc.Framing.Hdlc.{sof, Henc, enc_idle, enc_busy, enc_prep, enc_calls}
use ludlc.Framing.Hdlc.Escape.{escape}
use ludlc.Framing.Hdlc.Encode.{pending, eof, WidthOk, IsLoaded}
use ludlc.Framing.Hdlc.Round.{idle-pending}
use ludlc.Framing.Filling.{total, Filled-all}
use ludlc.Framing.Hdlc.Fill.{enc_calls-Filled}

-- The frame of a packet on the wire.
abbrev pub frame : Option CsumAlg → List ℕ → Bool → List ℕ
frame alg packet send_eof = sof ∷ (escape (framed alg packet) ++ eof send_eof)

-- An encoder that is loaded and idle has a frame to write.
prep-pending :
    (mem : ℕ → ℕ) (alg : Option CsumAlg) (s : Henc)
    → s.hdr_size ≢ 0
    → pending mem alg (record s { state = enc_idle })
      ≡ frame alg (octets mem s.hdr s.hdr_size ++ octets mem s.payload s.payload_size) s.send_eof
prep-pending mem alg s h =
    ground (arith, h) ∙ ap (λ xs. sof ∷ (escape xs ++ eof s.send_eof)) (framed-start alg s.csum _)

-- What ludlc_hdlc_enc_prep asks of a packet: a header, of one octet up to 255, and a payload up to 255;
-- and of a checksum: one octet up to 255.
pub record IsPacket (alg : Option CsumAlg) (hdr hdr_sz pay_sz : ℕ) : Type 0 where
  pub hdr_some : hdr ≢ 0
  pub hdr_size_from : 1 ≤ hdr_sz
  pub hdr_size_to : hdr_sz ≤ 255
  pub pay_size_to : pay_sz ≤ 255
  pub width : WidthOk alg

-- The packet in memory.
abbrev pub packet_at : (ℕ → ℕ) → ℕ → ℕ → ℕ → ℕ → List ℕ
packet_at mem hdr hdr_sz payload pay_sz = octets mem hdr hdr_sz ++ octets mem payload pay_sz

prep-IsLoaded :
    {alg : Option CsumAlg} {hdr hdr_sz pay_sz : ℕ} (s : Henc) (payload : ℕ) (send_eof : Bool)
    → s.state ≡ enc_idle
    → IsPacket alg hdr hdr_sz pay_sz
    → IsLoaded alg (enc_prep s hdr hdr_sz payload pay_sz send_eof)
unfolding enc_prep
prep-IsLoaded s payload send_eof e h = record {
  hdr_some = h.hdr_some;
  hdr_bound = h.hdr_size_to;
  payload_bound = h.pay_size_to;
  width = h.width;
  phase = ground (arith, e);
}

prepared-pending :
    (mem : ℕ → ℕ) (alg : Option CsumAlg) (s : Henc) (hdr hdr_sz payload pay_sz : ℕ)
    (send_eof : Bool)
    → s.state ≡ enc_idle
    → 1 ≤ hdr_sz
    → pending mem alg (enc_prep s hdr hdr_sz payload pay_sz send_eof)
      ≡ frame alg (packet_at mem hdr hdr_sz payload pay_sz) send_eof
unfolding enc_prep
prepared-pending mem alg s hdr hdr_sz payload pay_sz send_eof e one =
    ap (λ f. pending mem alg (record (enc_prep s hdr hdr_sz payload pay_sz send_eof) { state = f }))
      e
    ∙ prep-pending mem alg (enc_prep s hdr hdr_sz payload pay_sz send_eof) (omega arith)

-- An idle encoder is given a packet with a header (of 1 to 255 octets) and a payload (of at most 255), on a
-- link whose checksum, if any, has 1 to 255 octets. However the room is cut into calls of
-- ludlc_hdlc_enc_fill, if it is more than the frame in all, then what they write is the frame: the octet
-- that starts it, the packet and its checksum escaped, and the octet that ends it if it was asked for.
-- Then the encoder is no longer busy.
pub enc_calls-frame :
    (mem : ℕ → ℕ) (alg : Option CsumAlg) (s : Henc) (hdr hdr_sz payload pay_sz : ℕ)
    (send_eof : Bool) (rooms : List ℕ)
    → s.state ≡ enc_idle
    → IsPacket alg hdr hdr_sz pay_sz
    → length (frame alg (packet_at mem hdr hdr_sz payload pay_sz) send_eof) < total rooms
    → ((enc_calls mem alg rooms (enc_prep s hdr hdr_sz payload pay_sz send_eof)).0
        ≡ frame alg (packet_at mem hdr hdr_sz payload pay_sz) send_eof)
      × (enc_busy (enc_calls mem alg rooms (enc_prep s hdr hdr_sz payload pay_sz send_eof)).1
          ≡ false)
enc_calls-frame mem alg s hdr hdr_sz payload pay_sz send_eof rooms e h enough =
    let s₁ = enc_prep s hdr hdr_sz payload pay_sz send_eof in
    Filled-all (frame alg (packet_at mem hdr hdr_sz payload pay_sz) send_eof)
      (enc_calls-Filled mem alg rooms s₁ (prep-IsLoaded s payload send_eof e h))
      (prepared-pending mem alg s hdr hdr_sz payload pay_sz send_eof e h.hdr_size_from)
      (idle-pending mem alg (enc_calls mem alg rooms s₁).1) enough
