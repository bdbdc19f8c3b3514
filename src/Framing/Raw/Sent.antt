-- ===== src/Framing/Raw/Sent.antt =====
-- The frames that the raw encoder sends (src/lib/ludlc_raw.c: ludlc_raw_enc_prep, ludlc_raw_enc_fill and
-- framing_raw_wire_len), whatever room each call has.
use ludlc.Prelude.{
  ℕ, ◌≤◌, ◌<◌, ◌≡◌, ◌≢◌, ◌∙◌, ap, Bool, false, Option, List, arith, inr, length, length-append,
}
use ludlc.Framing.Octets.{octets, length-octets}
use ludlc.Framing.Filling
use ludlc.Framing.Csum.{CsumAlg, framed, framed-start, framed_from, csum_start, length-framed}
use ludlc.Framing.Hdlc.Sent.{packet_at}
use ludlc.Framing.Raw.{Renc, renc_idle, renc_busy, renc_prep, renc_round, renc_calls, raw_wire_len}
use ludlc.Framing.Raw.Encode.{
  raw_pending, IsRawLoaded, RawWidth, raw_round-Rounded, raw_idle-pending,
}

-- What ludlc_raw_enc_prep asks of a packet, and of a checksum.
pub record IsRawPacket (alg : Option CsumAlg) (hdr hdr_sz : ℕ) : Type 0 where
  pub hdr_some : hdr ≢ 0
  pub hdr_size_from : 1 ≤ hdr_sz
  pub width : RawWidth alg

raw_prep-IsRawLoaded :
    {alg : Option CsumAlg} {hdr hdr_sz : ℕ} (s : Renc) (payload pay_sz : ℕ) (send_eof : Bool)
    → s.state ≡ renc_idle
    → IsRawPacket alg hdr hdr_sz
    → IsRawLoaded alg (renc_prep s hdr hdr_sz payload pay_sz send_eof)
unfolding renc_prep
raw_prep-IsRawLoaded s payload pay_sz send_eof e h = record {
  hdr_some = inr h.hdr_some;
  width = h.width;
  phase = ground (arith, e);
}

raw_prepared-pending :
    (mem : ℕ → ℕ) (alg : Option CsumAlg) (s : Renc) (hdr hdr_sz payload pay_sz : ℕ)
    (send_eof : Bool)
    → s.state ≡ renc_idle
    → 1 ≤ hdr_sz
    → raw_pending mem alg (renc_prep s hdr hdr_sz payload pay_sz send_eof)
      ≡ framed alg (packet_at mem hdr hdr_sz payload pay_sz)
unfolding renc_prep
raw_prepared-pending mem alg s hdr hdr_sz payload pay_sz send_eof e one =
    ap
      (λ f.
        raw_pending mem alg (record (renc_prep s hdr hdr_sz payload pay_sz send_eof) { state = f }))
      e
    ∙ started
    ∙ framed-start alg s.csum (packet_at mem hdr hdr_sz payload pay_sz)
  where
    started :
        raw_pending mem alg
          (record (renc_prep s hdr hdr_sz payload pay_sz send_eof) { state = renc_idle })
        ≡ framed_from alg (csum_start alg s.csum) (packet_at mem hdr hdr_sz payload pay_sz)
    started = ground (arith, one)

-- The length on the wire, which the transport announces.
pub length-raw :
    (mem : ℕ → ℕ) (alg : Option CsumAlg) (hdr hdr_sz payload pay_sz : ℕ)
    → length (framed alg (packet_at mem hdr hdr_sz payload pay_sz)) ≡ raw_wire_len alg hdr_sz pay_sz
unfolding raw_wire_len
length-raw mem alg hdr hdr_sz payload pay_sz =
    let packet = packet_at mem hdr hdr_sz payload pay_sz in
    omega (
      arith,
      length-framed alg packet,
      length-append (octets mem hdr hdr_sz) (octets mem payload pay_sz),
      length-octets mem hdr hdr_sz,
      length-octets mem payload pay_sz,
    )

-- An idle raw encoder is given a packet with a header of one octet or more, on a link whose checksum, if
-- any, has one octet or more. However the room is cut into calls of ludlc_raw_enc_fill, if it is more in
-- all than framing_raw_wire_len says, then what they write is the packet and its checksum, and the
-- encoder is no longer busy.
pub renc_calls-framed :
    (mem : ℕ → ℕ) (alg : Option CsumAlg) (s : Renc) (hdr hdr_sz payload pay_sz : ℕ)
    (send_eof : Bool) (rooms : List ℕ)
    → s.state ≡ renc_idle
    → IsRawPacket alg hdr hdr_sz
    → raw_wire_len alg hdr_sz pay_sz < Filling.total rooms
    → ((renc_calls mem alg rooms (renc_prep s hdr hdr_sz payload pay_sz send_eof)).0
        ≡ framed alg (packet_at mem hdr hdr_sz payload pay_sz))
      × (renc_busy (renc_calls mem alg rooms (renc_prep s hdr hdr_sz payload pay_sz send_eof)).1
          ≡ false)
unfolding renc_calls
renc_calls-framed mem alg s hdr hdr_sz payload pay_sz send_eof rooms e h enough =
    let s₁ = renc_prep s hdr hdr_sz payload pay_sz send_eof in
    Filling.Filled-all (framed alg (packet_at mem hdr hdr_sz payload pay_sz))
      (Filling.calls-Filled renc_busy (renc_round mem alg) (raw_pending mem alg) (IsRawLoaded alg)
        (raw_round-Rounded mem alg) rooms s₁ (raw_prep-IsRawLoaded s payload pay_sz send_eof e h))
      (raw_prepared-pending mem alg s hdr hdr_sz payload pay_sz send_eof e h.hdr_size_from)
      (raw_idle-pending mem alg (renc_calls mem alg rooms s₁).1)
      (omega (arith, enough, length-raw mem alg hdr hdr_sz payload pay_sz))
