-- ===== src/Framing/Hdlc.antt =====
-- The escaping framing, struct hdlc_state and its operations (src/lib/ludlc_hdlc.c, with the reserved
-- octets of src/lib/include/ludlc_hdlc.h). The encoder reads the packet in memory, of which `mem p` is
-- the octet at `p`; the decoder fills a buffer, of which `payload i` is the octet at `i`.
pub mod Escape
pub mod Encode
pub mod Round
pub mod Fill
pub mod Sent
pub mod Decode
pub mod Received
pub mod Stream
pub mod Bounds
pub mod RoundTrip
pub mod Reject
pub mod Train
use Prim.Native.Nat.{bit_xor}
use ludlc.Prelude.{
  ℕ, zero, suc, ◌+◌, ◌-◌, ◌/◌, ◌%◌, ◌^◌, Bool, true, false, not, ◌&&◌, ◌||◌, Option, none, some,
  List, [], ◌∷◌, ltb, leb, ◌==◌, if◌then◌else◌, u8, u32, update,
}
use ludlc.Core.State.{Stats}
use ludlc.Framing.Counters.{count_rx_packet, count_bad_csum, count_jabber, count_dropped}
use ludlc.Framing.Filling.{fill, fill_calls}
use ludlc.Framing.Csum.{
  CsumAlg, csum_on, csum_octets, csum_start, csum_add, csum_tx_final, csum_rx_ok, frame_min_sz,
}

-- LUDLC_SOF, LUDLC_ESC and LUDLC_MASK.
abbrev pub sof : ℕ
sof = 0x55

abbrev pub esc : ℕ
esc = 0xaa

abbrev pub mask : ℕ
mask = 0x20

-- enum hdlc_enc_fsm_state.
pub data HencFsm : Type 0 where
  enc_idle enc_data enc_csum enc_check_send_eof enc_esc : HencFsm

-- struct ludlc_henc_state, with the bit ENC_SEND_EOF_F of the framing's flags.
pub record Henc : Type 0 where
  pub hdr : ℕ
  pub payload : ℕ
  pub ptr : ℕ
  pub hdr_size : ℕ
  pub payload_size : ℕ
  pub sz : ℕ
  pub csum : ℕ
  pub state : HencFsm
  pub esc_state : HencFsm
  pub esc_data : ℕ
  pub send_eof : Bool

-- ludlc_hdlc_enc_init.
abbrev pub enc_init : Henc → Henc
enc_init s = record s { state = enc_idle; hdr_size = 0; payload_size = 0; send_eof = false }

-- ludlc_hdlc_enc_prep.
unfoldable pub enc_prep : Henc → ℕ → ℕ → ℕ → ℕ → Bool → Henc
enc_prep s hdr hdr_sz payload pay_sz send_eof = record s {
  hdr = hdr;
  hdr_size = hdr_sz;
  payload = payload;
  payload_size = pay_sz;
  send_eof = send_eof;
}

-- ludlc_hdlc_enc_busy.
abbrev pub fsm_busy : HencFsm → ℕ → Bool
fsm_busy enc_idle hdr_size = not (hdr_size == 0)
fsm_busy enc_data hdr_size = true
fsm_busy enc_csum hdr_size = true
fsm_busy enc_check_send_eof hdr_size = true
fsm_busy enc_esc hdr_size = true

abbrev pub enc_busy : Henc → Bool
enc_busy s = fsm_busy s.state s.hdr_size

-- The end of a round of the loop: an octet goes out, escaped where it must be.
abbrev pub put_octet : ℕ → Henc → Option ℕ × Henc
put_octet c s =
    if c == sof || c == esc
    then (some esc, record s { esc_state = s.state; state = enc_esc; esc_data = bit_xor c mask })
    else (some c, s)

-- `--enc->sz`, on a field of 8 bits.
abbrev pub less : ℕ → ℕ
less sz = u8 (sz + 255)

-- case enc_idle.
abbrev pub enc_at_idle : Option CsumAlg → Henc → Option ℕ × Henc
enc_at_idle alg s = (
  some sof,
  if not (s.hdr_size == 0) && not (s.hdr == 0)
      then record s { state = enc_data; ptr = s.hdr; sz = s.hdr_size; csum = csum_start alg s.csum }
      else s,
)

-- The end of the header and the payload.
abbrev pub enc_close : Option CsumAlg → Henc → Henc
enc_close none s = record s { state = enc_check_send_eof }
enc_close (some alg) s = record s {
  state = enc_csum;
  csum = csum_tx_final (some alg) s.csum;
  sz = alg.octets;
}

-- case enc_data, up to the choice of the octet's form.
abbrev pub enc_advance : (ℕ → ℕ) → Option CsumAlg → Henc → Henc
enc_advance mem alg s =
    let s₁ = record s { ptr = s.ptr + 1; csum = csum_add alg s.csum (mem s.ptr); sz = less s.sz } in
    if not (less s.sz == 0)
    then s₁
    else if not (s.payload_size == 0)
    then record s₁ { sz = s.payload_size; ptr = s.payload; payload_size = 0 }
    else enc_close alg s₁

-- case enc_csum.
abbrev pub enc_shift : Henc → Henc
enc_shift s = record s {
  csum = s.csum / 256;
  sz = less s.sz;
  state = if less s.sz == 0 then enc_check_send_eof else s.state;
}

-- One round of the loop of ludlc_hdlc_enc_fill: the octet written, if any.
abbrev pub enc_at : HencFsm → (ℕ → ℕ) → Option CsumAlg → Henc → Option ℕ × Henc
enc_at enc_idle mem alg s = enc_at_idle alg s
enc_at enc_data mem alg s = put_octet (mem s.ptr) (enc_advance mem alg s)
enc_at enc_csum mem alg s = put_octet (s.csum % 256) (enc_shift s)
enc_at enc_check_send_eof mem alg s = (if s.send_eof then some sof else none, enc_init s)
enc_at enc_esc mem alg s = (some s.esc_data, record s { state = s.esc_state })

abbrev pub enc_round : (ℕ → ℕ) → Option CsumAlg → Henc → Option ℕ × Henc
enc_round mem alg s = enc_at s.state mem alg s

-- The octets that a round writes.
abbrev pub written : Option ℕ × Henc → List ℕ × Henc
written (none, s) = ([], s)
written (some c, s) = (c ∷ [], s)

-- ludlc_hdlc_enc_fill: what it writes into `room` octets.
unfoldable pub enc_fill : (ℕ → ℕ) → Option CsumAlg → ℕ → Henc → List ℕ × Henc
enc_fill mem alg room s = fill enc_busy (λ _ s. written (enc_round mem alg s)) room s

-- A port that calls it again and again, with the room it has each time.
unfoldable pub enc_calls : (ℕ → ℕ) → Option CsumAlg → List ℕ → Henc → List ℕ × Henc
enc_calls mem alg rooms s = fill_calls enc_busy (λ _ s. written (enc_round mem alg s)) rooms s

-- enum hdlc_dec_fsm_state.
pub data HdecFsm : Type 0 where
  dec_idle dec_wait_sof dec_esc dec_payload : HdecFsm

-- struct ludlc_hdec_state.
pub record Hdec : Type 0 where
  pub size : ℕ
  pub csum : ℕ
  pub state : HdecFsm
  pub payload : ℕ → ℕ
  pub payload_cap : ℕ

-- ludlc_hdlc_dec_init.
abbrev pub dec_init : Hdec → Hdec
dec_init d = record d { state = dec_idle; size = 0 }

-- ludlc_hdlc_dec_prep.
unfoldable pub dec_prep : Option CsumAlg → Hdec → (ℕ → ℕ) → ℕ → Hdec
dec_prep alg d buf cap = record d {
  payload = buf;
  payload_cap = cap;
  csum = csum_start alg d.csum;
  size = 0;
}

-- What one octet leaves: the decoder, the link's counters, and whether a packet is complete.
abbrev pub Decoded : Type 0
Decoded = Hdec × Stats × Bool

-- The end of a round of the loop: an octet of data is stored.
abbrev pub dec_store : Option CsumAlg → ℕ → Hdec → Stats → Decoded
dec_store alg c d st =
    if ltb d.size d.payload_cap
    then (
      record d {
        payload = update d.payload d.size c;
        size = (d.size + 1) % 2 ^ 16;
        csum = csum_add alg d.csum c;
      },
      st,
      false,
    )
    else (dec_init d, count_jabber st, false)

-- A new frame begins.
abbrev pub dec_restart : Option CsumAlg → Hdec → Hdec
dec_restart alg d = record d { state = dec_payload; size = 0; csum = csum_start alg d.csum }

-- case dec_wait_sof: the end of the frame before.
abbrev pub dec_at_sof : Option CsumAlg → Hdec → Stats → Decoded
dec_at_sof alg d st =
    if leb (frame_min_sz alg) d.size
    then if csum_on alg && not (csum_rx_ok alg d.csum)
      then (dec_restart alg d, count_bad_csum st, false)
      else (
        record d { state = dec_payload; size = (d.size - csum_octets alg) },
        count_rx_packet st,
        true,
      )
    else if not (d.size == 0)
    then (dec_restart alg d, count_dropped st, false)
    else (dec_restart alg d, st, false)

abbrev pub dec_at : HdecFsm → Option CsumAlg → ℕ → Hdec → Stats → Decoded
dec_at dec_idle alg c d st = (d, st, false)
dec_at dec_wait_sof alg c d st = dec_at_sof alg d st
dec_at dec_esc alg c d st = dec_store alg (bit_xor c mask) (record d { state = dec_payload }) st
dec_at dec_payload alg c d st =
    if c == esc then (record d { state = dec_esc }, st, false) else dec_store alg c d st

-- One round of the loop of ludlc_hdlc_dec_feed.
unfoldable pub dec_octet : Option CsumAlg → ℕ → Hdec → Stats → Decoded
dec_octet alg c d st =
    if c == sof
    then dec_at dec_wait_sof alg c (record d { state = dec_wait_sof }) st
    else dec_at d.state alg c d st

-- What ludlc_hdlc_dec_feed leaves: the decoder, the counters, how many octets it took, and `*done`.
pub record Fed : Type 0 where
  pub dec : Hdec
  pub stats : Stats
  pub taken : ℕ
  pub done : Bool

-- ludlc_hdlc_dec_feed.
unfoldable pub dec_feed : Option CsumAlg → Hdec → Stats → List ℕ → Fed
dec_feed alg d st [] = record { dec = d; stats = st; taken = 0; done = false }
dec_feed alg d st (c ∷ src) =
    let (d₁, st₁, done) = dec_octet alg c d st in
    let rest = dec_feed alg d₁ st₁ src in
    if done
    then record { dec = d₁; stats = st₁; taken = 1; done = true }
    else record rest { taken = (rest.taken + 1) }

-- ludlc_hdlc_dec_size, which is cut to 8 bits.
abbrev pub dec_size : Hdec → ℕ
dec_size d = u8 d.size
