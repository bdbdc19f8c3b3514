-- ===== src/Framing/Raw.antt =====
-- The frame unchanged, struct raw_state and its operations (src/lib/ludlc_raw.c). The encoder reads the
-- packet in memory, of which `mem p` is the octet at `p`; the decoder fills a buffer, of which
-- `payload i` is the octet at `i`.
pub mod Encode
pub mod Sent
pub mod Decode
pub mod RoundTrip
use ludlc.Prelude.{
  ℕ, zero, suc, ◌+◌, ◌-◌, ◌/◌, ◌%◌, ◌^◌, min, Bool, true, false, not, ◌&&◌, ◌||◌, Option, none,
  some, List, [], ◌∷◌, ltb, leb, ◌==◌, if◌then◌else◌, u8, u32, update, take, length,
}
use ludlc.Core.State.{Stats}
use ludlc.Framing.Octets.{octets}
use ludlc.Framing.Counters.{count_rx_packet, count_bad_csum, count_dropped}
use ludlc.Framing.Filling.{fill, fill_calls}
use ludlc.Framing.Csum.{
  CsumAlg, csum_on, csum_octets, csum_start, csum_add, csum_run, csum_tx_final, csum_rx_ok,
  frame_min_sz,
}

-- enum raw_enc_fsm_state.
pub data RencFsm : Type 0 where
  renc_idle renc_data renc_csum : RencFsm

-- struct ludlc_renc_state.
pub record Renc : Type 0 where
  pub hdr : ℕ
  pub payload : ℕ
  pub hdr_size : ℕ
  pub payload_size : ℕ
  pub ptr : ℕ
  pub sz : ℕ
  pub state : RencFsm
  pub csum : ℕ

-- ludlc_raw_enc_init.
abbrev pub renc_init : Renc → Renc
renc_init s = record s { state = renc_idle; hdr = 0; hdr_size = 0; payload_size = 0 }

-- ludlc_raw_enc_prep.
unfoldable pub renc_prep : Renc → ℕ → ℕ → ℕ → ℕ → Bool → Renc
renc_prep s hdr hdr_sz payload pay_sz send_eof = record s {
  hdr = hdr;
  hdr_size = hdr_sz;
  payload = payload;
  payload_size = pay_sz;
}

-- ludlc_raw_enc_busy.
abbrev pub rfsm_busy : RencFsm → ℕ → Bool
rfsm_busy renc_idle hdr_size = not (hdr_size == 0)
rfsm_busy renc_data hdr_size = true
rfsm_busy renc_csum hdr_size = true

abbrev pub renc_busy : Renc → Bool
renc_busy s = rfsm_busy s.state s.hdr_size

-- The end of the header and the payload.
abbrev pub renc_close : Option CsumAlg → Renc → Renc
renc_close none s = renc_init s
renc_close (some alg) s = record s {
  state = renc_csum;
  csum = csum_tx_final (some alg) s.csum;
  sz = alg.octets;
}

-- case renc_data: as much of the run as there is room for.
abbrev pub renc_run : (ℕ → ℕ) → Option CsumAlg → ℕ → Renc → List ℕ × Renc
renc_run mem alg room s =
    let len = min room s.sz in
    let out = octets mem s.ptr len in
    let s₁ = record s { ptr = s.ptr + len; csum = csum_run alg s.csum out; sz = s.sz - len } in
    (
      out,
      if not (s₁.sz == 0)
          then s₁
          else if not (s.payload_size == 0)
          then record s₁ { ptr = s.payload; sz = s.payload_size; payload_size = 0 }
          else renc_close alg s₁,
    )

-- case renc_idle, which goes on into renc_data.
abbrev pub renc_start : (ℕ → ℕ) → Option CsumAlg → ℕ → Renc → List ℕ × Renc
renc_start mem alg room s =
    if s.hdr_size == 0 || s.hdr == 0
    then ([], renc_init s)
    else renc_run mem alg room
        (record s { csum = csum_start alg s.csum; ptr = s.hdr; sz = s.hdr_size; state = renc_data })

-- case renc_csum. A checksum that is sent has an octet or more, so that `--sz` stays above 0.
abbrev pub renc_shift : Renc → List ℕ × Renc
renc_shift s =
    let s₁ = record s { csum = s.csum / 256; sz = s.sz - 1 } in
    (s.csum % 256 ∷ [], if s₁.sz == 0 then renc_init s₁ else s₁)

-- One round of the loop of ludlc_raw_enc_fill, in `room` octets.
abbrev pub renc_at : RencFsm → (ℕ → ℕ) → Option CsumAlg → ℕ → Renc → List ℕ × Renc
renc_at renc_idle mem alg room s = renc_start mem alg room s
renc_at renc_data mem alg room s = renc_run mem alg room s
renc_at renc_csum mem alg room s = renc_shift s

abbrev pub renc_round : (ℕ → ℕ) → Option CsumAlg → ℕ → Renc → List ℕ × Renc
renc_round mem alg room s = renc_at s.state mem alg room s

-- ludlc_raw_enc_fill: what it writes into `room` octets.
unfoldable pub renc_fill : (ℕ → ℕ) → Option CsumAlg → ℕ → Renc → List ℕ × Renc
renc_fill mem alg room s = fill renc_busy (renc_round mem alg) room s

-- A port that calls it again and again, with the room it has each time.
unfoldable pub renc_calls : (ℕ → ℕ) → Option CsumAlg → List ℕ → Renc → List ℕ × Renc
renc_calls mem alg rooms s = fill_calls renc_busy (renc_round mem alg) rooms s

-- enum raw_dec_fsm_state.
pub data RdecFsm : Type 0 where
  rdec_idle rdec_data : RdecFsm

-- struct ludlc_rdec_state.
pub record Rdec : Type 0 where
  pub payload : ℕ → ℕ
  pub size : ℕ
  pub csum : ℕ
  pub state : RdecFsm
  pub sz : ℕ

-- ludlc_raw_dec_init.
abbrev pub rdec_init : Rdec → Rdec
rdec_init d = record d { state = rdec_idle; size = 0 }

-- ludlc_raw_dec_prep: `cap` is the length that the transport announced.
unfoldable pub rdec_prep : Option CsumAlg → Rdec → (ℕ → ℕ) → ℕ → Rdec
rdec_prep alg d buf cap = record d {
  payload = buf;
  size = 0;
  sz = cap;
  state = if cap == 0 then rdec_idle else rdec_data;
  csum = csum_start alg d.csum;
}

-- The octets that ludlc_raw_dec_feed copies, with their checksum.
unfoldable pub rdec_copy : Option CsumAlg → List ℕ → Rdec → Rdec
rdec_copy alg [] d = d
rdec_copy alg (c ∷ cs) d = rdec_copy alg cs (record d {
  csum = csum_add alg d.csum c;
  payload = update d.payload d.size c;
  size = (d.size + 1) % 2 ^ 16;
})

-- What ludlc_raw_dec_feed leaves: the decoder, the counters, how many octets it took, and `*done`.
pub record Rfed : Type 0 where
  pub dec : Rdec
  pub stats : Stats
  pub taken : ℕ
  pub done : Bool

-- The announced length is reached.
abbrev pub rdec_close : Option CsumAlg → ℕ → Rdec → Stats → Rfed
rdec_close alg taken d st =
    let d₁ = record d { state = rdec_idle } in
    if ltb d.size (frame_min_sz alg)
    then record { dec = d₁; stats = count_dropped st; taken = taken; done = false }
    else if csum_on alg && not (csum_rx_ok alg d.csum)
    then record { dec = d₁; stats = count_bad_csum st; taken = taken; done = false }
    else record {
      dec = record d₁ { size = (d.size - csum_octets alg) };
      stats = count_rx_packet st;
      taken = taken;
      done = true;
    }

abbrev pub rdec_feed_at : RdecFsm → Option CsumAlg → Rdec → Stats → List ℕ → Rfed
rdec_feed_at rdec_idle alg d st src = record {
  dec = d;
  stats = st;
  taken = length src;
  done = false;
}
rdec_feed_at rdec_data alg d st src =
    let got = min (length src) d.sz in
    let d₁ = rdec_copy alg (take got src) (record d { sz = (d.sz - got) }) in
    if not (d.sz - got == 0)
    then record { dec = d₁; stats = st; taken = got; done = false }
    else rdec_close alg got d₁ st

-- ludlc_raw_dec_feed.
unfoldable pub rdec_feed : Option CsumAlg → Rdec → Stats → List ℕ → Rfed
rdec_feed alg d st src = rdec_feed_at d.state alg d st src

-- ludlc_raw_dec_size, which is cut to 8 bits.
abbrev pub rdec_size : Rdec → ℕ
rdec_size d = u8 d.size

-- framing_raw_wire_len.
unfoldable pub raw_wire_len : Option CsumAlg → ℕ → ℕ → ℕ
raw_wire_len alg hdr_sz pay_sz = csum_octets alg + hdr_sz + pay_sz
