-- ===== src/Framing/Cobs/Encode.antt =====
-- The zero-stuffing encoder, struct ludlc_cenc_state of struct cobs_state and its operations
-- (src/lib/ludlc_cobs.c). It reads the packet in memory, of which `mem p` is the octet at `p`.
use ludlc.Prelude.{
  ℕ, zero, suc, ◌+◌, ◌-◌, ◌/◌, ◌*◌, ◌%◌, ◌^◌, min, Bool, true, false, not, ◌&&◌, ◌||◌, Option, none,
  some, List, [], ◌∷◌, ◌++◌, leb, ◌==◌, if◌then◌else◌, u8, length,
}
use ludlc.Framing.Octets.{octets}
use ludlc.Framing.Filling.{fill, fill_calls}
use ludlc.Framing.Csum.{CsumAlg, csum_on, csum_octets, csum_start, csum_add, csum_tx_final}
use ludlc.Framing.Cobs.{delimiter, block_max}

-- enum cobs_enc_fsm_state.
pub data CencFsm : Type 0 where
  cenc_idle cenc_code cenc_data : CencFsm

-- struct ludlc_cenc_state, with the bits CENC_FULL_F, CENC_ARMED_F and CENC_DELIM_F of the framing's
-- flags.
pub record Cenc : Type 0 where
  pub hdr : ℕ
  pub payload : ℕ
  pub ptr : ℕ
  pub hdr_size : ℕ
  pub payload_size : ℕ
  pub sz : ℕ
  pub csum : ℕ
  pub csum_left : ℕ
  pub run : ℕ
  pub state : CencFsm
  pub full : Bool
  pub armed : Bool
  pub delim : Bool

-- ludlc_cobs_enc_init.
abbrev pub cenc_init : Cenc → Cenc
cenc_init s = record s {
  state = cenc_idle;
  hdr_size = 0;
  payload_size = 0;
  csum_left = 0;
  full = false;
  armed = false;
  delim = false;
}

-- ludlc_cobs_enc_prep.
unfoldable pub cenc_prep : Cenc → ℕ → ℕ → ℕ → ℕ → Bool → Cenc
cenc_prep s hdr hdr_sz payload pay_sz send_eof = record s {
  hdr = hdr;
  hdr_size = hdr_sz;
  payload = payload;
  payload_size = pay_sz;
}

-- cobs_busy.
abbrev pub cfsm_busy : CencFsm → ℕ → Bool
cfsm_busy cenc_idle hdr_size = not (hdr_size == 0)
cfsm_busy cenc_code hdr_size = true
cfsm_busy cenc_data hdr_size = true

abbrev pub cenc_busy : Cenc → Bool
cenc_busy s = cfsm_busy s.state s.hdr_size

-- The variables of the scan in `case cenc_code`, and what it changes in the encoder: the checksum.
pub record Scan : Type 0 where
  pub p : ℕ
  pub sz : ℕ
  pub pay : ℕ
  pub pay_sz : ℕ
  pub cleft : ℕ
  pub run : ℕ
  pub delim : Bool
  pub csum : ℕ
  pub csum_left : ℕ
  pub armed : Bool

-- The scan starts where the encoder stands.
abbrev pub scan_from : Cenc → Scan
scan_from s = record {
  p = s.ptr;
  sz = s.sz;
  pay = s.payload;
  pay_sz = s.payload_size;
  cleft = s.csum_left;
  run = 0;
  delim = false;
  csum = s.csum;
  csum_left = s.csum_left;
  armed = s.armed;
}

-- The body's end: the checksum is final, the first time.
abbrev pub scan_arm : Option CsumAlg → Scan → Scan
scan_arm alg t = if t.armed then t else record t {
  csum = csum_tx_final alg t.csum;
  cleft = csum_octets alg;
  csum_left = csum_octets alg;
  armed = true;
}

-- The next octet of the checksum, if there is one.
abbrev pub scan_csum : Scan → Option ℕ × Scan
scan_csum t =
    if t.cleft == 0
    then (none, t)
    else (some (t.csum / 2 ^ (8 * (t.csum_left - t.cleft)) % 256), record t { cleft = t.cleft - 1 })

-- The next octet, which the checksum takes in if it is of the body.
unfoldable pub scan_octet : (ℕ → ℕ) → Option CsumAlg → Scan → Option ℕ × Scan
scan_octet mem alg t =
    if not (t.sz == 0)
    then (
      some (mem t.p),
      record t { p = t.p + 1; sz = t.sz - 1; csum = csum_add alg t.csum (mem t.p) },
    )
    else if not (t.pay_sz == 0)
    then (
      some (mem t.pay),
      record t { pay = t.pay + 1; pay_sz = t.pay_sz - 1; csum = csum_add alg t.csum (mem t.pay) },
    )
    else scan_csum (scan_arm alg t)

-- Whether the scan goes on to `rest`.
abbrev pub scan_on : Option ℕ × Scan → Scan → Scan
scan_on (none, t) rest = t
scan_on (some c, t) rest = if c == delimiter then record t { delim = true } else rest

-- The scan for the end of a group, of at most so many octets.
unfoldable pub scan : (ℕ → ℕ) → Option CsumAlg → ℕ → Scan → Scan
scan mem alg zero t = t
scan mem alg (suc n) t =
    let o = scan_octet mem alg t in
    let rest = scan mem alg n (record o.1 { run = o.1.run + 1 }) in scan_on o rest

-- case cenc_code.
abbrev pub cenc_open : (ℕ → ℕ) → Option CsumAlg → Cenc → List ℕ × Cenc
cenc_open mem alg s =
    let t = scan mem alg block_max (scan_from s) in
    (
      u8 (t.run + 1) ∷ [],
      record s {
        csum = t.csum;
        csum_left = t.csum_left;
        armed = t.armed;
        delim = t.delim;
        full = t.run == block_max;
        run = t.run;
        state = cenc_data;
      },
    )

-- case cenc_idle, which goes on into cenc_code.
abbrev pub cenc_start : (ℕ → ℕ) → Option CsumAlg → Cenc → List ℕ × Cenc
cenc_start mem alg s =
    if s.hdr_size == 0 || s.hdr == 0
    then ([], cenc_init s)
    else cenc_open mem alg (record s {
      ptr = s.hdr;
      sz = s.hdr_size;
      csum_left = 0;
      csum = csum_start alg s.csum;
      state = cenc_code;
    })

-- From the header on to the payload.
abbrev pub cenc_switch : Cenc → Cenc
cenc_switch s =
    if s.sz == 0 && not (s.payload_size == 0)
    then record s { ptr = s.payload; sz = s.payload_size; payload_size = 0 }
    else s

abbrev pub cenc_rearm : Option CsumAlg → Cenc → Cenc
cenc_rearm alg s =
    if s.csum_left == 0 && s.armed && csum_on alg
    then record s { csum_left = csum_octets alg }
    else s

-- An octet of the checksum, if there is one.
abbrev pub cenc_shift : Cenc → List ℕ × Cenc
cenc_shift s = if s.csum_left == 0 then ([], s) else (
  s.csum % 256 ∷ [],
  record s { csum = s.csum / 256; csum_left = s.csum_left - 1; run = s.run - 1 },
)

-- As much of the header or the payload as there is room for.
abbrev pub cenc_copy : (ℕ → ℕ) → ℕ → Cenc → List ℕ × Cenc
cenc_copy mem room s =
    let len = min (min s.run s.sz) room in
    (octets mem s.ptr len, record s { ptr = s.ptr + len; sz = s.sz - len; run = s.run - len })

-- One round of the loop of `case cenc_data`. Where the source leaves the loop, the model's rounds write
-- nothing.
abbrev pub cenc_send_round : (ℕ → ℕ) → Option CsumAlg → ℕ → Cenc → List ℕ × Cenc
cenc_send_round mem alg room s =
    let s₁ = cenc_switch s in
    if s₁.sz == 0 then cenc_shift (cenc_rearm alg s₁) else cenc_copy mem room s₁

abbrev pub cenc_sending : Cenc → Bool
cenc_sending s = not (s.run == 0)

abbrev pub cenc_send : (ℕ → ℕ) → Option CsumAlg → ℕ → Cenc → List ℕ × Cenc
cenc_send mem alg room s = fill cenc_sending (cenc_send_round mem alg) room s

-- The zero that a group stopped on is not sent.
abbrev pub cenc_skip : Cenc → Cenc
cenc_skip s =
    let s₁ = cenc_switch s in
    if not (s₁.sz == 0)
    then record s₁ { ptr = s₁.ptr + 1; sz = s₁.sz - 1 }
    else if not (s₁.csum_left == 0)
    then record s₁ { csum = s₁.csum / 256; csum_left = s₁.csum_left - 1 }
    else s₁

-- Whether another group follows a full one.
abbrev pub cenc_more : Option CsumAlg → Cenc → Bool
cenc_more alg s =
    not (s.sz == 0)
    || not (s.payload_size == 0)
    || not (s.csum_left == 0)
    || (not s.armed && csum_on alg && not (csum_octets alg == 0))

-- A group's end.
abbrev pub cenc_close : Option CsumAlg → Cenc → List ℕ × Cenc
cenc_close alg s =
    if s.delim
    then ([], record (cenc_skip s) { state = cenc_code })
    else if s.full && cenc_more alg s
    then ([], record s { state = cenc_code })
    else (delimiter ∷ [], cenc_init s)

-- case cenc_data.
abbrev pub cenc_group : (ℕ → ℕ) → Option CsumAlg → ℕ → Cenc → List ℕ × Cenc
cenc_group mem alg room s =
    let out = cenc_send mem alg room s in
    let end = cenc_close alg out.1 in
    if not (out.1.run == 0) || leb room (length out.0) then out else (out.0 ++ end.0, end.1)

-- One round of the loop of ludlc_cobs_enc_fill, in `room` octets.
abbrev pub cenc_at : CencFsm → (ℕ → ℕ) → Option CsumAlg → ℕ → Cenc → List ℕ × Cenc
cenc_at cenc_idle mem alg room s = cenc_start mem alg s
cenc_at cenc_code mem alg room s = cenc_open mem alg s
cenc_at cenc_data mem alg room s = cenc_group mem alg room s

abbrev pub cenc_round : (ℕ → ℕ) → Option CsumAlg → ℕ → Cenc → List ℕ × Cenc
cenc_round mem alg room s = cenc_at s.state mem alg room s

-- ludlc_cobs_enc_fill: what it writes into `room` octets.
unfoldable pub cenc_fill : (ℕ → ℕ) → Option CsumAlg → ℕ → Cenc → List ℕ × Cenc
cenc_fill mem alg room s = fill cenc_busy (cenc_round mem alg) room s

-- A port that calls it again and again, with the room it has each time.
unfoldable pub cenc_calls : (ℕ → ℕ) → Option CsumAlg → List ℕ → Cenc → List ℕ × Cenc
cenc_calls mem alg rooms s = fill_calls cenc_busy (cenc_round mem alg) rooms s
