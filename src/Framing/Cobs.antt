-- ===== src/Framing/Cobs.antt =====
-- The zero-stuffing decoder, struct ludlc_cdec_state of struct cobs_state and its operations, and the
-- length that the encoder announces (src/lib/ludlc_cobs.c, src/lib/include/ludlc_cobs.h). The decoder
-- fills a buffer, of which `payload i` is the octet at `i`.
pub mod Groups
pub mod Decode
pub mod Codes
pub mod Between
pub mod Received
pub mod Resync
pub mod Bounds
pub mod Encode
pub mod Ahead
pub mod Look
pub mod Scan
pub mod Unfold
pub mod Pending
pub mod Open
pub mod Parts
pub mod Send
pub mod Skip
pub mod Close
pub mod Sent
use ludlc.Prelude.{
  ℕ, zero, suc, ◌+◌, ◌-◌, ◌/◌, ◌%◌, ◌^◌, Bool, true, false, not, ◌&&◌, ◌||◌, Option, none, some,
  List, [], ◌∷◌, ltb, leb, ◌==◌, if◌then◌else◌, u8, update,
}
use ludlc.Core.State.{Stats}
use ludlc.Framing.Counters.{count_rx_packet, count_bad_csum, count_jabber, count_dropped}
use ludlc.Framing.Csum.{
  CsumAlg, csum_on, csum_octets, csum_start, csum_add, csum_rx_ok, frame_min_sz,
}

-- LUDLC_COBS_DELIMITER and LUDLC_COBS_BLOCK_MAX.
abbrev pub delimiter : ℕ
delimiter = 0

abbrev pub block_max : ℕ
block_max = 254

-- struct ludlc_cdec_state, with the bits CDEC_STARTED_F and CDEC_OVER_F of the framing's flags.
pub record Cdec : Type 0 where
  pub payload : ℕ → ℕ
  pub payload_cap : ℕ
  pub size : ℕ
  pub csum : ℕ
  pub code : ℕ
  pub left : ℕ
  pub started : Bool
  pub over : Bool

-- cobs_dec_reset.
abbrev pub cdec_reset : Option CsumAlg → Cdec → Cdec
cdec_reset alg d = record d {
  size = 0;
  csum = csum_start alg d.csum;
  code = 0;
  left = 0;
  started = false;
  over = false;
}

-- cobs_store_byte.
abbrev pub store_byte : Option CsumAlg → ℕ → Cdec → Cdec
store_byte alg c d =
    if ltb d.size d.payload_cap
    then record d {
      payload = update d.payload d.size c;
      size = (d.size + 1) % 2 ^ 16;
      csum = csum_add alg d.csum c;
    }
    else record d { over = true }

-- ludlc_cobs_dec_init.
abbrev pub cdec_init : Cdec → Cdec
cdec_init d = record d { size = 0 }

-- ludlc_cobs_dec_prep.
unfoldable pub cdec_prep : Option CsumAlg → Cdec → (ℕ → ℕ) → ℕ → Cdec
cdec_prep alg d buf cap = cdec_reset alg (record d { payload = buf; payload_cap = cap })

-- A code octet.
abbrev pub cdec_code : Option CsumAlg → ℕ → Cdec → Cdec
cdec_code alg c d =
    let d₁ = if d.started && not (d.code == 0xff) then store_byte alg delimiter d else d in
    record d₁ { code = c; left = c - 1; started = true }

-- An octet that is no delimiter.
abbrev pub cdec_data : Option CsumAlg → ℕ → Cdec → Cdec
cdec_data alg c d =
    if d.over
    then d
    else if not (d.left == 0)
    then (let d₁ = store_byte alg c d in record d₁ { left = d₁.left - 1 })
    else cdec_code alg c d

-- The delimiter.
abbrev pub cdec_close : Option CsumAlg → Cdec → Stats → Cdec × Stats × Bool
cdec_close alg d st =
    if d.over
    then (cdec_reset alg d, count_jabber st, false)
    else if not (d.left == 0)
    then (cdec_reset alg d, count_dropped st, false)
    else if leb (frame_min_sz alg) d.size
    then if not (csum_on alg) || csum_rx_ok alg d.csum
      then (record d { size = d.size - csum_octets alg }, count_rx_packet st, true)
      else (cdec_reset alg d, count_bad_csum st, false)
    else if not (d.size == 0)
    then (cdec_reset alg d, count_dropped st, false)
    else (cdec_reset alg d, st, false)

-- One round of the loop of ludlc_cobs_dec_feed.
unfoldable pub cdec_octet : Option CsumAlg → ℕ → Cdec → Stats → Cdec × Stats × Bool
cdec_octet alg c d st =
    if not (c == delimiter) then (cdec_data alg c d, st, false) else cdec_close alg d st

-- What ludlc_cobs_dec_feed leaves: the decoder, the counters, how many octets it took, and `*done`.
pub record Cfed : Type 0 where
  pub dec : Cdec
  pub stats : Stats
  pub taken : ℕ
  pub done : Bool

-- ludlc_cobs_dec_feed, which does not take the delimiter of the packet that it completes.
unfoldable pub cdec_feed : Option CsumAlg → Cdec → Stats → List ℕ → Cfed
cdec_feed alg d st [] = record { dec = d; stats = st; taken = 0; done = false }
cdec_feed alg d st (c ∷ src) =
    let (d₁, st₁, done) = cdec_octet alg c d st in
    let rest = cdec_feed alg d₁ st₁ src in
    if done
    then record { dec = d₁; stats = st₁; taken = 0; done = true }
    else record rest { taken = (rest.taken + 1) }

-- ludlc_cobs_dec_size, which is cut to 8 bits.
abbrev pub cdec_size : Cdec → ℕ
cdec_size d = u8 d.size

-- framing_cobs_wire_len.
unfoldable pub cobs_wire_len : Option CsumAlg → ℕ → ℕ → ℕ
cobs_wire_len alg hdr_sz pay_sz =
    let group = block_max - 1 in
    let n = hdr_sz + pay_sz + csum_octets alg in
    if n == 0 then 1 else n + (n + group - 1) / group + 1
