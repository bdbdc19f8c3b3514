-- ===== src/Framing/Announce.antt =====
-- The announcement of a frame's length that an exchange over SPI starts with, struct ludlc_spi_hdr and its
-- operations (src/lib/include/ludlc_spi_proto.h).
use Prim.Native.Nat.{bit_xor}
use ludlc.Prelude.{
  ℕ, ◌+◌, ◌*◌, ◌^◌, ◌≤◌, ◌<◌, ◌≡◌, not, Option, none, some, List, [], ◌∷◌, arith, leb, ltb, ◌==◌,
  ==-refl, if◌then◌else◌, u32,
}
use ludlc.Framing.Csum.{wire_octets}

-- LUDLC_SPI_MAGIC.
abbrev pub spi_magic : ℕ
spi_magic = 0x5a

-- struct ludlc_spi_hdr.
pub record SpiHdr : Type 0 where
  pub magic : ℕ
  pub check : ℕ
  pub len : List ℕ

-- The check octet over the octets of a length.
unfoldable pub check_octets : ℕ → List ℕ → ℕ
check_octets check [] = check
check_octets check (c ∷ cs) = check_octets (bit_xor check c) cs

-- The length whose octets these are, the least significant first.
unfoldable pub length_value : List ℕ → ℕ
length_value [] = 0
length_value (c ∷ cs) = c + 256 * length_value cs

-- ludlc_spi_hdr_put.
unfoldable pub spi_hdr_put : ℕ → SpiHdr
spi_hdr_put len = record {
  magic = spi_magic;
  check = check_octets (bit_xor spi_magic 0xff) (wire_octets 4 len);
  len = wire_octets 4 len;
}

-- ludlc_spi_hdr_get, with none for -1. A frame size has 16 bits, so that the cast to ssize_t keeps the
-- length.
unfoldable pub spi_hdr_get : SpiHdr → ℕ → Option ℕ
spi_hdr_get hdr max_frame =
    if not (hdr.magic == spi_magic)
    then none
    else if not (hdr.check == check_octets (bit_xor spi_magic 0xff) hdr.len)
    then none
    else if ltb max_frame (u32 (length_value hdr.len))
    then none
    else some (u32 (length_value hdr.len))

length_value-wire_octets : (len : ℕ) → len < 2 ^ 32 → length_value (wire_octets 4 len) ≡ len
unfolding length_value wire_octets
length_value-wire_octets len h = omega arith

small : (len : ℕ) → len < 2 ^ 32 → u32 len ≡ len
small len h = omega arith

-- The far end reads the length below 2^32 that was announced, if its link carries frames that long; else
-- it reads no announcement.
pub spi_hdr_get-spi_hdr_put :
    (len max_frame : ℕ)
    → len < 2 ^ 32
    → spi_hdr_get (spi_hdr_put len) max_frame ≡ (if leb len max_frame then some len else none)
unfolding spi_hdr_get spi_hdr_put
spi_hdr_get-spi_hdr_put len max_frame h =
    rw
      (
        ==-refl (check_octets (bit_xor spi_magic 0xff) (wire_octets 4 len)),
        length_value-wire_octets len h,
        small len h,
      )
      (ground arith)

-- Whatever arrives, a length is read only from an announcement that starts with the magic octet (a line
-- that is stuck at zero or at one has none) and whose check octet agrees with the length's, and only if
-- it is one that the link carries.
pub spi_hdr_get_sound :
    (hdr : SpiHdr) (max_frame len : ℕ)
    → spi_hdr_get hdr max_frame ≡ some len
    → (len ≤ max_frame)
      × (hdr.magic ≡ spi_magic)
      × (hdr.check ≡ check_octets (bit_xor spi_magic 0xff) hdr.len)
unfolding spi_hdr_get
spi_hdr_get_sound hdr max_frame len h = (ground (arith, h), ground (arith, h), ground (arith, h))
