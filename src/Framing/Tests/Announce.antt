-- ===== src/Framing/Tests/Announce.antt =====
-- Announcements to try the theorems on (src/lib/include/ludlc_spi_proto.h).
use Prim.Native.Nat.{bit_xor}
use ludlc.Prelude.{◌≤◌, ◌≡◌, refl, none, some, [], ◌∷◌, arith, leb, if◌then◌else◌}
use ludlc.Framing.Announce.{
  SpiHdr, spi_magic, check_octets, length_value, spi_hdr_put, spi_hdr_get, spi_hdr_get-spi_hdr_put,
  spi_hdr_get_sound,
}

spi_hdr_get-spi_hdr_put_example :
    spi_hdr_get (spi_hdr_put 300) 512 ≡ (if leb 300 512 then some 300 else none)
spi_hdr_get-spi_hdr_put_example = spi_hdr_get-spi_hdr_put 300 512 (omega arith)

-- 300 is 0x12c.
abbrev spi_hdr_300 : SpiHdr
spi_hdr_300 = record { magic = 0x5a; check = 0x88; len = 0x2c ∷ 1 ∷ 0 ∷ 0 ∷ [] }

spi_hdr_get_sound_example :
    (300 ≤ 512)
    × (spi_hdr_300.magic ≡ spi_magic)
    × (spi_hdr_300.check ≡ check_octets (bit_xor spi_magic 0xff) spi_hdr_300.len)
unfolding spi_hdr_get check_octets length_value
spi_hdr_get_sound_example = spi_hdr_get_sound spi_hdr_300 512 300 refl
