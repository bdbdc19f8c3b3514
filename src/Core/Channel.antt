-- ===== src/Core/Channel.antt =====
-- The channel field and its tag (src/lib/ludlc.c: is_ctrl_chan, ludlc_chan_make, ludlc_chan_id,
-- ludlc_chan_tag; src/lib/include/ludlc_private.h: ludlc_chan_tag_bits_ok). A mask of low bits is
-- written as a remainder, a shift as a product or a quotient, with CONFIG_LUDLC_CHANNEL_BITS 8.
pub mod Tag
use ludlc.Prelude.{ℕ, ◌+◌, ◌-◌, ◌*◌, ◌/◌, ◌%◌, ◌^◌, Bool, ◌&&◌, ltb, ◌==◌, if◌then◌else◌, u8}
use ludlc.Core.State.{Connection, control_channel}

-- `chan & LUDLC_CHAN_ID_MASK(bits)`, `bits` being less than 8.
abbrev pub chan_id_mask : ℕ → ℕ → ℕ
chan_id_mask bits chan = chan % 2 ^ (8 - bits)

-- ludlc_chan_tag_bits_ok.
unfoldable pub chan_tag_bits_ok : ℕ → Bool
chan_tag_bits_ok bits = ltb bits 8 && (chan_id_mask bits control_channel == control_channel)

-- is_ctrl_chan.
unfoldable pub is_ctrl_chan : Connection → ℕ → Bool
is_ctrl_chan c chan = chan_id_mask c.cfg.chan_tag_bits chan == control_channel

-- ludlc_chan_make. The shifted tag is cut to the octet before the two disjoint parts are joined.
unfoldable pub chan_make : Connection → ℕ → ℕ → ℕ
chan_make c id tag =
    if c.cfg.chan_tag_bits == 0
    then id
    else chan_id_mask c.cfg.chan_tag_bits id + u8 (tag * 2 ^ (8 - c.cfg.chan_tag_bits))

-- ludlc_chan_id.
unfoldable pub chan_id : Connection → ℕ → ℕ
chan_id c chan = u8 (chan_id_mask c.cfg.chan_tag_bits chan)

-- ludlc_chan_tag.
unfoldable pub chan_tag : Connection → ℕ → ℕ
chan_tag c chan = if c.cfg.chan_tag_bits == 0 then 0 else u8 (chan / 2 ^ (8 - c.cfg.chan_tag_bits))
