-- ===== src/Core/Channel/Tag.antt =====
-- A channel field and its tag, put together and taken apart (src/lib/ludlc.c: ludlc_chan_make,
-- ludlc_chan_id, ludlc_chan_tag).
use ludlc.Prelude.{ℕ, ◌-◌, ◌+◌, ◌*◌, ◌/◌, ◌^◌, ◌<◌, ◌≡◌, ◌⊎◌, true, ◌==◌, if◌then◌else◌, arith, u8}
use ludlc.Core.State.{Connection}
use ludlc.Core.Channel.{chan_make, chan_id, chan_tag, chan_id_mask, chan_tag_bits_ok}

-- The tag widths that a link may have.
abbrev IsTagWidth : ℕ → Type 0
IsTagWidth b =
    (b ≡ 0) ⊎ ((b ≡ 1) ⊎ ((b ≡ 2) ⊎ ((b ≡ 3) ⊎ ((b ≡ 4) ⊎ ((b ≡ 5) ⊎ ((b ≡ 6) ⊎ (b ≡ 7)))))))

chan_tag_bits_ok-IsTagWidth : (b : ℕ) → chan_tag_bits_ok b ≡ true → IsTagWidth b
unfolding chan_tag_bits_ok
chan_tag_bits_ok-IsTagWidth b h = ground (arith, h)

id-make :
    (b id tag : ℕ)
    → IsTagWidth b
    → id < 2 ^ (8 - b)
    → tag < 2 ^ b
    → u8 (chan_id_mask b (if b == 0 then id else chan_id_mask b id + u8 (tag * 2 ^ (8 - b)))) ≡ id
id-make b id tag w i t = ground (arith, w, i, t)

tag-make :
    (b id tag : ℕ)
    → IsTagWidth b
    → id < 2 ^ (8 - b)
    → tag < 2 ^ b
    → (if b == 0
        then 0
        else u8 ((if b == 0 then id else chan_id_mask b id + u8 (tag * 2 ^ (8 - b))) / 2 ^ (8 - b)))
      ≡ tag
tag-make b id tag w i t = ground (arith, w, i, t)

-- With a tag width that the build allows, the field made of a channel and a tag that fit it gives the
-- channel and the tag back.
pub chan_make-parts :
    (c : Connection) (id tag : ℕ)
    → chan_tag_bits_ok c.cfg.chan_tag_bits ≡ true
    → id < 2 ^ (8 - c.cfg.chan_tag_bits)
    → tag < 2 ^ c.cfg.chan_tag_bits
    → (chan_id c (chan_make c id tag) ≡ id) × (chan_tag c (chan_make c id tag) ≡ tag)
unfolding chan_make chan_id chan_tag
chan_make-parts c id tag ok i t =
    let w = chan_tag_bits_ok-IsTagWidth c.cfg.chan_tag_bits ok in
    (id-make c.cfg.chan_tag_bits id tag w i t, tag-make c.cfg.chan_tag_bits id tag w i t)
