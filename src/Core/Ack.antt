-- ===== src/Core/Ack.antt =====
-- The acknowledgment side of reception (src/lib/ludlc.c: rx_nak_answered, rx_nak_untracked, rx_gap,
-- rx_handle_nak, rx_handle_ack).
pub mod Frame
use ludlc.Prelude.{
  ℕ, zero, suc, ◌+◌, ◌%◌, Bool, true, false, not, ◌&&◌, ◌||◌, Option, none, some, ltb, leb, ◌==◌,
  if◌then◌else◌, update, u8,
}
use ludlc.Core.State.{
  Connection, PacketQueueItem, success, etimedout, id_mask, next_id, id_sub, slot,
}
use ludlc.Core.Disconnect.{set_result}

-- rx_nak_answered.
abbrev pub rx_nak_answered : Connection → Connection
rx_nak_answered c = record c { flags = record (c.flags) { nak_out = false; nak_tracked = false } }

-- rx_nak_untracked.
abbrev pub rx_nak_untracked : Connection → Bool
rx_nak_untracked c = c.flags.nak_out && not c.flags.nak_tracked

-- rx_gap, and whether it asks for a frame.
unfoldable pub rx_gap : Connection → Bool → Connection × Bool
rx_gap c new_pass =
    let c₁ = if new_pass then rx_nak_answered c else c in
    if c₁.flags.nak_out
    then (c₁, false)
    else (record c₁ { flags = record (c₁.flags) { no_nak = false } }, true)

-- The loop that moves the `n` packets behind `id` up one place, in a window of `w` slots.
unfoldable pub move_up : ℕ → ℕ → ℕ → (ℕ → PacketQueueItem) → ℕ → PacketQueueItem
move_up w id zero q = q
move_up w id (suc n) q = move_up w (next_id id) n (update q (id % w) (q (next_id id % w)))

-- The packet that a NAK names has no attempt left: it is given up.
unfoldable pub give_up : Connection → PacketQueueItem → Connection × Option PacketQueueItem
give_up c it =
    let id = next_id c.last_ack in
    let expired = record it { result = etimedout } in
    let q = update c.packets_q (slot c id) expired in
    let queued = id_mask (c.last_queued + 255) in
    (
      record c {
        packets_q = move_up c.cfg.window id (id_sub c.last_queued id) q;
        last_queued = queued;
        flags = record (c.flags) { ttl_hold = queued == c.last_ack || c.flags.ttl_hold };
      },
      some expired,
    )

-- A NAK charges the packet that it names for the copy last sent.
unfoldable pub charge : Connection → Connection × Option PacketQueueItem
charge c =
    let i = slot c (next_id c.last_ack) in
    let it = record (c.packets_q i) { ttl = u8 ((c.packets_q i).ttl + 255) } in
    let c₁ = record c {
      packets_q = update c.packets_q i it;
      flags = record (c.flags) { ttl_charged = true };
    } in
    if it.ttl == 0 then give_up c₁ it else (c₁, none)

-- rx_handle_nak: always asks for a frame; the packet given up, if any.
unfoldable pub rx_handle_nak : Connection → Connection × Option PacketQueueItem
rx_handle_nak c =
    let (c₁, expired) =
      if not (c.last_sent == c.last_ack) && not c.flags.ttl_charged then charge c else (c, none) in
    (record c₁ { last_sent = c₁.last_ack }, expired)

-- One round of the loop over the packets acknowledged: the first is resolved, and a NAK whose tracked
-- packet it is counts as answered.
unfoldable pub ack_one : Connection → Connection
ack_one c =
    let id = next_id c.last_ack in
    let answered = record (c.flags) { nak_out = false; nak_tracked = false } in
    record c {
      last_ack = id;
      packets_q = set_result c.packets_q (slot c id) success;
      flags = if id == c.nak_track && c.flags.nak_tracked then answered else c.flags;
    }

-- The loop over `n` packets acknowledged.
unfoldable pub ack_many : ℕ → Connection → Connection
ack_many zero c = c
ack_many (suc n) c = ack_many n (ack_one c)

-- What follows the loop when anything was acknowledged.
abbrev pub after_acks : Connection → ℕ → ℕ → Connection
after_acks c num_acked num_sent = if num_acked == 0 then c else record c {
  flags = record (c.flags) { ttl_charged = false };
  last_sent = if ltb num_sent num_acked then c.last_ack else c.last_sent;
}

-- The acknowledgment proper of rx_handle_ack: the packets that the peer holds.
unfoldable pub take_acks : Connection → ℕ → Connection
take_acks c ack_id =
    let num_sent = id_sub c.last_sent c.last_ack in
    let num_acked = id_sub ack_id c.last_ack in after_acks (ack_many num_acked c) num_acked num_sent

-- The peer acknowledges what was never queued.
abbrev pub ack_too_far : Connection → ℕ → Bool
ack_too_far c ack_id = ltb (id_sub c.last_queued c.last_ack) (id_sub ack_id c.last_ack)

-- What rx_handle_ack leaves: the connection, whether it asks for a frame, and the packet given up.
unfoldable pub rx_handle_ack : Connection → ℕ → Connection × Bool × Option PacketQueueItem
rx_handle_ack c ack_id =
    if ack_too_far c ack_id
    then (c, false, none)
    else if leb 128 ack_id
    then (let (c₁, expired) = rx_handle_nak (take_acks c ack_id) in (c₁, true, expired))
    else (take_acks c ack_id, false, none)
