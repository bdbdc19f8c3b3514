-- ===== src/Core/Queue/Enqueue.antt =====
-- ludlc_enqueue_data against the queue.
use ludlc.Prelude.{ℕ, ◌+◌, ◌%◌, ◌<◌, ◌≡◌, ◌∙◌, ap, ap₂, false, [], ◌∷◌, ◌++◌, map, arith, update}
use mathlib.Core.List.{map-append}
use ludlc.Core.State.{Connection, PacketQueueItem, next_id, id_sub, slot}
use ludlc.Core.Send.{tx_queue_full, enqueue_slot}
use ludlc.Core.Items.{items, items-update_after, items-update_next}
use ludlc.Core.Queue.{queue_of, IsOrdered, as_outcome, push, view, unreported, unacked, as_request}

-- The slot of the next packet, counted from either end of the stretches.
slot_from_ack :
    {c : Connection}
    → IsOrdered c
    → next_id c.last_queued % c.cfg.window ≡ (c.last_ack + (unacked c + 1)) % c.cfg.window
slot_from_ack o = ground arith

slot_from_reported :
    {c : Connection}
    → IsOrdered c
    → next_id c.last_queued % c.cfg.window
      ≡ (c.last_reported + (unreported c + unacked c + 1)) % c.cfg.window
slot_from_reported o = ground arith

not_full :
    (c : Connection) → tx_queue_full c ≡ false → id_sub c.last_queued c.last_reported < c.cfg.window
unfolding tx_queue_full
not_full c h = ground arith

-- What the slot holds after ludlc_enqueue_data has filled it.
abbrev filled : Connection → ℕ → ℕ → ℕ → ℕ → PacketQueueItem
filled c dst_chan buf size ttl = record (c.packets_q (slot c (next_id c.last_queued))) {
  chan = dst_chan;
  ttl = ttl;
  payload = buf;
  size = size;
}

module _ {c : Connection} (o : IsOrdered c) (room : tx_queue_full c ≡ false) where
  free : unreported c + unacked c < c.cfg.window
  free = omega (arith, not_full c room, o.room, o.window)

  pub enqueue_slot-IsOrdered :
      (dst_chan buf size ttl : ℕ)
      → c.flags.bus_out ≡ false
      → IsOrdered (enqueue_slot c dst_chan buf size ttl)
  unfolding enqueue_slot
  enqueue_slot-IsOrdered dst_chan buf size ttl open_ = let f = free in ground (arith, o.window)

  unreported_kept :
      (it : PacketQueueItem)
      → items c.cfg.window
          (update c.packets_q (slot c (next_id c.last_queued)) it)
          c.last_reported
          (unreported c)
        ≡ items c.cfg.window c.packets_q c.last_reported (unreported c)
  unreported_kept it = rw (slot_from_reported o) (
      items-update_after c.cfg.window c.packets_q c.last_reported (unreported c)
        (unreported c + unacked c + 1) it o.window (omega arith) (let f = free in omega arith))

  unacked_extended :
      (it : PacketQueueItem)
      → items c.cfg.window
          (update c.packets_q (slot c (next_id c.last_queued)) it)
          c.last_ack
          (id_sub (next_id c.last_queued) c.last_ack)
        ≡ items c.cfg.window c.packets_q c.last_ack (unacked c) ++ (it ∷ [])
  unacked_extended it =
      let e : id_sub (next_id c.last_queued) c.last_ack ≡ unacked c + 1 =
        let f = free in omega (arith, o.window) in
      rw (e, slot_from_ack o)
        (items-update_next c.cfg.window c.packets_q c.last_ack (unacked c) it o.window
          (let f = free in omega arith))

  -- A packet put into a window that is not full is the last of the queue's requests.
  pub view-enqueue_slot :
      (dst_chan buf size ttl : ℕ)
      → view (enqueue_slot c dst_chan buf size ttl)
        ≡ push (record { payload = buf; size = size; chan = dst_chan; ttl = ttl }) (view c)
  unfolding enqueue_slot
  view-enqueue_slot dst_chan buf size ttl =
      let it = filled c dst_chan buf size ttl in
      ap₂ (queue_of) (ap (map as_outcome) (unreported_kept it)) (
        ap (map as_request) (unacked_extended it)
        ∙ map-append as_request (items c.cfg.window c.packets_q c.last_ack (unacked c)) (it ∷ []))
