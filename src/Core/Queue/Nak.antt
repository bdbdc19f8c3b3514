-- ===== src/Core/Queue/Nak.antt =====
-- A NAK against the queue (rx_handle_nak).
use native.Mathlib.Nat.{le_refl}
use ludlc.Prelude.{
  ℕ, suc, ◌+◌, ◌-◌, ◌%◌, ◌<◌, ◌≡◌, ◌∙◌, ap, ap₂, sym, List, ◌∷◌, map, arith, update, if◌then◌else◌,
  ==-refl,
}
use ludlc.Core.State.{Connection, PacketQueueItem, etimedout, id_mask, next_id, id_sub, slot}
use ludlc.Core.Ack.{give_up, move_up}
use ludlc.Core.Window.{mod-window, slot-ne}
use ludlc.Core.Items.{items, items-update_after, items-update_before, items-ext}
use ludlc.Core.Queue.{
  queue_of, IsOrdered, Request, view, unreported, unacked, as_request, as_outcome,
}
use ludlc.Core.Queue.Settle.{first_item}
use ludlc.Core.Queue.MoveUp.{move_up_other, items-move_up}

-- The requests behind the first.
abbrev pub later_requests : Connection → List Request
later_requests c = map as_request (items c.cfg.window c.packets_q (c.last_ack + 1) (unacked c - 1))

-- The connection with another packet in the first one's slot.
abbrev pub write_first : PacketQueueItem → Connection → Connection
write_first it c = record c { packets_q = update c.packets_q (slot c (next_id c.last_ack)) it }

module _ {c : Connection} (o : IsOrdered c) (left : 0 < unacked c) where
  pub wraps : next_id c.last_ack % c.cfg.window ≡ (c.last_ack + 1) % c.cfg.window
  wraps = mod-window c.cfg.window (c.last_ack + 1) o.window

  pub unacked-suc : unacked c ≡ suc (unacked c - 1)
  unacked-suc = omega arith

  requests_with :
      (q : ℕ → PacketQueueItem)
      → map as_request (items c.cfg.window q c.last_ack (unacked c))
        ≡ as_request (q (slot c (next_id c.last_ack)))
          ∷ map as_request (items c.cfg.window q (c.last_ack + 1) (unacked c - 1))
  requests_with q =
      ap (λ n. map as_request (items c.cfg.window q c.last_ack n)) unacked-suc
      ∙ ap
          (λ i.
            as_request (q i)
            ∷ map as_request (items c.cfg.window q (c.last_ack + 1) (unacked c - 1)))
          (sym wraps)

  pub requests-first : (view c).requests ≡ as_request (first_item c) ∷ later_requests c
  requests-first = requests_with c.packets_q

  pub later_kept :
      (it : PacketQueueItem)
      → items c.cfg.window (write_first it c).packets_q (c.last_ack + 1) (unacked c - 1)
        ≡ items c.cfg.window c.packets_q (c.last_ack + 1) (unacked c - 1)
  later_kept it =
      ap (λ i. items c.cfg.window (update c.packets_q i it) (c.last_ack + 1) (unacked c - 1)) wraps
      ∙ items-update_before c.cfg.window c.packets_q (c.last_ack + 1) (unacked c - 1)
          (c.last_ack + 1) it o.window (le_refl _) (omega (arith, o.room))

  pub requests-write_first :
      (it : PacketQueueItem) → (view (write_first it c)).requests ≡ as_request it ∷ later_requests c
  requests-write_first it =
      requests_with (write_first it c).packets_q
      ∙ ap₂ ◌∷◌
          (ap (λ b. as_request (if b then it else first_item c))
            (==-refl (slot c (next_id c.last_ack))))
          (ap (map as_request) (later_kept it))

  pub slot_of_first :
      slot c (next_id c.last_ack) ≡ (c.last_reported + (unreported c + 1)) % c.cfg.window
  slot_of_first = ground (arith, o.window)

  pub outcomes-write_first :
      (it : PacketQueueItem) → (view (write_first it c)).outcomes ≡ (view c).outcomes
  outcomes-write_first it = ap (map as_outcome) (
      ap (λ i. items c.cfg.window (update c.packets_q i it) c.last_reported (unreported c))
        slot_of_first
      ∙ items-update_after c.cfg.window c.packets_q c.last_reported (unreported c)
          (unreported c + 1) it o.window (omega arith) (omega (arith, o.room)))

  -- Those behind the first one moved up.
  moved : (q : ℕ → PacketQueueItem) → ℕ → PacketQueueItem
  moved q = move_up c.cfg.window (next_id c.last_ack) (unacked c - 1) q

  items-moved :
      (q : ℕ → PacketQueueItem)
      → items c.cfg.window (moved q) c.last_ack (unacked c - 1)
        ≡ items c.cfg.window q (c.last_ack + 1) (unacked c - 1)
  unfolding moved
  items-moved q =
      items-move_up c.cfg.window o.window (unacked c - 1) (next_id c.last_ack) c.last_ack q wraps
        (omega (arith, o.room))

  behind :
      (k : ℕ)
      → (c.last_ack + 1 + k) % c.cfg.window
        ≡ (c.last_reported + (unreported c + 1 + k)) % c.cfg.window
  behind k = ground (arith, o.window)

  -- The outcomes stand in other slots.
  outcomes-moved :
      (q : ℕ → PacketQueueItem)
      → items c.cfg.window (moved q) c.last_reported (unreported c)
        ≡ items c.cfg.window q c.last_reported (unreported c)
  unfolding moved
  outcomes-moved q = items-ext c.cfg.window (moved q) q c.last_reported (unreported c) (λ j l.
      move_up_other c.cfg.window o.window (unacked c - 1) (next_id c.last_ack) c.last_ack
        ((c.last_reported + 1 + j) % c.cfg.window) q wraps
        (λ k t p.
          slot-ne c.cfg.window c.last_reported (1 + j) (unreported c + 1 + k) o.window (omega arith)
            (omega (arith, o.room)) (ap (λ t. t % c.cfg.window) (omega arith) ∙ sym p ∙ behind k)))

  -- Giving up the first request takes it out of the queue; the others follow on as they were.
  pub view-give_up :
      (it : PacketQueueItem)
      → view (give_up c it).0 ≡ record { outcomes = (view c).outcomes; requests = later_requests c }
  unfolding give_up moved
  view-give_up it =
      ap₂
        (λ n m. record {
          outcomes = map as_outcome (
              items c.cfg.window (move_up c.cfg.window (next_id c.last_ack) n q) c.last_reported
                (unreported c));
          requests =
              map as_request
                (items c.cfg.window (move_up c.cfg.window (next_id c.last_ack) n q) c.last_ack m);
        })
        behind_count left_count
      ∙ ap₂ queue_of (ap (map as_outcome) (outcomes-moved q) ∙ outcomes-write_first expired)
          (ap (map as_request) (items-moved q ∙ later_kept expired))
    where
      expired : PacketQueueItem
      expired = record it { result = etimedout }

      q : ℕ → PacketQueueItem
      q = (write_first expired c).packets_q

      behind_count : id_sub c.last_queued (next_id c.last_ack) ≡ unacked c - 1
      behind_count = omega (arith, o.ack_id, o.queued_id)

      left_count : id_sub (id_mask (c.last_queued + 255)) c.last_ack ≡ unacked c - 1
      left_count = omega (arith, o.ack_id, o.queued_id)

  pub give_up-IsOrdered : (it : PacketQueueItem) → IsOrdered (give_up c it).0
  unfolding give_up
  give_up-IsOrdered it = ground (arith, o.window)
