-- ===== src/Core/Queue/Charge.antt =====
-- A NAK that charges the first request (src/lib/ludlc.c: rx_handle_nak).
use mathlib.Core.Path.{subst}
use ludlc.Prelude.{
  ◌+◌, ◌-◌, ◌<◌, ◌≡◌, refl, ◌∙◌, ap, ap₂, sym, Bool, true, false, Option, none, some, ◌∷◌, map,
  arith, leb, ◌==◌, if◌then◌else◌, Bool-cases, inl, inr, u8, All,
}
use ludlc.Core.State.{Connection, PacketQueueItem, etimedout}
use ludlc.Core.Ack.{give_up, charge, rx_handle_nak}
use ludlc.Core.Queue.{
  queue_of, IsOrdered, SentWithin, Queue, Request, Outcome, view, unacked, as_request, as_outcome,
  lose_first, as_lost, HasTtl, nak,
}
use ludlc.Core.Queue.Acks.{is_charged}
use ludlc.Core.Queue.Settle.{first_item}
use ludlc.Core.Queue.Nak.{
  later_requests, write_first, requests-first, requests-write_first, outcomes-write_first,
  view-give_up, give_up-IsOrdered, later_kept,
}

-- What a NAK leaves: the counters, and the queue with the packet given up.
pub record Nacked (c : Connection) (lost : Queue × Option Outcome)
    (out : Connection × Option PacketQueueItem) : Type 0 where
  pub ordered : IsOrdered out.0
  pub queue : view out.0 ≡ lost.0
  pub expired : as_lost out.1 ≡ lost.1

-- The first item, with one attempt less.
abbrev charged_item : Connection → PacketQueueItem
charged_item c = record (first_item c) { ttl = u8 ((first_item c).ttl + 255) }

abbrev charged : Connection → Connection
charged c = record (write_first (charged_item c) c) {
  flags = record (c.flags) { ttl_charged = true };
}

module _ {c : Connection} (o : IsOrdered c) (left : 0 < unacked c)
    (first : HasTtl (as_request (first_item c))) where
  r : Request
  r = as_request (first_item c)

  less : u8 ((first_item c).ttl + 255) ≡ (first_item c).ttl - 1
  less = omega arith

  last_try : (u8 ((first_item c).ttl + 255) == 0) ≡ leb (first_item c).ttl 1
  last_try = let e = less in ground (arith, first)

  charged-IsOrdered : IsOrdered (charged c)
  charged-IsOrdered = ground (arith, o.window)

  -- The queue after the first request has lost a copy, by its parts.
  lost : Bool → Queue × Option Outcome
  lost over =
      if over
      then (
        queue_of (view c).outcomes (later_requests c),
        some (as_outcome (record (charged_item c) { result = etimedout })),
      )
      else (queue_of (view c).outcomes (as_request (charged_item c) ∷ later_requests c), none)

  lose-first : lose_first (view c) ≡ lost (leb (first_item c).ttl 1)
  unfolding lost
  lose-first =
      rw (requests-first o left)
        (elim (Bool-cases (leb (first_item c).ttl 1)) [ inl e ↦ rw e | inr e ↦ rw (e, less) ])

  charge-lost :
      (over : Bool)
      → Nacked c
          (lost over)
          (if over then give_up (charged c) (charged_item c) else (charged c, none))
  unfolding lost
  charge-lost true = record {
    ordered = give_up-IsOrdered charged-IsOrdered left (charged_item c);
    queue =
        view-give_up charged-IsOrdered left (charged_item c)
        ∙ ap₂ queue_of (outcomes-write_first o left (charged_item c))
            (ap (map as_request) (later_kept o left (charged_item c)));
    expired = unfold give_up in refl;
  }
  charge-lost false = record {
    ordered = charged-IsOrdered;
    queue =
        ap₂ queue_of (outcomes-write_first o left (charged_item c))
          (requests-write_first o left (charged_item c));
    expired = refl;
  }

  charge-Nacked : Nacked c (lose_first (view c)) (charge c)
  unfolding charge
  charge-Nacked =
      subst (λ q. Nacked c q (charge c)) (sym lose-first)
        (rw last_try (charge-lost (leb (first_item c).ttl 1)))

first-HasTtl :
    {c : Connection} (o : IsOrdered c) (left : 0 < unacked c)
    → All HasTtl (view c).requests
    → HasTtl (as_request (first_item c))
first-HasTtl o left t = (rw (requests-first o left) at t).0

nak-Nacked :
    (b : Bool) {c : Connection}
    → IsOrdered c
    → (b ≡ true → 0 < unacked c)
    → All HasTtl (view c).requests
    → Nacked c (nak b (view c)) (if b then charge c else (c, none))
nak-Nacked true {c} o left t = charge-Nacked o (left refl) (first-HasTtl o (left refl) t)
nak-Nacked false {c} o left t = record { ordered = o; queue = refl; expired = refl }

rewound :
    {c : Connection} {lost : Queue × Option Outcome} {out : Connection × Option PacketQueueItem}
    → Nacked c lost out
    → Nacked c lost (record (out.0) { last_sent = out.0.last_ack }, out.1)
rewound n = record { ordered = reordered n.ordered; queue = n.queue; expired = n.expired }
  where
    reordered : {d : Connection} → IsOrdered d → IsOrdered (record d { last_sent = d.last_ack })
    reordered o = ground (arith, o.window)

-- rx_handle_nak charges the first request if a copy of it has gone out since the last NAK, gives it up
-- when that was its last attempt, and goes back to send all that is left again.
pub rx_handle_nak-Nacked :
    {c : Connection}
    → IsOrdered c
    → SentWithin c
    → All HasTtl (view c).requests
    → Nacked c (nak (is_charged c) (view c)) (rx_handle_nak c)
      × ((rx_handle_nak c).0.last_sent ≡ (rx_handle_nak c).0.last_ack)
unfolding rx_handle_nak
rx_handle_nak-Nacked {c} o s t = (
  rewound
      (nak-Nacked (is_charged c) o (λ h. ground (arith, o.ack_id, o.sent_id, o.queued_id, s)) t),
  refl,
)
