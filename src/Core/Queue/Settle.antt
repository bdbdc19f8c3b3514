-- ===== src/Core/Queue/Settle.antt =====
-- Resolving the first packets of the window, as an acknowledgment and a disconnect do.
use mathlib.Core.List.{map-append}
use native.Mathlib.Nat.{le_refl}
use ludlc.Prelude.{
  ℕ, zero, suc, ◌+◌, ◌%◌, ◌≤◌, ◌<◌, ◌≡◌, refl, ◌∙◌, ap, ap₂, sym, [], ◌∷◌, ◌++◌, map, take, drop,
  arith, append_assoc, append-nil, update,
}
use ludlc.Core.State.{Connection, PacketQueueItem, Errno, next_id, slot}
use ludlc.Core.Disconnect.{set_result}
use ludlc.Core.Window.{mod-window}
use ludlc.Core.Items.{items, items-congr, items-update_next, items-update_before}
use ludlc.Core.Queue.{
  queue_of, IsOrdered, Queue, Request, view, unreported, unacked, as_outcome, as_request, resolve,
  resolve_many,
}

-- The first packet unacknowledged is resolved with `e`.
abbrev pub settle : Errno → Connection → Connection
settle e c = record c {
  last_ack = next_id c.last_ack;
  packets_q = set_result c.packets_q (slot c (next_id c.last_ack)) e;
}

-- That packet.
abbrev pub first_item : Connection → PacketQueueItem
first_item c = c.packets_q (slot c (next_id c.last_ack))

module _ (e : Errno) {c : Connection} (o : IsOrdered c) (left : 0 < unacked c) where
  pub unacked-settle : unacked c ≡ suc (unacked (settle e c))
  unacked-settle = omega (arith, o.window)

  unreported-settle : unreported (settle e c) ≡ unreported c + 1
  unreported-settle = ground (arith, o.window)

  pub settle-IsOrdered : IsOrdered (settle e c)
  settle-IsOrdered = ground (arith, o.window)

  slot_of_first :
      slot c (next_id c.last_ack) ≡ (c.last_reported + (unreported c + 1)) % c.cfg.window
  slot_of_first = ground (arith, o.window)

  -- It is the first request,
  pub requests-settle : (view c).requests ≡ as_request (first_item c) ∷ (view (settle e c)).requests
  requests-settle = rw unacked-settle (
      ap₂ ◌∷◌ (ap (λ i. as_request (c.packets_q i)) (sym wraps)) (
        ap (map as_request) (
          items-congr w q (c.last_ack + 1) (next_id c.last_ack) n o.window (sym wraps)
          ∙ sym untouched)))
    where
      w : ℕ
      w = c.cfg.window

      n : ℕ
      n = unacked (settle e c)

      q : ℕ → PacketQueueItem
      q = c.packets_q

      wraps : next_id c.last_ack % w ≡ (c.last_ack + 1) % w
      wraps = mod-window w (c.last_ack + 1) o.window

      untouched :
          items w (settle e c).packets_q (next_id c.last_ack) n ≡ items w q (next_id c.last_ack) n
      untouched =
          items-update_before w q (next_id c.last_ack) n (next_id c.last_ack) _ o.window (le_refl _)
            (omega (arith, o.room, unacked-settle))

  -- and becomes the last outcome.
  pub outcomes-settle :
      (view (settle e c)).outcomes
      ≡ (view c).outcomes ++ (resolve e (as_request (first_item c)) ∷ [])
  outcomes-settle = rw unreported-settle (
      ap (map as_outcome) (moved ∙ extended)
      ∙ map-append as_outcome (items w c.packets_q c.last_reported (unreported c)) (it ∷ []))
    where
      w : ℕ
      w = c.cfg.window

      it : PacketQueueItem
      it = record (first_item c) { result = e }

      moved :
          items w (settle e c).packets_q c.last_reported (unreported c + 1)
          ≡ items w
              (update c.packets_q ((c.last_reported + (unreported c + 1)) % w) it)
              c.last_reported
              (unreported c + 1)
      moved =
          ap (λ i. items w (update c.packets_q i it) c.last_reported (unreported c + 1))
            slot_of_first

      extended :
          items w
            (update c.packets_q ((c.last_reported + (unreported c + 1)) % w) it)
            c.last_reported
            (unreported c + 1)
          ≡ items w c.packets_q c.last_reported (unreported c) ++ (it ∷ [])
      extended =
          items-update_next w c.packets_q c.last_reported (unreported c) it o.window
            (omega (arith, o.room))

-- The first `n` packets unacknowledged are resolved with `e`.
abbrev pub settle_many : Errno → ℕ → Connection → Connection
settle_many e zero c = c
settle_many e (suc n) c = settle_many e n (settle e c)

resolve_many-cons :
    (e : Errno) (n : ℕ) (q q' : Queue) (r : Request)
    → q.requests ≡ r ∷ q'.requests
    → q'.outcomes ≡ q.outcomes ++ (resolve e r ∷ [])
    → resolve_many e n q' ≡ resolve_many e (suc n) q
resolve_many-cons e n q q' r hr ho =
    rw (hr, ho)
      (ap (λ os. queue_of os (drop n q'.requests))
        (append_assoc q.outcomes (resolve e r ∷ []) (map (resolve e) (take n q'.requests))))

pub resolve_none : (e : Errno) (q : Queue) → resolve_many e zero q ≡ q
resolve_none e q = ap (λ os. queue_of os q.requests) (append-nil q.outcomes)

-- Settling one packet and then resolving `n` is resolving one more.
pub resolve_first :
    (e : Errno) (n : ℕ) {c : Connection}
    → IsOrdered c
    → 0 < unacked c
    → resolve_many e n (view (settle e c)) ≡ resolve_many e (suc n) (view c)
resolve_first e n {c} o left =
    resolve_many-cons e n (view c) (view (settle e c)) (as_request (first_item c))
      (requests-settle e o left) (outcomes-settle e o left)

-- What settling `n` packets leaves: the counters are in order, and the first `n` requests have become
-- the last outcomes.
pub record Settled (e : Errno) (n : ℕ) (c out : Connection) : Type 0 where
  pub ordered : IsOrdered out
  pub queue : view out ≡ resolve_many e n (view c)
  pub ack : out.last_ack ≡ (c.last_ack + n) % 128
  pub rest : out ≡ record c { last_ack = out.last_ack; packets_q = out.packets_q }

pub settle_many-Settled :
    (e : Errno) (n : ℕ) {c : Connection}
    → IsOrdered c
    → n ≤ unacked c
    → Settled e n c (settle_many e n c)
settle_many-Settled e zero {c} o h = record {
  ordered = o;
  queue = sym (resolve_none e (view c));
  ack = omega (arith, o.ack_id);
  rest = refl;
}
settle_many-Settled e (suc n) {c} o h =
    let left : 0 < unacked c = omega arith in
    let r =
      settle_many-Settled e n (settle-IsOrdered e o left)
        (omega (arith, unacked-settle e o left)) in
    record {
      ordered = r.ordered;
      queue = r.queue ∙ resolve_first e n o left;
      ack = r.ack ∙ omega arith;
      rest = r.rest;
    }
