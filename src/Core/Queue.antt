-- ===== src/Core/Queue.antt =====
-- What the window promises: a queue of requests, and the outcomes that wait to be reported.
pub mod Enqueue
pub mod Offer
pub mod Reset
pub mod Confirm
pub mod Drain
pub mod Settle
pub mod Sweep
pub mod Acks
pub mod MoveUp
pub mod Nak
pub mod Charge
pub mod HandleAck
pub mod Balance
use ludlc.Prelude.{
  ℕ, ◌+◌, ◌≤◌, ◌<◌, ◌≡◌, refl, true, false, Bool, Option, none, some, List, [], ◌∷◌, ◌++◌, map,
  take, drop, leb, ◌-◌, if◌then◌else◌,
}
use ludlc.Core.State.{Connection, PacketQueueItem, Errno, epipe, success, etimedout, id_sub}
use ludlc.Core.Window.{IsWindow}
use ludlc.Core.Items.{items}

-- What a caller has asked for, and how many more losses it may suffer.
pub record Request : Type 0 where
  pub payload : ℕ
  pub size : ℕ
  pub chan : ℕ
  pub ttl : ℕ

-- What is reported of a request, once.
pub record Outcome : Type 0 where
  pub error : Errno
  pub payload : ℕ
  pub size : ℕ
  pub chan : ℕ

-- A transmit queue: the outcomes still to be reported, then the requests not yet resolved.
pub record Queue : Type 0 where
  pub outcomes : List Outcome
  pub requests : List Request

abbrev pub queue_of : List Outcome → List Request → Queue
queue_of os rs = record { outcomes = os; requests = rs }

abbrev pub resolve : Errno → Request → Outcome
resolve e r = record { error = e; payload = r.payload; size = r.size; chan = r.chan }

abbrev pub as_request : PacketQueueItem → Request
as_request it = record { payload = it.payload; size = it.size; chan = it.chan; ttl = it.ttl }

abbrev pub as_outcome : PacketQueueItem → Outcome
as_outcome it = record { error = it.result; payload = it.payload; size = it.size; chan = it.chan }

-- A new request goes to the back.
abbrev pub push : Request → Queue → Queue
push r q = record q { requests = q.requests ++ (r ∷ []) }

-- Every request is resolved, in order.
abbrev pub fail_all : Errno → Queue → Queue
fail_all e q = record { outcomes = q.outcomes ++ map (resolve e) q.requests; requests = [] }

-- How many packets wait for their callbacks, and how many for the peer.
abbrev pub unreported : Connection → ℕ
unreported c = id_sub c.last_ack c.last_reported

abbrev pub unacked : Connection → ℕ
unacked c = id_sub c.last_queued c.last_ack

-- The queue that a connection holds.
abbrev pub view : Connection → Queue
view c = record {
  outcomes = map as_outcome (items c.cfg.window c.packets_q c.last_reported (unreported c));
  requests = map as_request (items c.cfg.window c.packets_q c.last_ack (unacked c));
}

-- The order of the counters: reported, acknowledged and queued, within one window. While a
-- disconnect empties the queue nothing is put in.
pub record IsOrdered (c : Connection) : Type 0 where
  pub window : IsWindow c.cfg.window
  pub reported_id : c.last_reported < 128
  pub ack_id : c.last_ack < 128
  pub sent_id : c.last_sent < 128
  pub queued_id : c.last_queued < 128
  pub received_id : c.last_received < 128
  pub seen_id : c.last_seen < 128
  pub room : unreported c + unacked c ≤ c.cfg.window
  pub closed : c.flags.bus_out ≡ true → c.last_queued ≡ c.last_ack

-- What has been sent is between what is acknowledged and what is queued.
abbrev pub SentWithin : Connection → Type 0
SentWithin c = id_sub c.last_sent c.last_ack ≤ unacked c

-- The first `n` requests are resolved, in order.
abbrev pub resolve_many : Errno → ℕ → Queue → Queue
resolve_many e n q = record {
  outcomes = q.outcomes ++ map (resolve e) (take n q.requests);
  requests = drop n q.requests;
}

-- The first request has lost a copy. One with no attempt left is given up, out of turn.
abbrev pub lose_request : List Request → List Request × Option Outcome
lose_request [] = ([], none)
lose_request (r ∷ rs) =
    if leb r.ttl 1
    then (rs, some (resolve etimedout r))
    else (record r { ttl = (r.ttl - 1) } ∷ rs, none)

abbrev pub lose_first : Queue → Queue × Option Outcome
lose_first q = let (rs, lost) = lose_request q.requests in (record q { requests = rs }, lost)

abbrev pub as_lost : Option PacketQueueItem → Option Outcome
as_lost none = none
as_lost (some it) = some (as_outcome it)

-- A request with attempts left, as every one in the queue is.
abbrev pub HasTtl : Request → Type 0
HasTtl r = (1 ≤ r.ttl) × (r.ttl ≤ 127)

-- What a NAK does to the queue, if it charges the first request.
abbrev pub nak : Bool → Queue → Queue × Option Outcome
nak true q = lose_first q
nak false q = (q, none)
