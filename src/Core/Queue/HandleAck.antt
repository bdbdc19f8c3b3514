-- ===== src/Core/Queue/HandleAck.antt =====
-- The whole of rx_handle_ack against the queue.
use ludlc.Prelude.{
  ℕ, zero, suc, ◌≤◌, ◌<◌, ◌≡◌, refl, ◌∙◌, ap, ap₂, sym, Bool, true, false, ◌&&◌, Option, none, List,
  [], ◌∷◌, arith, leb, if◌then◌else◌, All, drop,
}
use mathlib.Core.Path.{subst}
use ludlc.Core.State.{Connection, PacketQueueItem, id_sub, success}
use ludlc.Core.Ack.{rx_handle_ack, take_acks, rx_handle_nak, ack_too_far}
use ludlc.Core.Queue.{
  IsOrdered, SentWithin, Queue, Outcome, view, unacked, resolve_many, as_lost, HasTtl, nak,
}
use ludlc.Core.Queue.Acks.{TakenAcks, take_acks-TakenAcks, owes}
use ludlc.Core.Queue.Charge.{rx_handle_nak-Nacked}

pub All-drop {ℓ κ} :
    {A : Type ℓ} (P : A → Type κ) (n : ℕ) (xs : List A) → All P xs → All P (drop n xs)
All-drop P zero xs h = h
All-drop P (suc n) [] h = h
All-drop P (suc n) (x ∷ xs) h = All-drop P n xs h.1

-- What a queue becomes by an ACK of its first `n` requests; with a NAK the next may be charged.
abbrev pub acknowledge : ℕ → Bool → Bool → Queue → Queue × Option Outcome
acknowledge n is_nak owed q = nak (is_nak && owed) (resolve_many success n q)

-- What rx_handle_ack leaves, of an ACK that confirms `n` packets, with or without a NAK.
pub record Answered (c : Connection) (n : ℕ) (is_nak : Bool)
    (out : Connection × Bool × Option PacketQueueItem) : Type 0 where
  pub ordered : IsOrdered out.0
  pub sent : SentWithin out.0
  pub queue : (view out.0, as_lost out.2) ≡ acknowledge n is_nak (owes c n) (view c)
  pub asks : out.1 ≡ is_nak

module _ {c : Connection} (ack_id : ℕ) (o : IsOrdered c) (s : SentWithin c)
    (t : All HasTtl (view c).requests) (h : id_sub ack_id c.last_ack ≤ unacked c) where
  acks : TakenAcks ack_id c (take_acks c ack_id)
  acks = take_acks-TakenAcks ack_id o s h

  ttl_left : All HasTtl (view (take_acks c ack_id)).requests
  ttl_left =
      subst (λ q. All HasTtl q.requests) (sym acks.queue)
        (All-drop HasTtl (id_sub ack_id c.last_ack) (view c).requests t)

  by_flag :
      (b : Bool)
      → Answered c (id_sub ack_id c.last_ack) b (
          if b
          then (let (c₁, expired) = rx_handle_nak (take_acks c ack_id) in (c₁, true, expired))
          else (take_acks c ack_id, false, none))
  by_flag true =
      let (n, back) = rx_handle_nak-Nacked acks.ordered acks.sent ttl_left in
      record {
        ordered = n.ordered;
        sent = rw back (omega arith);
        queue = ap₂ (λ q l. (q, l)) n.queue n.expired ∙ ap₂ nak acks.charge acks.queue;
        asks = refl;
      }
  by_flag false = record {
    ordered = acks.ordered;
    sent = acks.sent;
    queue = ap (λ q. (q, none)) acks.queue;
    asks = refl;
  }

  -- With the counters in order and every request's TTL from 1 to 127, an ACK field that runs no
  -- further than what is queued confirms, in order, the packets up to it. With the NAK flag it
  -- then charges the next packet, if that has been sent and not been charged for the copy yet: a
  -- packet with no attempt left is given up. Afterwards the counters are in order, and it asks
  -- for a frame exactly with the NAK flag.
  pub rx_handle_ack-Answered :
      Answered c (id_sub ack_id c.last_ack) (leb 128 ack_id) (rx_handle_ack c ack_id)
  unfolding rx_handle_ack
  rx_handle_ack-Answered =
      let near : ack_too_far c ack_id ≡ false = ground arith in rw near (by_flag (leb 128 ack_id))

-- An ACK of packets that were never queued changes nothing and asks for nothing, with the NAK
-- flag or without.
pub rx_handle_ack_too_far :
    (c : Connection) (ack_id : ℕ)
    → unacked c < id_sub ack_id c.last_ack
    → rx_handle_ack c ack_id ≡ (c, false, none)
unfolding rx_handle_ack
rx_handle_ack_too_far c ack_id h = let far : ack_too_far c ack_id ≡ true = ground arith in rw far
