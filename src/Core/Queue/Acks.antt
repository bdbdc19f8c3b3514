-- ===== src/Core/Queue/Acks.antt =====
-- An acknowledgment against the queue (the loop of rx_handle_ack).
use ludlc.Prelude.{
  ℕ, zero, suc, ◌+◌, ◌%◌, ◌≤◌, ◌<◌, ◌≡◌, refl, ◌∙◌, ap, sym, Bool, arith, ltb, not, ◌&&◌, ◌||◌,
  ◌==◌, Bool-cases, inl, inr,
}
use ludlc.Core.State.{Connection, success, id_sub}
use ludlc.Core.Ack.{ack_one, ack_many, take_acks, after_acks}
use ludlc.Core.Queue.{IsOrdered, SentWithin, view, unacked, resolve_many}
use ludlc.Core.Queue.Settle.{settle, settle-IsOrdered, unacked-settle, resolve_none, resolve_first}

-- The loop leaves all but the counter of acknowledgments, the window and the flags as they were.
pub record Acked (n : ℕ) (c out : Connection) : Type 0 where
  pub ordered : IsOrdered out
  pub queue : view out ≡ resolve_many success n (view c)
  pub ack : out.last_ack ≡ (c.last_ack + n) % 128
  pub bus : out.flags.bus_out ≡ c.flags.bus_out
  pub charged : out.flags.ttl_charged ≡ c.flags.ttl_charged
  pub rest :
      out ≡ record c { last_ack = out.last_ack; packets_q = out.packets_q; flags = out.flags }

ack_one-IsOrdered : {c : Connection} → IsOrdered c → 0 < unacked c → IsOrdered (ack_one c)
unfolding ack_one
ack_one-IsOrdered o left = let s = settle-IsOrdered success o left in ground (arith, s.window)

view-ack_one : (c : Connection) → view (ack_one c) ≡ view (settle success c)
unfolding ack_one
view-ack_one c = refl

bus_out-ack_one : (c : Connection) → (ack_one c).flags.bus_out ≡ c.flags.bus_out
unfolding ack_one
bus_out-ack_one c = ground arith

ttl_charged-ack_one : (c : Connection) → (ack_one c).flags.ttl_charged ≡ c.flags.ttl_charged
unfolding ack_one
ttl_charged-ack_one c = ground arith

unacked-ack_one : (c : Connection) → unacked (ack_one c) ≡ unacked (settle success c)
unfolding ack_one
unacked-ack_one c = refl

-- One round, then `n` more.
ack_first-Acked :
    (n : ℕ) {c out : Connection}
    → IsOrdered c
    → 0 < unacked c
    → Acked n (ack_one c) out
    → Acked (suc n) c out
unfolding ack_one
ack_first-Acked n {c} o left r = record {
  ordered = r.ordered;
  queue = r.queue ∙ ap (resolve_many success n) (view-ack_one c) ∙ resolve_first success n o left;
  ack = r.ack ∙ omega arith;
  bus = r.bus ∙ bus_out-ack_one c;
  charged = r.charged ∙ ttl_charged-ack_one c;
  rest = r.rest;
}

pub ack_many-Acked :
    (n : ℕ) {c : Connection} → IsOrdered c → n ≤ unacked c → Acked n c (ack_many n c)
unfolding ack_many
ack_many-Acked zero {c} o h = record {
  ordered = o;
  queue = sym (resolve_none success (view c));
  ack = omega (arith, o.ack_id);
  bus = refl;
  charged = refl;
  rest = refl;
}
ack_many-Acked (suc n) {c} o h =
    let left : 0 < unacked c = omega arith in
    ack_first-Acked n o left (
      ack_many-Acked n (ack_one-IsOrdered o left)
        (omega (arith, unacked-ack_one c, unacked-settle success o left)))

-- A NAK charges a packet once for each copy sent.
abbrev pub is_charged : Connection → Bool
is_charged c = not (c.last_sent == c.last_ack) && not c.flags.ttl_charged

-- Whether a NAK that acknowledges `n` packets charges the next: a copy of that one has gone out, and
-- has not been charged for, as none has if it was not the first until now.
abbrev pub owes : Connection → ℕ → Bool
owes c n = ltb n (id_sub c.last_sent c.last_ack) && (not (n == 0) || not c.flags.ttl_charged)

-- The packets that the peer holds are confirmed, in order, and `last_sent` keeps up.
pub record TakenAcks (ack_id : ℕ) (c out : Connection) : Type 0 where
  pub ordered : IsOrdered out
  pub sent : SentWithin out
  pub queue : view out ≡ resolve_many success (id_sub ack_id c.last_ack) (view c)
  pub charge : is_charged out ≡ owes c (id_sub ack_id c.last_ack)

after_acks-TakenAcks :
    (ack_id : ℕ) {c d : Connection}
    → IsOrdered c
    → SentWithin c
    → id_sub ack_id c.last_ack ≤ unacked c
    → Acked (id_sub ack_id c.last_ack) c d
    → TakenAcks ack_id c (after_acks d (id_sub ack_id c.last_ack) (id_sub c.last_sent c.last_ack))
after_acks-TakenAcks ack_id {c} {d} o s h r =
    let n = id_sub ack_id c.last_ack in
    let sent_kept : d.last_sent ≡ c.last_sent = ap (λ x. x.last_sent) r.rest in
    let queued_kept : d.last_queued ≡ c.last_queued = ap (λ x. x.last_queued) r.rest in
    elim (Bool-cases (n == 0)) [
      | inl e ↦ rw e (record {
        ordered = r.ordered;
        sent = ground (arith, r.ack, o.ack_id);
        queue = r.queue;
        charge = ground (arith, r.ack, r.charged, o.ack_id, o.sent_id, o.queued_id);
      })
      | inr e ↦ rw e (record {
        ordered = let q = r.ordered in ground (arith, q.window);
        sent = ground (arith, r.ack, o.ack_id, o.window, o.room);
        queue = r.queue;
        charge = ground (arith, r.ack, r.charged, o.ack_id, o.sent_id, o.queued_id);
      })
    ]

pub take_acks-TakenAcks :
    (ack_id : ℕ) {c : Connection}
    → IsOrdered c
    → SentWithin c
    → id_sub ack_id c.last_ack ≤ unacked c
    → TakenAcks ack_id c (take_acks c ack_id)
unfolding take_acks
take_acks-TakenAcks ack_id {c} o s h =
    after_acks-TakenAcks ack_id o s h (ack_many-Acked (id_sub ack_id c.last_ack) o h)
