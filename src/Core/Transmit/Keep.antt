-- ===== src/Core/Transmit/Keep.antt =====
-- Handing a frame to the transport, against the queue (src/lib/ludlc.c: ludlc_get_packet_to_send).
use ludlc.Prelude.{
  ℕ, ◌≤◌, ◌<◌, ◌≡◌, refl, ◌∙◌, ap, Bool, false, Option, List, map, arith, ◌==◌, Bool-cases, inl,
  inr,
}
use ludlc.Core.State.{Connection, PacketQueueItem, id_sub, connected}
use ludlc.Core.Transmit.{
  Choice, finish_u_packet, get_packet_to_send, is_some, choose, send_unnumbered, send_ping,
  send_queued, put_ack, track_nak, copy_payload, send_connected, send_handshake, send_frame,
  restart_ping_timer,
}
use ludlc.Core.Queue.{IsOrdered, SentWithin, view, unacked, as_outcome, as_request}
use ludlc.Core.Items.{items}

-- Another connection with the same queue.
pub record SameQueue (c d : Connection) : Type 0 where
  pub slots : d.packets_q ≡ c.packets_q
  pub ack : d.last_ack ≡ c.last_ack
  pub queued : d.last_queued ≡ c.last_queued
  pub reported : d.last_reported ≡ c.last_reported
  pub cfg : d.cfg ≡ c.cfg
  pub bus : d.flags.bus_out ≡ c.flags.bus_out
  pub received : d.last_received ≡ c.last_received
  pub seen : d.last_seen ≡ c.last_seen

SameQueue-trans : {c d e : Connection} → SameQueue c d → SameQueue d e → SameQueue c e
SameQueue-trans s t = record {
  slots = t.slots ∙ s.slots;
  ack = t.ack ∙ s.ack;
  queued = t.queued ∙ s.queued;
  reported = t.reported ∙ s.reported;
  cfg = t.cfg ∙ s.cfg;
  bus = t.bus ∙ s.bus;
  received = t.received ∙ s.received;
  seen = t.seen ∙ s.seen;
}

pub view-SameQueue : {c d : Connection} → SameQueue c d → view d ≡ view c
view-SameQueue {c} {d} s = λ i. record {
  outcomes =
      map as_outcome
        (items (s.cfg i).window (s.slots i) (s.reported i) (id_sub (s.ack i) (s.reported i)));
  requests =
      map as_request (items (s.cfg i).window (s.slots i) (s.ack i) (id_sub (s.queued i) (s.ack i)));
}

choose-SameQueue : (c : Connection) (u : Bool) → SameQueue c (choose c u).conn
unfolding choose send_unnumbered send_ping send_queued
choose-SameQueue c u = ground arith

put_ack-SameQueue : (c : Connection) (ping : Bool) → SameQueue c (put_ack c ping)
unfolding put_ack
put_ack-SameQueue c ping = ground arith

track_nak-SameQueue : (c : Connection) (numbered : Bool) → SameQueue c (track_nak c numbered)
unfolding track_nak
track_nak-SameQueue c numbered = ground arith

copy_payload-SameQueue :
    (memory : ℕ → ℕ → List ℕ) (c : Connection) (it : Option PacketQueueItem)
    → SameQueue c (restart_ping_timer (copy_payload memory c it).0)
copy_payload-SameQueue memory c it = ground arith

send_connected-SameQueue :
    (memory : ℕ → ℕ → List ℕ) (c : Connection) (u : Bool)
    → SameQueue c (send_connected memory c u).0
unfolding send_connected
send_connected-SameQueue memory c u = SameQueue-trans (choose-SameQueue c u) (
    SameQueue-trans (put_ack-SameQueue ch.conn ch.ping) (
      SameQueue-trans (track_nak-SameQueue (put_ack ch.conn ch.ping) ch.numbered)
        (copy_payload-SameQueue memory (track_nak (put_ack ch.conn ch.ping) ch.numbered) ch.item)))
  where
    ch : Choice
    ch = choose c u

-- The frame leaves `last_sent` where the choice has put it.
last_sent-send_connected :
    (memory : ℕ → ℕ → List ℕ) (c : Connection) (u : Bool)
    → (send_connected memory c u).0.last_sent ≡ (choose c u).conn.last_sent
unfolding send_connected put_ack track_nak
last_sent-send_connected memory c u = last_sent-copied (choose c u)
  where
    last_sent-copied :
        (ch : Choice)
        → (copy_payload memory
            (track_nak (put_ack ch.conn ch.ping) ch.numbered)
            ch.item).0.last_sent
          ≡ ch.conn.last_sent
    last_sent-copied ch = ground arith

choose-SentWithin :
    (c : Connection) (u : Bool)
    → IsOrdered c
    → SentWithin c
    → ((choose c u).conn.last_sent < 128)
      × (id_sub (choose c u).conn.last_sent c.last_ack ≤ unacked c)
unfolding choose send_unnumbered send_ping send_queued
choose-SentWithin c u o s = ground (arith, o.ack_id, o.sent_id, o.queued_id)

-- What a frame leaves of the window.
pub record Kept (c d : Connection) : Type 0 where
  pub ordered : IsOrdered d
  pub sent : SentWithin d
  pub queue : view d ≡ view c

SameQueue-Kept :
    {c d : Connection}
    → IsOrdered c
    → SameQueue c d
    → d.last_sent < 128
    → id_sub d.last_sent c.last_ack ≤ unacked c
    → Kept c d
SameQueue-Kept {c} {d} o s l w = record {
  ordered = ordered;
  sent = ground (arith, s.ack, s.queued, w);
  queue = view-SameQueue s;
}
  where
    window_kept : d.cfg.window ≡ c.cfg.window
    window_kept = ap (λ k. k.window) s.cfg

    ordered : IsOrdered d
    ordered =
        ground
          (arith, o.window, window_kept, s.ack, s.queued, s.reported, s.bus, s.received, s.seen, l)

pub send_connected-Kept :
    (memory : ℕ → ℕ → List ℕ) {c : Connection} (u : Bool)
    → IsOrdered c
    → SentWithin c
    → Kept c (send_connected memory c u).0
send_connected-Kept memory {c} u o s =
    let e = last_sent-send_connected memory c u in
    let w = choose-SentWithin c u o s in
    SameQueue-Kept o (send_connected-SameQueue memory c u) (rw e w.0) (rw e w.1)

send_handshake-Kept : {c : Connection} → IsOrdered c → SentWithin c → Kept c (send_handshake c).0
unfolding send_handshake
send_handshake-Kept {c} o s = record { ordered = ground (arith, o.window); sent = s; queue = refl }

pub finish_u_packet-Kept :
    {c : Connection} → IsOrdered c → SentWithin c → Kept c (finish_u_packet c).0
unfolding finish_u_packet
finish_u_packet-Kept {c} o s =
    SameQueue-Kept o (ground arith) (ground (arith, o.sent_id)) (ground (arith, s))

pub send_frame-Kept :
    (memory : ℕ → ℕ → List ℕ) {c : Connection} (u : Bool)
    → IsOrdered c
    → SentWithin c
    → Kept c (send_frame memory c u).0
unfolding send_frame
send_frame-Kept memory {c} u o s = elim (Bool-cases (c.conn_state == connected)) [
  | inl e ↦ rw e (send_connected-Kept memory u o s)
  | inr e ↦ rw e (send_handshake-Kept o s)
]

-- With the counters in order, ludlc_get_packet_to_send, unless the frame before was the
-- DISCONNECT that ends the session, leaves the requests and the outcomes of the window as they
-- are, and the counters in order: what has been sent lies between what is acknowledged and what
-- is queued.
pub get_packet_to_send-Kept :
    (memory : ℕ → ℕ → List ℕ) {c : Connection}
    → IsOrdered c
    → SentWithin c
    → (finish_u_packet c).1 ≡ false
    → Kept c (get_packet_to_send memory c).conn
unfolding get_packet_to_send
get_packet_to_send-Kept memory {c} o s e =
    let f = finish_u_packet-Kept o s in
    let k = send_frame-Kept memory (is_some (finish_u_packet c).2) f.ordered f.sent in
    rw e (record { ordered = k.ordered; sent = k.sent; queue = k.queue ∙ f.queue })
