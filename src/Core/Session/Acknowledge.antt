-- ===== src/Core/Session/Acknowledge.antt =====
-- What a packet of a link that is up does to the packets that its receiver has queued (src/lib/ludlc.c:
-- the end of rx_handle_packet).
use ludlc.Prelude.{
  ℕ, ◌<◌, ◌≡◌, refl, ◌∙◌, ap, sym, Bool, ◌&&◌, Option, none, map, arith, leb, ltb, Bool-cases, inl,
  inr, All,
}
use mathlib.Core.Path.{subst}
use ludlc.Core.State.{Connection, PacketQueueItem, id_sub, success, watchdog_restart}
use ludlc.Core.Ack.{rx_handle_ack, rx_gap}
use ludlc.Core.Handshake.{RxFlags}
use ludlc.Core.Receive.{Packet, rx_sequence, rx_ping_sequence, rx_ahead, rx_sequences}
use ludlc.Core.Queue.{
  IsOrdered, view, unacked, HasTtl, as_lost, as_request, as_outcome, resolve_many,
}
use ludlc.Core.Queue.HandleAck.{
  Answered, rx_handle_ack-Answered, rx_handle_ack_too_far, acknowledge, All-drop,
}
use ludlc.Core.Queue.Acks.{owes}
use ludlc.Core.Queue.Balance.{parcels, acknowledge-parcels, nak-HasTtl}
use ludlc.Core.Items.{items}
use ludlc.Core.Session.{IsSound, IsQuiet, Between}
use ludlc.Core.Session.Quiet.{rx_handle_ack-IsQuiet, rx_sequence-IsQuiet}

-- Nothing resolved and nothing given up.
pub untouched : {c : Connection} → IsSound c → Between c c none
untouched {c} s = record {
  ordered = s.ordered;
  sent = λ _. s.sent;
  ttl = s.ttl;
  quiet = s.quiet;
  balance =
      ap (λ os. parcels (record { outcomes = os; requests = (view c).requests }, none)) s.reported;
}

Answered-Between :
    {c : Connection} (n : ℕ) (is_nak : Bool) {out : Connection × Bool × Option PacketQueueItem}
    → IsSound c
    → IsQuiet out.0
    → Answered c n is_nak out
    → Between c out.0 out.2
Answered-Between {c} n is_nak {out} s q a = record {
  ordered = a.ordered;
  sent = λ _. a.sent;
  ttl =
      subst (λ v. All HasTtl v.0.requests) (sym a.queue)
        (nak-HasTtl (is_nak && owes c n) (resolve_many success n (view c))
          (All-drop HasTtl n (view c).requests s.ttl));
  quiet = q;
  balance =
      ap parcels a.queue
      ∙ ap
          (λ os. parcels (
            acknowledge n is_nak (owes c n)
              (record { outcomes = os; requests = (view c).requests })))
          s.reported
      ∙ acknowledge-parcels n is_nak (owes c n) (view c).requests;
}

pub rx_handle_ack-Between :
    {c : Connection} (ack_id : ℕ)
    → IsSound c
    → Between c (rx_handle_ack c ack_id).0 (rx_handle_ack c ack_id).2
rx_handle_ack-Between {c} ack_id s =
    elim (Bool-cases (ltb (unacked c) (id_sub ack_id c.last_ack))) [
      | inl e ↦
          subst (λ out. Between c out.0 out.2)
            (sym (rx_handle_ack_too_far c ack_id (ground (arith, e)))) (untouched s)
      | inr e ↦
          Answered-Between (id_sub ack_id c.last_ack) (leb 128 ack_id) s
            (rx_handle_ack-IsQuiet ack_id s.quiet)
            (rx_handle_ack-Answered ack_id s.ordered s.sent s.ttl (ground (arith, e)))
    ]

-- The window and the counters of what is sent are the same.
pub record SameWindow (c d : Connection) : Type 0 where
  pub slots : d.packets_q ≡ c.packets_q
  pub ack : d.last_ack ≡ c.last_ack
  pub queued : d.last_queued ≡ c.last_queued
  pub reported : d.last_reported ≡ c.last_reported
  pub sent : d.last_sent ≡ c.last_sent
  pub cfg : d.cfg ≡ c.cfg
  pub bus : d.flags.bus_out ≡ c.flags.bus_out

pub view-SameWindow : {c d : Connection} → SameWindow c d → view d ≡ view c
view-SameWindow {c} {d} s = λ i. record {
  outcomes =
      map as_outcome
        (items (s.cfg i).window (s.slots i) (s.reported i) (id_sub (s.ack i) (s.reported i)));
  requests =
      map as_request (items (s.cfg i).window (s.slots i) (s.ack i) (id_sub (s.queued i) (s.ack i)));
}

pub IsOrdered-SameWindow :
    {c d : Connection}
    → SameWindow c d
    → IsOrdered c
    → d.last_received < 128
    → d.last_seen < 128
    → IsOrdered d
IsOrdered-SameWindow {c} {d} s o r l =
    let w : d.cfg.window ≡ c.cfg.window = ap (λ k. k.window) s.cfg in
    ground (arith, o.window, w, s.ack, s.queued, s.reported, s.bus, s.sent, r, l)

pub Between-SameWindow :
    {c d e : Connection} {expired : Option PacketQueueItem}
    → SameWindow d e
    → e.last_received < 128
    → e.last_seen < 128
    → IsQuiet e
    → Between c d expired
    → Between c e expired
Between-SameWindow {c} {d} {e} {expired} s r l q b = record {
  ordered = IsOrdered-SameWindow s b.ordered r l;
  sent = λ open_.
      let within = b.sent (sym s.bus ∙ open_) in ground (arith, s.ack, s.queued, s.sent, within);
  ttl = subst (λ v. All HasTtl v.requests) (sym (view-SameWindow s)) b.ttl;
  quiet = q;
  balance = ap (λ v. parcels (v, as_lost expired)) (view-SameWindow s) ∙ b.balance;
}

rx_sequence-SameWindow : (c : Connection) (p : Packet) → SameWindow c (rx_sequence c p).0
unfolding rx_sequence rx_ping_sequence rx_ahead rx_gap
rx_sequence-SameWindow c p = ground arith

rx_sequence-ids :
    (c : Connection) (p : Packet)
    → IsOrdered c
    → ((rx_sequence c p).0.last_received < 128) × ((rx_sequence c p).0.last_seen < 128)
unfolding rx_sequence rx_ping_sequence rx_ahead rx_gap
rx_sequence-ids c p o = ground (arith, o.received_id, o.seen_id)

pub IsSound-SameWindow :
    {c d : Connection}
    → SameWindow c d
    → d.last_received < 128
    → d.last_seen < 128
    → IsQuiet d
    → IsSound c
    → IsSound d
IsSound-SameWindow {c} {d} w r l q s = record {
  ordered = IsOrdered-SameWindow w s.ordered r l;
  sent = ground (arith, w.ack, w.queued, w.sent, s.sent);
  ttl = subst (λ v. All HasTtl v.requests) (sym (view-SameWindow w)) s.ttl;
  reported = ap (λ v. v.outcomes) (view-SameWindow w) ∙ s.reported;
  quiet = q;
}

-- Nothing of the queue's is changed: only the state, the timers and the counters of events.
pub unchanged-IsSound :
    {c d : Connection}
    → SameWindow c d
    → d.last_received ≡ c.last_received
    → d.last_seen ≡ c.last_seen
    → IsQuiet d
    → IsSound c
    → IsSound d
unchanged-IsSound w r l q s =
    IsSound-SameWindow w (omega (arith, r, s.ordered.received_id))
      (omega (arith, l, s.ordered.seen_id)) q s

watchdog_restart-IsSound : {c : Connection} → IsSound c → IsSound (watchdog_restart c)
watchdog_restart-IsSound {c} s =
    unchanged-IsSound (ground arith) refl refl
      (ground (arith, s.quiet.free, s.quiet.calls, s.quiet.no_confirm, s.quiet.no_u)) s

pub rx_sequences-Between :
    {c : Connection} (r : RxFlags) (p : Packet)
    → IsSound c
    → Between c (rx_sequences c r p).0 (rx_sequences c r p).1.expired
unfolding rx_sequences
rx_sequences-Between {c} r p s =
    let b = rx_handle_ack-Between p.ack_id (watchdog_restart-IsSound s) in
    let c₁ = (rx_handle_ack (watchdog_restart c) p.ack_id).0 in
    let ids = rx_sequence-ids c₁ p b.ordered in
    let k =
      Between-SameWindow (rx_sequence-SameWindow c₁ p) ids.0 ids.1 (rx_sequence-IsQuiet p b.quiet)
        b in
    record { ordered = k.ordered; sent = k.sent; ttl = k.ttl; quiet = k.quiet; balance = k.balance }
