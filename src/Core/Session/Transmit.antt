-- ===== src/Core/Session/Transmit.antt =====
-- A frame taken by the transport (src/lib/ludlc.c: ludlc_get_packet_to_send).
use ludlc.Prelude.{
  ℕ, ◌≡◌, refl, ◌∙◌, ap, sym, Bool, true, false, Option, none, some, List, [], ◌∷◌, ◌++◌, map,
  arith, ◌==◌, if◌then◌else◌, Bool-cases, inl, inr, All,
}
use mathlib.Core.Path.{subst}
use ludlc.Core.State.{Connection, PacketQueueItem, request_tx, connected}
use ludlc.Core.Report.{call_on_confirm?}
use ludlc.Core.Transmit.{
  finish_u_packet, send_frame, send_connected, send_handshake, choose, send_unnumbered, send_ping,
  send_queued, put_ack, track_nak, get_packet_to_send, is_some, copy_payload, Sent,
}
use ludlc.Core.Transmit.Keep.{Kept, send_frame-Kept, finish_u_packet-Kept}
use ludlc.Core.Queue.{HasTtl}
use ludlc.Core.Queue.Balance.{of_request}
use ludlc.Core.Session.{IsSound, IsQuiet, pending, confirmed}
use ludlc.Core.Session.Settle.{Settled}
use ludlc.Core.Session.Calls.{handle_disconnect-Settled}

finish_u_packet-IsQuiet : {c : Connection} → IsQuiet c → IsQuiet (finish_u_packet c).0
unfolding finish_u_packet
finish_u_packet-IsQuiet {c} q = ground (arith, q.free, q.calls, q.no_confirm, q.no_u)

nothing_sent : {c : Connection} → IsQuiet c → (finish_u_packet c).2 ≡ none
unfolding finish_u_packet
nothing_sent {c} q = ground (arith, q.no_u)

choose-IsQuiet : (c : Connection) (u : Bool) → IsQuiet c → IsQuiet (choose c u).conn
unfolding choose send_unnumbered send_ping send_queued
choose-IsQuiet c u q = ground (arith, q.free, q.calls, q.no_confirm, q.no_u)

marked-IsQuiet :
    (c : Connection) (ping numbered : Bool)
    → IsQuiet c
    → IsQuiet (track_nak (put_ack c ping) numbered)
unfolding put_ack track_nak
marked-IsQuiet c ping numbered q = ground (arith, q.free, q.calls, q.no_confirm, q.no_u)

copied-IsQuiet :
    (memory : ℕ → ℕ → List ℕ) (c : Connection) (it : Option PacketQueueItem)
    → IsQuiet c
    → IsQuiet (copy_payload memory c it).0
copied-IsQuiet memory c none q = q
copied-IsQuiet memory c (some it) q = record {
  free = q.free;
  calls = q.calls;
  no_confirm = q.no_confirm;
  no_u = q.no_u;
}

send_connected-IsQuiet :
    (memory : ℕ → ℕ → List ℕ) (c : Connection) (u : Bool)
    → IsQuiet c
    → IsQuiet (send_connected memory c u).0
unfolding send_connected
send_connected-IsQuiet memory c u q =
    let ch = choose c u in
    let k =
      copied-IsQuiet memory _ ch.item
        (marked-IsQuiet ch.conn ch.ping ch.numbered (choose-IsQuiet c u q)) in
    record { free = k.free; calls = k.calls; no_confirm = k.no_confirm; no_u = k.no_u }

send_frame-IsQuiet :
    (memory : ℕ → ℕ → List ℕ) (c : Connection) (u : Bool)
    → IsQuiet c
    → IsQuiet (send_frame memory c u).0
unfolding send_frame send_handshake
send_frame-IsQuiet memory c u q = elim (Bool-cases (c.conn_state == connected)) [
  | inl e ↦ rw e (send_connected-IsQuiet memory c u q)
  | inr e ↦
      rw e (record { free = q.free; calls = q.calls; no_confirm = q.no_confirm; no_u = q.no_u })
]

-- The queue of a link kept, and quiet, is what it was.
Kept-IsSound : {c d : Connection} → Kept c d → IsQuiet d → IsSound c → IsSound d
Kept-IsSound {c} {d} k q s = record {
  ordered = k.ordered;
  sent = k.sent;
  ttl = subst (λ v. All HasTtl v.requests) (sym k.queue) s.ttl;
  reported = ap (λ v. v.outcomes) k.queue ∙ s.reported;
  quiet = q;
}

pending-Kept : {c d : Connection} → Kept c d → pending d ≡ pending c
pending-Kept k = ap (λ v. map of_request v.requests) k.queue

-- What the frame leaves and does.
record Frames (c : Connection) (out : Sent) : Type 0 where
  settled : Settled c out.conn out.effects

Frames-if :
    {c : Connection} (b : Bool) {x y : Sent}
    → Frames c x
    → Frames c y
    → Frames c (if b then x else y)
Frames-if true f _ = f
Frames-if false _ f = f

asked-confirmed :
    (c : Connection) (asked : Bool) {u : Option PacketQueueItem}
    → u ≡ none
    → confirmed ((if asked then request_tx ∷ [] else []) ++ call_on_confirm? c u) ≡ []
unfolding confirmed
asked-confirmed c true e = rw e refl
asked-confirmed c false e = rw e refl

module _ (memory : ℕ → ℕ → List ℕ) {c : Connection} (s : IsSound c) where
  finished-Kept : Kept c (finish_u_packet c).0
  finished-Kept = finish_u_packet-Kept s.ordered s.sent

  finished-IsSound : IsSound (finish_u_packet c).0
  finished-IsSound = Kept-IsSound finished-Kept (finish_u_packet-IsQuiet s.quiet) s

  u : Bool
  u = is_some (finish_u_packet c).2

  framed-IsSound : IsSound (send_frame memory (finish_u_packet c).0 u).0
  framed-IsSound =
      Kept-IsSound (send_frame-Kept memory u finished-IsSound.ordered finished-IsSound.sent)
        (send_frame-IsQuiet memory _ u finished-IsSound.quiet) finished-IsSound

  framed-pending : pending (send_frame memory (finish_u_packet c).0 u).0 ≡ pending c
  framed-pending =
      pending-Kept (send_frame-Kept memory u finished-IsSound.ordered finished-IsSound.sent)
      ∙ pending-Kept finished-Kept

  get_packet_to_send-Frames : Frames c (get_packet_to_send memory c)
  unfolding get_packet_to_send u
  get_packet_to_send-Frames =
      let closing = handle_disconnect-Settled finished-IsSound in
      Frames-if (finish_u_packet c).1
        (record {
          settled = record {
            sound = closing.sound;
            balance = sym (pending-Kept finished-Kept) ∙ closing.balance;
          };
        })
        (record {
          settled = record {
            sound = framed-IsSound;
            balance =
                sym framed-pending
                ∙ ap (λ ps. ps ++ pending (send_frame memory (finish_u_packet c).0 u).0)
                    (sym (
                      asked-confirmed c (send_frame memory (finish_u_packet c).0 u).3
                        (nothing_sent s.quiet)));
          };
        })

  -- A frame confirms nothing and leaves the queue pending, unless the frame before closed the session:
  -- then all is confirmed.
  pub get_packet_to_send-Settled :
      Settled c (get_packet_to_send memory c).conn (get_packet_to_send memory c).effects
  get_packet_to_send-Settled = get_packet_to_send-Frames.settled
