-- ===== src/Core/Session/Calls.antt =====
-- The operations that close a session (src/lib/ludlc.c: ludlc_handle_disconnect, ludlc_connect,
-- ludlc_send_disconnect).
use ludlc.Prelude.{
  ℕ, ◌≡◌, refl, ◌∙◌, ap, sym, Bool, true, false, not, ◌&&◌, none, List, [], ◌++◌, map, arith, ◌==◌,
  if◌then◌else◌, append-nil, Bool-cases, inl, inr,
}
use mathlib.Core.Path.{subst}
use ludlc.Core.State.{
  Connection, Ret, ret_ok, enotconn, eagain, Effect, disconnected, terminate, connected,
}
use ludlc.Core.Report.{confirm_unlocked, call_on_disconnect}
use ludlc.Core.Disconnect.{
  disconnect_locked, disconnect_core, handle_disconnect, connect_locked, connect, request_tx_if_ok,
}
use ludlc.Core.Send.{send_disconnect, send_disconnect_locked, take_u_slot}
use ludlc.Core.Queue.Balance.{of_request}
use ludlc.Core.Session.{IsSound, IsQuiet, Between, pending, confirmed}
use ludlc.Core.Session.Acknowledge.{SameWindow, view-SameWindow, untouched, unchanged-IsSound}
use ludlc.Core.Session.Close.{on_disconnect_lock-Between}
use ludlc.Core.Session.Settle.{Settled, Between-Settled, confirmed-append}

-- Callbacks that confirm nothing may follow.
pub Settled-append :
    {c d : Connection} {effects : List Effect} (more : List Effect)
    → confirmed more ≡ []
    → Settled c d effects
    → Settled c d (effects ++ more)
Settled-append {c} {d} {effects} more e s = record {
  sound = s.sound;
  balance =
      s.balance
      ∙ ap (λ ps. ps ++ pending d)
          (sym (
            confirmed-append effects more
            ∙ ap (λ ps. confirmed effects ++ ps) e
            ∙ append-nil (confirmed effects)));
}

pub confirmed-call_on_disconnect : (c : Connection) → confirmed (call_on_disconnect c) ≡ []
unfolding confirmed
confirmed-call_on_disconnect c = elim (Bool-cases c.cb.has_on_disconnect) [
  | inl e ↦ rw e refl
  | inr e ↦ rw e refl
]

confirmed-request_tx_if_ok : (ret : Ret) → confirmed (request_tx_if_ok ret) ≡ []
unfolding confirmed
confirmed-request_tx_if_ok ret_ok = refl
confirmed-request_tx_if_ok ret = refl

-- The callbacks of a locked part that gives no packet up.
confirmed_after :
    {c d : Connection} → Between c d none → Settled c (confirm_unlocked d).0 (confirm_unlocked d).1
confirmed_after {c} {d} b =
    subst (Settled c (confirm_unlocked d).0) (append-nil (confirm_unlocked d).1) (Between-Settled b)

disconnect_core-Settled :
    {c : Connection} → IsSound c → Settled c (disconnect_core c).0 (disconnect_core c).2
unfolding disconnect_core disconnect_locked
disconnect_core-Settled {c} s =
    elim (Bool-cases (not (c.conn_state == disconnected) && not (c.conn_state == terminate))) [
      | inl e ↦ rw e (confirmed_after (on_disconnect_lock-Between s))
      | inr e ↦ rw e (confirmed_after (untouched s))
    ]

pub handle_disconnect-Settled :
    {c : Connection} → IsSound c → Settled c (handle_disconnect c).0 (handle_disconnect c).1
unfolding handle_disconnect
handle_disconnect-Settled {c} s = elim (Bool-cases (disconnect_core c).1) [
  | inl e ↦ rw e (
      Settled-append (call_on_disconnect c) (confirmed-call_on_disconnect c)
        (disconnect_core-Settled s))
  | inr e ↦ rw e (disconnect_core-Settled s)
]

-- Nothing happens.
pub Settled-refl : {c : Connection} → IsSound c → Settled c c []
unfolding confirmed
Settled-refl s = record { sound = s; balance = refl }

-- What a locked part leaves that gives no packet up, and what an operation does.
record Leaves (c : Connection) (out : Connection × Ret) : Type 0 where
  between : Between c out.0 none

record Serves (c : Connection) (out : Connection × Ret × List Effect) : Type 0 where
  settled : Settled c out.0 out.2

Leaves-if :
    {c : Connection} (b : Bool) {x y : Connection × Ret}
    → Leaves c x
    → Leaves c y
    → Leaves c (if b then x else y)
Leaves-if true l _ = l
Leaves-if false _ l = l

Serves-if :
    {c : Connection} (b : Bool) {x y : Connection × Ret × List Effect}
    → Serves c x
    → Serves c y
    → Serves c (if b then x else y)
Serves-if true l _ = l
Serves-if false _ l = l

-- ludlc_connect and ludlc_send_disconnect after their locked parts.
Leaves-Serves :
    {c : Connection} {x : Connection × Ret}
    → Leaves c x
    → Serves c ((confirm_unlocked x.0).0, x.1, (confirm_unlocked x.0).1 ++ request_tx_if_ok x.1)
Leaves-Serves {c} {x} l = record {
  settled =
      Settled-append (request_tx_if_ok x.1) (confirmed-request_tx_if_ok x.1)
        (confirmed_after l.between);
}

connect_locked-Leaves : {c : Connection} → IsSound c → Leaves c (connect_locked c)
unfolding connect_locked
connect_locked-Leaves {c} s =
    Leaves-if (c.conn_state == terminate) (record { between = untouched s })
      (record { between = on_disconnect_lock-Between s })

connect-Serves : {c : Connection} → IsSound c → Serves c (connect c)
unfolding connect
connect-Serves {c} s =
    Serves-if (not c.flags.inited) (record { settled = Settled-refl s })
      (Leaves-Serves (connect_locked-Leaves s))

pub connect-Settled : {c : Connection} → IsSound c → Settled c (connect c).0 (connect c).2
connect-Settled s = let r = connect-Serves s in r.settled

-- What the DISCONNECT changes.
record Taken (c d : Connection) : Type 0 where
  window : SameWindow c d
  received : d.last_received ≡ c.last_received
  seen : d.last_seen ≡ c.last_seen
  quiet : IsQuiet d

take_u_slot-Taken :
    (opcode : ℕ) {c : Connection}
    → IsQuiet c
    → c.flags.u_done ≡ true
    → Taken c (take_u_slot opcode c)
unfolding take_u_slot
take_u_slot-Taken opcode {c} q done = ground (arith, q.free, q.calls, q.no_confirm, q.no_u, done)

take_u_slot-Between :
    (opcode : ℕ) {c : Connection}
    → IsSound c
    → c.flags.u_done ≡ true
    → Between c (take_u_slot opcode c) none
take_u_slot-Between opcode {c} s done =
    let t = take_u_slot-Taken opcode s.quiet done in
    let b = untouched (unchanged-IsSound t.window t.received t.seen t.quiet s) in
    record {
      ordered = b.ordered;
      sent = b.sent;
      ttl = b.ttl;
      quiet = b.quiet;
      balance = b.balance ∙ ap (λ v. map of_request v.requests) (view-SameWindow t.window);
    }

send_disconnect_locked-Leaves :
    (opcode : ℕ) {c : Connection} → IsSound c → Leaves c (send_disconnect_locked opcode c)
unfolding send_disconnect_locked
send_disconnect_locked-Leaves opcode {c} s = elim (Bool-cases c.flags.u_done) [
  | inl done ↦
      Leaves-if (not (c.conn_state == connected)) (record { between = untouched s })
        (Leaves-if (not c.flags.u_done) (record { between = untouched s })
          (record { between = take_u_slot-Between opcode s done }))
  | inr busy ↦
      subst
        (λ b. Leaves c (
          if not (c.conn_state == connected)
          then (c, enotconn)
          else if not b
          then (c, eagain)
          else (take_u_slot opcode c, ret_ok)))
        (sym busy)
        (Leaves-if (not (c.conn_state == connected)) (record { between = untouched s })
          (record { between = untouched s }))
]

send_disconnect-Serves :
    (opcode : ℕ) {c : Connection} → IsSound c → Serves c (send_disconnect opcode c)
unfolding send_disconnect
send_disconnect-Serves opcode s = Leaves-Serves (send_disconnect_locked-Leaves opcode s)

pub send_disconnect-Settled :
    (opcode : ℕ) {c : Connection}
    → IsSound c
    → Settled c (send_disconnect opcode c).0 (send_disconnect opcode c).2
send_disconnect-Settled opcode s = let r = send_disconnect-Serves opcode s in r.settled
