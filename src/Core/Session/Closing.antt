-- ===== src/Core/Session/Closing.antt =====
-- A session that the application or the watchdog ends (src/lib/ludlc.c: ludlc_handle_disconnect).
use ludlc.Prelude.{
  ◌≡◌, ◌≢◌, ◌∙◌, ap, sym, Bool, true, false, not, ◌&&◌, [], ◌++◌, map, arith, ◌==◌, if◌then◌else◌,
  append-nil,
}
use ludlc.Core.State.{Connection, disconnected, terminate}
use ludlc.Core.Report.{confirm_unlocked}
use ludlc.Core.Disconnect.{
  on_disconnect_lock, disconnect_locked, disconnect_core, handle_disconnect,
}
use ludlc.Core.Queue.Sweep.{view-on_disconnect_lock, on_disconnect_lock-IsOrdered}
use ludlc.Core.Queue.Drain.{confirm_unlocked-Drained}
use ludlc.Core.Queue.Balance.{of_request}
use ludlc.Core.Session.{IsSound, pending, confirmed}
use ludlc.Core.Session.Quiet.{on_disconnect_lock-IsQuiet}
use ludlc.Core.Session.Settle.{Settled}
use ludlc.Core.Session.Calls.{handle_disconnect-Settled}

pending-closed :
    {c : Connection} → IsSound c → pending (confirm_unlocked (on_disconnect_lock c)).0 ≡ []
pending-closed {c} s =
    let q = on_disconnect_lock-IsQuiet s.quiet in
    let d = confirm_unlocked-Drained (on_disconnect_lock-IsOrdered s.ordered) q.free in
    ap (map of_request) (d.kept ∙ ap (λ v. v.requests) (view-on_disconnect_lock s.ordered))

handle_disconnect-conn :
    (c : Connection)
    → c.conn_state ≢ disconnected
    → c.conn_state ≢ terminate
    → (handle_disconnect c).0 ≡ (confirm_unlocked (on_disconnect_lock c)).0
unfolding handle_disconnect disconnect_core disconnect_locked
handle_disconnect-conn c up running =
    let ends : (not (c.conn_state == disconnected) && not (c.conn_state == terminate)) ≡ true =
      ground (arith, up, running) in
    ap
      (λ b.
        let x : Connection × Bool = if b then (on_disconnect_lock c, true) else (c, false) in
        (confirm_unlocked x.0).0)
      ends

-- On a link in order with no urgent packet whose application takes confirmations, the end of a
-- session that is up or coming up confirms every pending packet, in order, and leaves none
-- pending.
pub handle_disconnect-confirms :
    {c : Connection}
    → IsSound c
    → c.conn_state ≢ disconnected
    → c.conn_state ≢ terminate
    → (confirmed (handle_disconnect c).1 ≡ pending c) × (pending (handle_disconnect c).0 ≡ [])
handle_disconnect-confirms {c} s up running = (
  sym (
      t.balance
      ∙ ap (λ ps. confirmed (handle_disconnect c).1 ++ ps) none
      ∙ append-nil (confirmed (handle_disconnect c).1)),
  none,
)
  where
    t : Settled c (handle_disconnect c).0 (handle_disconnect c).1
    t = handle_disconnect-Settled s

    none : pending (handle_disconnect c).0 ≡ []
    none = ap pending (handle_disconnect-conn c up running) ∙ pending-closed s
