-- ===== src/Core/Session/Packet.antt =====
-- A packet received, under the lock (src/lib/ludlc.c: rx_handle_packet).
use ludlc.Prelude.{
  ◌≡◌, refl, ◌∙◌, ap, sym, Bool, true, false, not, ◌&&◌, none, map, arith, ◌==◌, if◌then◌else◌,
}
use mathlib.Core.Path.{subst}
use ludlc.Core.State.{
  Connection, connected, control_channel, ctrl_disconnect, wait_conn_2, id_mask, watchdog_restart,
  inc_dropped,
}
use ludlc.Core.Disconnect.{u_outstanding}
use ludlc.Core.Handshake.{RxFlags, no_flags, rx_handle_handshake}
use ludlc.Core.Receive.{
  Packet, is_unnumbered, is_hshake, first_octet, is_malformed, rx_connected, rx_unconnected,
  rx_handle_packet, rx_sequences,
}
use ludlc.Core.Queue.Balance.{of_request}
use ludlc.Core.Session.{IsSound, Between, pending}
use ludlc.Core.Session.Acknowledge.{
  SameWindow, view-SameWindow, untouched, unchanged-IsSound, rx_sequences-Between,
}
use ludlc.Core.Session.Close.{on_disconnect_lock-Between}

-- What a locked part leaves, of the packets that `c` had pending.
record Leaves (c : Connection) (out : Connection × RxFlags) : Type 0 where
  between : Between c out.0 out.1.expired

Leaves-if :
    {c : Connection} (b : Bool) {x y : Connection × RxFlags}
    → Leaves c x
    → Leaves c y
    → Leaves c (if b then x else y)
Leaves-if true l _ = l
Leaves-if false _ l = l

Leaves-expired :
    {c d : Connection} (r : RxFlags) → r.expired ≡ none → Between c d none → Leaves c (d, r)
Leaves-expired {c} {d} r e b = record { between = subst (Between c d) (sym e) b }

sequences-Leaves :
    {c : Connection} (r : RxFlags) (p : Packet) → IsSound c → Leaves c (rx_sequences c r p)
sequences-Leaves r p s = record { between = rx_sequences-Between r p s }

Leaves-from :
    {c d : Connection} {out : Connection × RxFlags}
    → pending d ≡ pending c
    → Leaves d out
    → Leaves c out
Leaves-from same l =
    let b = l.between in
    record {
      between = record {
        ordered = b.ordered;
        sent = b.sent;
        ttl = b.ttl;
        quiet = b.quiet;
        balance = b.balance ∙ same;
      };
    }

rx_connected-Leaves :
    {c : Connection} (r : RxFlags) (p : Packet)
    → r.expired ≡ none
    → IsSound c
    → Leaves c (rx_connected c r p)
unfolding rx_connected
rx_connected-Leaves {c} r p e s =
    Leaves-if
      (is_unnumbered p && (p.chan == control_channel && first_octet p.payload == ctrl_disconnect))
      (Leaves-expired (record r { disconnect_f = true }) e (on_disconnect_lock-Between s))
      (Leaves-if (not (is_hshake p)) (sequences-Leaves r p s) (
        Leaves-if (id_mask p.tx_id == wait_conn_2)
          (Leaves-expired (record r { request_tx_f = true }) e (untouched s))
          (Leaves-expired (record r { request_tx_f = true; disconnect_f = true }) e
            (on_disconnect_lock-Between s))))

-- The connection once the handshake has looked at a packet.
abbrev after_handshake : Connection → Packet → Connection × RxFlags
after_handshake c p =
    let (c₁, r) = rx_handle_handshake c p.tx_id (is_hshake p) in
    (if r.connected_f then watchdog_restart c₁ else c₁, r)

-- What the handshake leaves of a link.
record Shaken (c : Connection) (out : Connection × RxFlags) : Type 0 where
  window : SameWindow c out.0
  received : out.0.last_received ≡ c.last_received
  seen : out.0.last_seen ≡ c.last_seen
  expired : out.1.expired ≡ none
  free : out.0.report_busy ≡ c.report_busy
  cb : out.0.cb ≡ c.cb
  no_confirm : out.0.flags.u_confirm_f ≡ c.flags.u_confirm_f
  no_u : u_outstanding out.0.flags ≡ u_outstanding c.flags

after_handshake-Shaken : (c : Connection) (p : Packet) → Shaken c (after_handshake c p)
unfolding rx_handle_handshake
after_handshake-Shaken c p = ground arith

after_handshake-IsSound :
    {c : Connection} (p : Packet) → IsSound c → IsSound (after_handshake c p).0
after_handshake-IsSound {c} p s =
    unchanged-IsSound h.window h.received h.seen
      (record {
        free = h.free ∙ s.quiet.free;
        calls = ap (λ b. b.has_on_confirm) h.cb ∙ s.quiet.calls;
        no_confirm = h.no_confirm ∙ s.quiet.no_confirm;
        no_u = h.no_u ∙ s.quiet.no_u;
      })
      s
  where
    h : Shaken c (after_handshake c p)
    h = after_handshake-Shaken c p

pending-after_handshake :
    (c : Connection) (p : Packet) → pending (after_handshake c p).0 ≡ pending c
pending-after_handshake c p =
    let h = after_handshake-Shaken c p in
    ap (λ v. map of_request v.requests) (view-SameWindow h.window)

rx_unconnected-Leaves : {c : Connection} (p : Packet) → IsSound c → Leaves c (rx_unconnected c p)
unfolding rx_unconnected
rx_unconnected-Leaves {c} p s =
    let (c₁, r) = after_handshake c p in
    let sound = after_handshake-IsSound p s in
    let expired = (after_handshake-Shaken c p).expired in
    Leaves-if r.continue_f
      (Leaves-from (pending-after_handshake c p) (rx_connected-Leaves r p expired sound))
      (Leaves-from (pending-after_handshake c p) (Leaves-expired r expired (untouched sound)))

dropped-Leaves : {c : Connection} → IsSound c → Leaves c (inc_dropped c, no_flags)
dropped-Leaves {c} s = Leaves-from refl (
    Leaves-expired no_flags refl (
      untouched (
        unchanged-IsSound {d = inc_dropped c} (ground arith) refl refl
          (ground (arith, s.quiet.free, s.quiet.calls, s.quiet.no_confirm, s.quiet.no_u)) s)))

handled-Leaves : {c : Connection} (p : Packet) → IsSound c → Leaves c (rx_handle_packet c p)
unfolding rx_handle_packet
handled-Leaves {c} p s = Leaves-if (is_malformed c p) (dropped-Leaves s) (
    Leaves-if (c.conn_state == connected) (rx_connected-Leaves no_flags p refl s)
      (rx_unconnected-Leaves p s))

-- rx_handle_packet resolves packets in order, or gives up the next one, and loses none.
pub rx_handle_packet-Between :
    {c : Connection} (p : Packet)
    → IsSound c
    → Between c (rx_handle_packet c p).0 (rx_handle_packet c p).1.expired
rx_handle_packet-Between p s = let l = handled-Leaves p s in l.between
