-- ===== src/Core/Session/Receive.antt =====
-- The callbacks that follow a packet received (src/lib/ludlc.c: ludlc_receive).
use ludlc.Prelude.{
  ℕ, ◌≡◌, refl, ◌∙◌, ap, ap₂, sym, Bool, true, false, ◌&&◌, Option, none, some, List, [], ◌∷◌, ◌++◌,
  arith, if◌then◌else◌, append-nil, append_assoc,
}
use mathlib.Core.Path.{subst}
use ludlc.Core.State.{
  Connection, PacketQueueItem, Effect, on_connect, on_caps, on_recv, request_tx, on_disconnect,
  inc_on_conn,
}
use ludlc.Core.Report.{confirm_unlocked, call_on_confirm?, call_on_disconnect}
use ludlc.Core.Handshake.{RxFlags}
use ludlc.Core.Receive.{Packet, rx_handle_packet, receive_unlocked, receive, when}
use ludlc.Core.Session.{IsSound, Between, pending, confirmed}
use ludlc.Core.Session.Settle.{Settled, Between-Settled, confirmed-append}
use ludlc.Core.Session.Packet.{rx_handle_packet-Between}

counted-Between :
    {c d : Connection} {expired : Option PacketQueueItem} (b : Bool)
    → Between c d expired
    → Between c (if b then inc_on_conn d else d) expired
counted-Between true b = record {
  ordered = ground (
    arith, b.ordered.window, b.ordered.reported_id, b.ordered.ack_id, b.ordered.sent_id,
    b.ordered.queued_id, b.ordered.received_id, b.ordered.seen_id, b.ordered.room, b.ordered.closed,
  );
  sent = b.sent;
  ttl = b.ttl;
  quiet = record {
    free = b.quiet.free;
    calls = b.quiet.calls;
    no_confirm = b.quiet.no_confirm;
    no_u = b.quiet.no_u;
  };
  balance = b.balance;
}
counted-Between false b = b

-- No callback of these confirms a packet.
no_confirmation :
    (b : Bool) (x : Effect) → confirmed (x ∷ []) ≡ [] → confirmed (when b (x ∷ [])) ≡ []
unfolding confirmed
no_confirmation true x e = e
no_confirmation false x e = refl

skip : (xs ys : List Effect) → confirmed xs ≡ [] → confirmed (xs ++ ys) ≡ confirmed ys
skip xs ys e = confirmed-append xs ys ∙ ap (λ ps. ps ++ confirmed ys) e

counted-callback :
    (b : Bool) (d : Connection) (expired : Option PacketQueueItem)
    → call_on_confirm? (if b then inc_on_conn d else d) expired ≡ call_on_confirm? d expired
counted-callback true d none = refl
counted-callback true d (some it) = refl
counted-callback false d expired = refl

no_disconnection : (b h : Bool) → confirmed (when b (if h then on_disconnect ∷ [] else [])) ≡ []
unfolding confirmed
no_disconnection true true = refl
no_disconnection true false = refl
no_disconnection false h = refl

receive_unlocked-conn :
    (c : Connection) (r : RxFlags) (p : Packet) (tstamp : ℕ)
    → (confirm_unlocked (if r.connected_f then inc_on_conn c else c)).0
      ≡ (receive_unlocked c r p tstamp).0
unfolding receive_unlocked
receive_unlocked-conn c r p tstamp = refl

-- Of the callbacks of ludlc_receive, those that confirm packets.
receive_unlocked-confirmed :
    (c : Connection) (r : RxFlags) (p : Packet) (tstamp : ℕ)
    → let d = if r.connected_f then inc_on_conn c else c in
      confirmed (receive_unlocked c r p tstamp).1
      ≡ confirmed ((confirm_unlocked d).1 ++ call_on_confirm? d r.expired)
unfolding receive_unlocked confirmed
receive_unlocked-confirmed c r p tstamp =
    skip (when (r.caps_f && c.cb.has_on_caps) (on_caps p.payload ∷ [])) _
      (no_confirmation (r.caps_f && c.cb.has_on_caps) (on_caps p.payload) refl)
    ∙ skip (when (r.connected_f && c.cb.has_on_connect) (on_connect ∷ [])) _
        (no_confirmation (r.connected_f && c.cb.has_on_connect) on_connect refl)
    ∙ skip (when r.request_tx_f (request_tx ∷ [])) _
        (no_confirmation r.request_tx_f request_tx refl)
    ∙ ap confirmed (sym (append_assoc calls (call_on_confirm? c r.expired) rest))
    ∙ confirmed-append (calls ++ call_on_confirm? c r.expired) rest
    ∙ ap (λ ps. confirmed (calls ++ call_on_confirm? c r.expired) ++ ps) none_in_rest
    ∙ append-nil (confirmed (calls ++ call_on_confirm? c r.expired))
    ∙ ap (λ fx. confirmed (calls ++ fx)) (sym (counted-callback r.connected_f c r.expired))
  where
    calls : List Effect
    calls = (confirm_unlocked (if r.connected_f then inc_on_conn c else c)).1

    rest : List Effect
    rest =
        when r.disconnect_f (call_on_disconnect c)
        ++ when (r.accept_f && c.cb.has_on_recv) (on_recv p.chan p.payload tstamp ∷ [])

    none_in_rest : confirmed rest ≡ []
    none_in_rest =
        skip (when r.disconnect_f (call_on_disconnect c)) _
          (no_disconnection r.disconnect_f c.cb.has_on_disconnect)
        ∙ no_confirmation (r.accept_f && c.cb.has_on_recv) (on_recv p.chan p.payload tstamp) refl

-- On a link in order with no urgent packet whose application takes confirmations, ludlc_receive
-- confirms the packets that leave its queue, in order, and leaves the others pending. The link
-- is again in order.
pub receive-Settled :
    {c : Connection} (p : Packet) (tstamp : ℕ)
    → IsSound c
    → Settled c (receive c p tstamp).0 (receive c p tstamp).1
unfolding receive
receive-Settled {c} p tstamp s = record {
  sound = subst IsSound (receive_unlocked-conn d r p tstamp) t.sound;
  balance =
      t.balance
      ∙ ap₂ (λ ps e. ps ++ pending e) (sym (receive_unlocked-confirmed d r p tstamp))
          (receive_unlocked-conn d r p tstamp);
}
  where
    d : Connection
    d = (rx_handle_packet c p).0

    r : RxFlags
    r = (rx_handle_packet c p).1

    c₁ : Connection
    c₁ = if r.connected_f then inc_on_conn d else d

    t : Settled c (confirm_unlocked c₁).0 ((confirm_unlocked c₁).1 ++ call_on_confirm? c₁ r.expired)
    t = Between-Settled (counted-Between r.connected_f (rx_handle_packet-Between p s))
