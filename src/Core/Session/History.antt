-- ===== src/Core/Session/History.antt =====
-- Histories of a link: calls of the core one after another, the packets they accept and those that
-- their callbacks confirm (src/lib/ludlc.c).
use ludlc.Prelude.{
  ℕ, ◌≡◌, ◌∙◌, ap, sym, true, List, [], ◌∷◌, ◌++◌, append_assoc, append-nil, map, Option, All,
}
use mathlib.Core.Path.{subst}
use ludlc.Core.State.{Connection, ConnCfg, ConnCb, Effect}
use ludlc.Core.Init.{PlatformAnswers, connection_init, opened}
use ludlc.Core.Init.Ready.{IsReady, connection_init-IsReady}
use ludlc.Core.Queue.{HasTtl}
use ludlc.Core.Disconnect.{handle_disconnect, connect}
use ludlc.Core.Send.{enqueue_data, send_disconnect}
use ludlc.Core.Transmit.{get_packet_to_send}
use ludlc.Core.Receive.{Packet, receive}
use ludlc.Core.Queue.Balance.{Parcel, of_request}
use ludlc.Core.Session.{IsSound, pending, confirmed}
use ludlc.Core.Session.Settle.{Settled}
use ludlc.Core.Session.Calls.{handle_disconnect-Settled, connect-Settled, send_disconnect-Settled}
use ludlc.Core.Session.Transmit.{get_packet_to_send-Settled}
use ludlc.Core.Session.Receive.{receive-Settled}
use ludlc.Core.Session.Enqueue.{accepted, enqueue_data-Queued}

-- A call of the core's, with its arguments: the application's, the transport's, or the watchdog's.
pub data Call : Type 0 where
  call_enqueue : ℕ → ℕ → ℕ → ℕ → Call
  call_send_disconnect : ℕ → Call
  call_connect : Call
  call_handle_disconnect : Call
  call_get_packet_to_send : Call
  call_receive : Packet → ℕ → Call

-- What calls leave: the connection, the packets that they accepted, and those that their callbacks
-- confirmed, both in order.
pub record Ledger : Type 0 where
  pub conn : Connection
  pub taken : List Parcel
  pub given : List Parcel

-- One call.
unfoldable pub perform : (ℕ → ℕ → List ℕ) → Connection → Call → Ledger
perform memory c (call_enqueue chan buf size ttl) =
    let (d, ret, effects) = enqueue_data c chan buf size ttl in
    record {
      conn = d;
      taken = accepted ret (record { payload = buf; size = size; chan = chan });
      given = confirmed effects;
    }
perform memory c (call_send_disconnect opcode) =
    let (d, _, effects) = send_disconnect opcode c in
    record { conn = d; taken = []; given = confirmed effects }
perform memory c call_connect =
    let (d, _, effects) = connect c in record { conn = d; taken = []; given = confirmed effects }
perform memory c call_handle_disconnect =
    let (d, effects) = handle_disconnect c in
    record { conn = d; taken = []; given = confirmed effects }
perform memory c call_get_packet_to_send =
    let s = get_packet_to_send memory c in
    record { conn = s.conn; taken = []; given = confirmed s.effects }
perform memory c (call_receive p tstamp) =
    let (d, effects) = receive c p tstamp in
    record { conn = d; taken = []; given = confirmed effects }

-- Calls one after another.
unfoldable pub perform_all : (ℕ → ℕ → List ℕ) → Connection → List Call → Ledger
perform_all memory c [] = record { conn = c; taken = []; given = [] }
perform_all memory c (call ∷ calls) =
    let first = perform memory c call in
    let rest = perform_all memory first.conn calls in
    record {
      conn = rest.conn;
      taken = first.taken ++ rest.taken;
      given = first.given ++ rest.given;
    }

-- What was pending or has been accepted has been confirmed or is pending, in the same order.
pub record Accounted (c : Connection) (l : Ledger) : Type 0 where
  pub sound : IsSound l.conn
  pub balance : pending c ++ l.taken ≡ l.given ++ pending l.conn

Settled-Accounted :
    {c d : Connection} {effects : List Effect}
    → Settled c d effects
    → Accounted c (record { conn = d; taken = []; given = confirmed effects })
Settled-Accounted {c} s = record { sound = s.sound; balance = append-nil (pending c) ∙ s.balance }

perform-Accounted :
    (memory : ℕ → ℕ → List ℕ) {c : Connection} (call : Call)
    → IsSound c
    → Accounted c (perform memory c call)
unfolding perform
perform-Accounted memory {c} (call_enqueue chan buf size ttl) s =
    let q = enqueue_data-Queued s chan buf size ttl in
    record {
      sound = q.sound;
      balance =
          sym q.added
          ∙ ap (λ ps. ps ++ pending (enqueue_data c chan buf size ttl).0) (sym q.silent);
    }
perform-Accounted memory (call_send_disconnect opcode) s =
    Settled-Accounted (send_disconnect-Settled opcode s)
perform-Accounted memory call_connect s = Settled-Accounted (connect-Settled s)
perform-Accounted memory call_handle_disconnect s = Settled-Accounted (handle_disconnect-Settled s)
perform-Accounted memory call_get_packet_to_send s =
    Settled-Accounted (get_packet_to_send-Settled memory s)
perform-Accounted memory (call_receive p tstamp) s = Settled-Accounted (receive-Settled p tstamp s)

Accounted-then :
    {c : Connection} {first rest : Ledger}
    → Accounted c first
    → Accounted first.conn rest
    → Accounted c (record {
      conn = rest.conn;
      taken = first.taken ++ rest.taken;
      given = first.given ++ rest.given;
    })
Accounted-then {c} {first} {rest} a b = record {
  sound = b.sound;
  balance =
      sym (append_assoc (pending c) first.taken rest.taken)
      ∙ ap (λ ps. ps ++ rest.taken) a.balance
      ∙ append_assoc first.given (pending first.conn) rest.taken
      ∙ ap (λ ps. first.given ++ ps) b.balance
      ∙ sym (append_assoc first.given rest.given (pending rest.conn));
}

-- Whatever calls follow one another, each with its callbacks before the next, on a link in order
-- with no urgent packet whose application takes confirmations, the packets that were pending and
-- those accepted since are, in this order, those that the callbacks have confirmed and then
-- those still pending: none is lost, confirmed twice, or confirmed before an earlier one. The
-- link is again in order.
pub perform_all-Accounted :
    (memory : ℕ → ℕ → List ℕ) {c : Connection} (calls : List Call)
    → IsSound c
    → Accounted c (perform_all memory c calls)
unfolding perform_all
perform_all-Accounted memory {c} [] s = record { sound = s; balance = append-nil (pending c) }
perform_all-Accounted memory {c = c} (call ∷ calls) s =
    let first = perform-Accounted memory call s in
    Accounted-then first
      (perform_all-Accounted memory {c = (perform memory c call).conn} calls first.sound)

pub ready-IsSound : {c : Connection} → IsReady c → c.cb.has_on_confirm ≡ true → IsSound c
ready-IsSound {c} r calls = record {
  ordered = r.ordered;
  sent = r.sent;
  ttl = subst (λ q. All HasTtl q.requests) (sym r.empty) tt;
  reported = ap (λ q. q.outcomes) r.empty;
  quiet = record { free = r.free; calls = calls; no_confirm = r.no_confirm; no_u = r.no_u };
}

-- From the opening of a link on, whatever calls follow, each with its callbacks before the next
-- and with no urgent packet among them, the packets accepted are those that the callbacks have
-- confirmed and then those still pending, in this order, if the application takes confirmations.
pub accepted_are_confirmed :
    (memory : ℕ → ℕ → List ℕ) (a : PlatformAnswers) (cfg : Option ConnCfg) (cb : ConnCb)
    (c : Connection) (calls : List Call)
    → connection_init a cfg cb ≡ opened c
    → c.cb.has_on_confirm ≡ true
    → (perform_all memory c calls).taken
      ≡ (perform_all memory c calls).given ++ pending (perform_all memory c calls).conn
accepted_are_confirmed memory a cfg cb c calls e takes =
    let r = connection_init-IsReady a cfg cb c e in
    let l = perform_all-Accounted memory calls (ready-IsSound r takes) in
    ap (λ q. map of_request q.requests ++ (perform_all memory c calls).taken) (sym r.empty)
    ∙ l.balance
