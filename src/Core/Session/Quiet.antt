-- ===== src/Core/Session/Quiet.antt =====
-- The operations under the lock, with no unnumbered packet of the application's (src/lib/ludlc.c).
use ludlc.Prelude.{ℕ, zero, suc, ◌+◌, ◌-◌, ◌%◌, arith}
use ludlc.Core.State.{Connection}
use ludlc.Core.Disconnect.{on_disconnect_lock, sweep_queue, close_session}
use ludlc.Core.Report.{seq_reset_if_drained}
use ludlc.Core.Ack.{
  ack_one, ack_many, take_acks, give_up, charge, rx_handle_nak, rx_handle_ack, rx_gap,
}
use ludlc.Core.Receive.{Packet, rx_sequence, rx_ping_sequence, rx_ahead}
use ludlc.Core.Session.{IsQuiet}

ack_one-IsQuiet : {c : Connection} → IsQuiet c → IsQuiet (ack_one c)
unfolding ack_one
ack_one-IsQuiet q = record {
  free = q.free;
  calls = q.calls;
  no_confirm = ground (arith, q.no_confirm);
  no_u = ground (arith, q.no_u);
}

ack_many-IsQuiet : (n : ℕ) {c : Connection} → IsQuiet c → IsQuiet (ack_many n c)
unfolding ack_many
ack_many-IsQuiet zero q = q
ack_many-IsQuiet (suc n) q = ack_many-IsQuiet n (ack_one-IsQuiet q)

take_acks-IsQuiet : {c : Connection} (ack_id : ℕ) → IsQuiet c → IsQuiet (take_acks c ack_id)
unfolding take_acks
take_acks-IsQuiet {c} ack_id q =
    let a = ack_many-IsQuiet ((ack_id + 256 - c.last_ack) % 128) q in
    ground (arith, a.free, a.calls, a.no_confirm, a.no_u)

charge-IsQuiet : {c : Connection} → IsQuiet c → IsQuiet (charge c).0
unfolding charge give_up
charge-IsQuiet {c} q = ground (arith, q.free, q.calls, q.no_confirm, q.no_u)

rx_handle_nak-IsQuiet : {c : Connection} → IsQuiet c → IsQuiet (rx_handle_nak c).0
unfolding rx_handle_nak
rx_handle_nak-IsQuiet {c} q =
    let a = charge-IsQuiet q in
    ground (arith, a.free, a.calls, a.no_confirm, a.no_u, q.free, q.calls, q.no_confirm, q.no_u)

pub rx_handle_ack-IsQuiet :
    {c : Connection} (ack_id : ℕ) → IsQuiet c → IsQuiet (rx_handle_ack c ack_id).0
unfolding rx_handle_ack
rx_handle_ack-IsQuiet {c} ack_id q =
    let a = take_acks-IsQuiet ack_id q in
    let b = rx_handle_nak-IsQuiet a in
    ground (
      arith, a.free, a.calls, a.no_confirm, a.no_u, b.free, b.calls, b.no_confirm, b.no_u, q.free,
      q.calls, q.no_confirm, q.no_u,
    )

pub rx_sequence-IsQuiet : {c : Connection} (p : Packet) → IsQuiet c → IsQuiet (rx_sequence c p).0
unfolding rx_sequence rx_ping_sequence rx_ahead rx_gap
rx_sequence-IsQuiet {c} p q = ground (arith, q.free, q.calls, q.no_confirm, q.no_u)

pub on_disconnect_lock-IsQuiet : {c : Connection} → IsQuiet c → IsQuiet (on_disconnect_lock c)
unfolding on_disconnect_lock sweep_queue close_session seq_reset_if_drained
on_disconnect_lock-IsQuiet {c} q = ground (arith, q.free, q.calls, q.no_confirm, q.no_u)
