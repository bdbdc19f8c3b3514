-- ===== src/Core/Send/Gap.antt =====
-- Between the two locked parts of ludlc_get_packet_to_send that follow a DISCONNECT, the second being
-- ludlc_handle_disconnect's, another thread may call ludlc_send_urgent_data (src/lib/ludlc.c).
use ludlc.Prelude.{ℕ, ◌≤◌, ◌≡◌, ◌≢◌, true, false, arith}
use ludlc.Core.State.{Connection, ret_ok, connected}
use ludlc.Core.Channel.{is_ctrl_chan}
use ludlc.Core.Report.{seq_reset_if_drained}
use ludlc.Core.Disconnect.{on_disconnect_lock, close_session, sweep_queue, disconnect_locked}
use ludlc.Core.Transmit.{finish_u_packet}
use ludlc.Core.Send.{send_urgent_data}

-- Once the frame of a DISCONNECT is done with, on a link that is up and owes no unnumbered
-- confirmation, a valid urgent packet that another thread hands in before
-- ludlc_handle_disconnect takes the lock is accepted, and the end of the session then drops it:
-- no confirmation is owed for it, and the unnumbered slot is idle.
pub urgent_packet_lost :
    (c : Connection) (dst_chan buf size : ℕ)
    → (finish_u_packet c).1 ≡ true
    → c.conn_state ≡ connected
    → c.flags.u_idle ≡ true
    → c.flags.u_confirm_f ≡ false
    → buf ≢ 0
    → size ≢ 0
    → size ≤ c.cfg.max_payload
    → is_ctrl_chan c dst_chan ≡ false
    → let sent = send_urgent_data (finish_u_packet c).0 dst_chan buf size in
      let closed = disconnect_locked sent.0 in
      (sent.1 ≡ ret_ok)
      × (closed.1 ≡ true)
      × (closed.0.flags.u_confirm_f ≡ false)
      × (closed.0.flags.u_idle ≡ true)
      × (closed.0.flags.u_done ≡ true)
unfolding finish_u_packet send_urgent_data disconnect_locked on_disconnect_lock close_session
    sweep_queue seq_reset_if_drained is_ctrl_chan
urgent_packet_lost c dst_chan buf size done up idle none_owed b s fits plain =
    ground (arith, done, up, idle, none_owed, b, s, fits, plain)
