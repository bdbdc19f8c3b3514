-- ===== src/Core/Disconnect.antt =====
-- The ways a session ends (src/lib/ludlc.c: on_disconnect_lock, ludlc_disconnect_core,
-- ludlc_handle_disconnect, ludlc_connect). A NULL connection has no model.
use ludlc.Prelude.{
  ℕ, zero, suc, ◌%◌, Bool, true, false, not, ◌&&◌, ◌||◌, List, [], ◌∷◌, ◌++◌, ◌==◌, if◌then◌else◌,
  update,
}
use ludlc.Core.State.{
  Connection, PacketQueueItem, Flags, Errno, epipe, Ret, ret_ok, einval, eshutdown, Effect,
  request_tx, stopped, disconnected, terminate, next_id, id_sub, inc_on_disconn,
}
use ludlc.Core.Report.{seq_reset_if_drained, confirm_unlocked, call_on_disconnect}

-- `packets_q[i & mask].result = e`.
abbrev pub set_result : (ℕ → PacketQueueItem) → ℕ → Errno → ℕ → PacketQueueItem
set_result q i e = update q i (record (q i) { result = e })

-- The loop over the packets after `i` that fails them, `cnt` of them, in a window of `w` slots.
-- What is left for the callbacks is their slots, see ludlc_confirm_queued_lock.
unfoldable pub fail_pending : ℕ → ℕ → ℕ → (ℕ → PacketQueueItem) → ℕ → PacketQueueItem
fail_pending w i zero q = q
fail_pending w i (suc cnt) q = fail_pending w (next_id i) cnt (set_result q (next_id i % w) epipe)

-- Whether the unnumbered packet is a caller's, and still owed a confirmation.
abbrev pub u_outstanding : Flags → Bool
u_outstanding f = (not f.u_idle || not f.u_done) && not f.disc_after_tx

-- The flags after on_disconnect_lock has set BUS_OUT, saved the unnumbered confirmation if there is
-- one, set LUDLC_CONN_IDLE_MASK and cleared LUDLC_CONN_SWEEP_CLEAR_MASK.
abbrev pub sweep_flags : Flags → Flags
sweep_flags f = record {
  no_nak = true;
  inited = f.inited;
  disc_after_tx = false;
  u_idle = true;
  u_done = true;
  bus_out = true;
  u_confirm_f = u_outstanding f || f.u_confirm_f;
  nak_out = false;
  nak_tracked = false;
  ttl_charged = false;
  ttl_hold = false;
}

-- on_disconnect_lock up to the sweep of the queue.
unfoldable pub close_session : Connection → Connection
close_session c =
    let failed = record (c.u_packet) { result = epipe } in
    record c {
      ping_timer = stopped;
      wd_timer = stopped;
      conn_state = disconnected;
      u_packet = if u_outstanding c.flags then failed else c.u_packet;
      u_confirm = if u_outstanding c.flags then failed else c.u_confirm;
      flags = sweep_flags c.flags;
    }

-- The sweep of the queue.
unfoldable pub sweep_queue : Connection → Connection
sweep_queue c = record c {
  packets_q = fail_pending c.cfg.window c.last_ack (id_sub c.last_queued c.last_ack) c.packets_q;
  last_ack = c.last_queued;
}

-- on_disconnect_lock.
unfoldable pub on_disconnect_lock : Connection → Connection
on_disconnect_lock c = inc_on_disconn (seq_reset_if_drained (sweep_queue (close_session c)))

-- The locked part of ludlc_disconnect_core, and whether to notify.
unfoldable pub disconnect_locked : Connection → Connection × Bool
disconnect_locked c =
    if not (c.conn_state == disconnected) && not (c.conn_state == terminate)
    then (on_disconnect_lock c, true)
    else (c, false)

-- ludlc_disconnect_core.
unfoldable pub disconnect_core : Connection → Connection × Bool × List Effect
disconnect_core c =
    let (c₁, notify) = disconnect_locked c in
    let (c₂, effects) = confirm_unlocked c₁ in (c₂, notify, effects)

-- ludlc_handle_disconnect.
unfoldable pub handle_disconnect : Connection → Connection × List Effect
handle_disconnect c =
    let (c₁, notify, effects) = disconnect_core c in
    (c₁, if notify then effects ++ call_on_disconnect c else effects)

-- The locked part of ludlc_connect.
unfoldable pub connect_locked : Connection → Connection × Ret
connect_locked c =
    if c.conn_state == terminate then (c, eshutdown) else (on_disconnect_lock c, ret_ok)

abbrev pub request_tx_if_ok : Ret → List Effect
request_tx_if_ok ret_ok = request_tx ∷ []
request_tx_if_ok _ = []

-- ludlc_connect.
unfoldable pub connect : Connection → Connection × Ret × List Effect
connect c =
    if not c.flags.inited
    then (c, einval, [])
    else let (c₁, ret) = connect_locked c in
      let (c₂, effects) = confirm_unlocked c₁ in (c₂, ret, effects ++ request_tx_if_ok ret)
