-- ===== src/Core/Send.antt =====
-- What a caller hands in (src/lib/ludlc.c: ludlc_tx_queue_full, ludlc_enqueue_data,
-- ludlc_send_urgent_data, ludlc_send_disconnect). A NULL connection has no model.
pub mod Gap
use ludlc.Prelude.{
  ℕ, Bool, true, false, not, ◌&&◌, ◌||◌, List, [], ◌∷◌, ◌++◌, ltb, leb, ◌==◌, if◌then◌else◌, update,
}
use ludlc.Core.State.{
  Connection, ecanceled, Ret, ret_ok, einval, eagain, enotconn, Effect, request_tx, connected,
  control_channel, max_ttl, next_id, id_sub, slot,
}
use ludlc.Core.Channel.{is_ctrl_chan}
use ludlc.Core.Report.{confirm_u_lock, confirm_unlocked}
use ludlc.Core.Disconnect.{request_tx_if_ok}

-- ludlc_tx_queue_full.
unfoldable pub tx_queue_full : Connection → Bool
tx_queue_full c = leb c.cfg.window (id_sub c.last_queued c.last_reported)

-- The bounds that ludlc_enqueue_data puts on a TTL.
abbrev pub clamp_ttl : ℕ → ℕ
clamp_ttl ttl = if ltb max_ttl ttl then max_ttl else if ttl == 0 then 1 else ttl

-- Populating the slot keeps the `result` that stands in it.
unfoldable pub enqueue_slot : Connection → ℕ → ℕ → ℕ → ℕ → Connection
enqueue_slot c dst_chan buf size ttl =
    let id = next_id c.last_queued in
    let i = slot c id in
    let it = record (c.packets_q i) { chan = dst_chan; ttl = ttl; payload = buf; size = size } in
    record c { packets_q = update c.packets_q i it; last_queued = id }

-- ludlc_enqueue_data.
unfoldable pub enqueue_data : Connection → ℕ → ℕ → ℕ → ℕ → Connection × Ret × List Effect
enqueue_data c dst_chan buf size ttl =
    if buf == 0 && not (size == 0)
    then (c, einval, [])
    else if is_ctrl_chan c dst_chan
    then (c, einval, [])
    else if ltb c.cfg.max_payload size
    then (c, einval, [])
    else if c.flags.bus_out
    then (c, eagain, [])
    else if not (tx_queue_full c)
    then (enqueue_slot c dst_chan buf size (clamp_ttl ttl), ret_ok, request_tx ∷ [])
    else (c, eagain, [])

-- ludlc_send_urgent_data.
unfoldable pub send_urgent_data : Connection → ℕ → ℕ → ℕ → Connection × Ret × List Effect
send_urgent_data c dst_chan buf size =
    if buf == 0 || (size == 0 || ltb c.cfg.max_payload size)
    then (c, einval, [])
    else if is_ctrl_chan c dst_chan
    then (c, einval, [])
    else if not (c.conn_state == connected)
    then (c, enotconn, [])
    else if not c.flags.u_idle || not c.flags.u_done
    then (c, eagain, [])
    else (
      record c {
        u_packet = record (c.u_packet) { chan = dst_chan; payload = buf; size = size };
        flags = record (c.flags) { u_idle = false };
      },
      ret_ok,
      request_tx ∷ [],
    )

-- The DISCONNECT taking the unnumbered slot. `opcode` is the address of the core's constant octet.
unfoldable pub take_u_slot : ℕ → Connection → Connection
take_u_slot opcode c =
    let c₁ =
      if not c.flags.u_idle && not c.flags.disc_after_tx
      then confirm_u_lock (record c { u_packet = record (c.u_packet) { result = ecanceled } })
      else c in
    record c₁ {
      u_packet = record (c₁.u_packet) { chan = control_channel; payload = opcode; size = 1 };
      flags = record (c₁.flags) { disc_after_tx = true; u_idle = false };
    }

-- The locked part of ludlc_send_disconnect.
unfoldable pub send_disconnect_locked : ℕ → Connection → Connection × Ret
send_disconnect_locked opcode c =
    if not (c.conn_state == connected)
    then (c, enotconn)
    else if not c.flags.u_done
    then (c, eagain)
    else (take_u_slot opcode c, ret_ok)

-- ludlc_send_disconnect.
unfoldable pub send_disconnect : ℕ → Connection → Connection × Ret × List Effect
send_disconnect opcode c =
    let (c₁, ret) = send_disconnect_locked opcode c in
    let (c₂, effects) = confirm_unlocked c₁ in (c₂, ret, effects ++ request_tx_if_ok ret)
