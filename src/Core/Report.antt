-- ===== src/Core/Report.antt =====
-- Reporting confirmations (src/lib/ludlc.c: ludlc_call_on_confirm, ludlc_seq_reset_if_drained,
-- ludlc_confirm_u_lock, ludlc_confirm_unlocked, of the multi-threaded build).
use ludlc.Prelude.{
  ℕ, zero, suc, ◌+◌, Bool, true, false, not, ◌||◌, Option, none, some, List, [], ◌∷◌, ◌++◌, ◌==◌,
  if◌then◌else◌,
}
use ludlc.Core.State.{
  Connection, PacketQueueItem, Effect, on_confirm, on_disconnect, next_id, id_sub, slot,
}

-- ludlc_call_on_confirm: `-(int)pkt->result` is the error reported.
abbrev pub call_on_confirm : Connection → PacketQueueItem → List Effect
call_on_confirm c pkt =
    if c.cb.has_on_confirm then on_confirm pkt.result pkt.chan pkt.payload pkt.size ∷ [] else []

-- The callbacks of a batch, in order.
abbrev pub call_on_confirms : Connection → List PacketQueueItem → List Effect
call_on_confirms c [] = []
call_on_confirms c (pkt ∷ pkts) = call_on_confirm c pkt ++ call_on_confirms c pkts

abbrev pub call_on_confirm? : Connection → Option PacketQueueItem → List Effect
call_on_confirm? c none = []
call_on_confirm? c (some pkt) = call_on_confirm c pkt

-- ludlc_call_on_disconnect.
abbrev pub call_on_disconnect : Connection → List Effect
call_on_disconnect c = if c.cb.has_on_disconnect then on_disconnect ∷ [] else []

-- ludlc_seq_reset_if_drained.
unfoldable pub seq_reset_if_drained : Connection → Connection
seq_reset_if_drained c =
    if not c.flags.bus_out || (not (c.last_reported == c.last_ack) || c.flags.u_confirm_f)
    then c
    else record c {
      last_reported = 0;
      last_sent = 0;
      last_queued = 0;
      last_ack = 0;
      last_received = 0;
      last_seen = 0;
      flags = record (c.flags) { bus_out = false };
    }

-- ludlc_confirm_u_lock.
abbrev pub confirm_u_lock : Connection → Connection
confirm_u_lock c = record c {
  u_confirm = c.u_packet;
  flags = record (c.flags) { u_confirm_f = true };
}

-- CONFIG_LUDLC_CONFIRM_BATCH.
abbrev pub confirm_batch : ℕ
confirm_batch = 8

-- The loop that fills a batch, over the room left in it.
unfoldable pub take_batch : ℕ → Connection → Connection × List PacketQueueItem
take_batch zero c = (c, [])
take_batch (suc room) c =
    let id = next_id c.last_reported in
    let rest = take_batch room (record c { last_reported = id }) in
    if c.last_reported == c.last_ack then (c, []) else (rest.0, c.packets_q (slot c id) ∷ rest.1)

-- The unnumbered confirmation that a pass takes.
abbrev pub take_u : Connection → Option PacketQueueItem
take_u c = if c.flags.u_confirm_f then some c.u_confirm else none

-- Its bit is then clear, as it is where there was none.
abbrev pub clear_u : Connection → Connection
clear_u c = record c { flags = record (c.flags) { u_confirm_f = false } }

-- What one pass has taken.
pub record Pass : Type 0 where
  pub conn : Connection
  pub u_pkt : Option PacketQueueItem
  pub batch : List PacketQueueItem

-- One turn under the lock, up to the test whether anything is left.
unfoldable pub confirm_pass : Connection → Pass
confirm_pass c =
    let (c₁, batch) = take_batch confirm_batch (clear_u c) in
    record { conn = seq_reset_if_drained c₁; u_pkt = take_u c; batch = batch }

-- `!n && !u_done`.
abbrev pub pass_empty : Option PacketQueueItem → List PacketQueueItem → Bool
pass_empty none [] = true
pass_empty none (_ ∷ _) = false
pass_empty (some _) _ = false

-- The loop of ludlc_confirm_unlocked, `report_busy` being this thread's.
unfoldable pub confirm_loop : ℕ → Connection → Connection × List Effect
confirm_loop zero c = (c, [])
confirm_loop (suc fuel) c =
    let p = confirm_pass c in
    let rest = confirm_loop fuel p.conn in
    if pass_empty p.u_pkt p.batch
    then (record (p.conn) { report_busy = false }, [])
    else (rest.0, call_on_confirm? c p.u_pkt ++ (call_on_confirms c p.batch ++ rest.1))

-- ludlc_confirm_unlocked. Each pass but the last takes the unnumbered confirmation or one of the
-- fewer than 128 numbered ones, so the fuel does for all of them.
unfoldable pub confirm_unlocked : Connection → Connection × List Effect
confirm_unlocked c =
    if c.report_busy
    then (c, [])
    else confirm_loop (id_sub c.last_ack c.last_reported + 3) (record c { report_busy = true })
