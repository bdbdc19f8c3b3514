-- ===== src/Core/Transmit.antt =====
-- Transmission (src/lib/ludlc.c: ludlc_get_packet_to_send). The output pointers are not NULL.
pub mod Keep
pub mod Numbered
use ludlc.Prelude.{
  ℕ, Bool, true, false, not, ◌&&◌, ◌||◌, Option, none, some, List, [], ◌∷◌, ◌++◌, ◌==◌,
  if◌then◌else◌,
}
use ludlc.Core.State.{
  Connection, PacketQueueItem, PacketHdr, success, Ret, ret_ok, ret_last, enotconn, Effect,
  request_tx, armed, wait_conn_1, wait_conn_2, connected, control_channel, set_flag, next_id, slot,
}
use ludlc.Core.Report.{call_on_confirm?}
use ludlc.Core.Disconnect.{handle_disconnect}
use ludlc.Core.Ack.{rx_nak_untracked}

-- What the transport is handed: `hdr_sz` octets of the header, and the payload, which is the core's
-- copy, or the capabilities at their address.
pub data FramePayload : Type 0 where
  no_payload : FramePayload
  tx_copy : List ℕ → FramePayload
  capabilities : ℕ → ℕ → FramePayload

pub record Frame : Type 0 where
  pub hdr : PacketHdr
  pub hdr_sz : ℕ
  pub payload : FramePayload

-- What is chosen to be sent, under the lock: the connection, the item whose payload goes out, the
-- size of the header, whether the frame is the keep-alive PING, whether it is numbered, what is
-- returned, and whether a turn has been asked for.
pub record Choice : Type 0 where
  pub conn : Connection
  pub item : Option PacketQueueItem
  pub hdr_sz : ℕ
  pub ping : Bool
  pub numbered : Bool
  pub ret : Ret
  pub asked : Bool

-- A header with a TX id and a channel put in.
abbrev pub set_hdr : Connection → ℕ → ℕ → Connection
set_hdr c tx_id chan = record c { tx_hdr = record (c.tx_hdr) { tx_id = tx_id; hdr_chan = chan } }

-- The branch of an unnumbered packet that waits.
unfoldable pub send_unnumbered : Connection → Choice
send_unnumbered c =
    let c₁ = record c { flags = record (c.flags) { u_idle = true; u_done = false } } in
    record {
      conn = set_hdr c₁ (set_flag (next_id c.last_sent)) c.u_packet.chan;
      item = some c.u_packet;
      hdr_sz = 3;
      ping = false;
      numbered = false;
      ret = if c.last_sent == c.last_queued then ret_last else ret_ok;
      asked = true;
    }

-- The branch with nothing to send. `u_done` says that an unnumbered packet has just been confirmed.
unfoldable pub send_ping : Connection → Bool → Choice
send_ping c u_done = record {
  conn = set_hdr c (set_flag (next_id c.last_sent)) c.tx_hdr.hdr_chan;
  item = none;
  hdr_sz = 2;
  ping = not u_done;
  numbered = false;
  ret = ret_last;
  asked = false;
}

-- A new copy of the first packet unacknowledged may be charged for again, unless TTL_HOLD is set.
abbrev pub uncharge : Connection → Connection
uncharge c =
    if not (c.last_sent == c.last_ack)
    then c
    else if c.flags.ttl_hold
    then record c { flags = record (c.flags) { ttl_hold = false } }
    else record c { flags = record (c.flags) { ttl_charged = false } }

-- The branch of a packet from the queue.
unfoldable pub send_queued : Connection → Choice
send_queued c =
    let id = next_id c.last_sent in
    let it = c.packets_q (slot c id) in
    record {
      conn = record (uncharge (set_hdr c id it.chan)) { last_sent = id };
      item = some it;
      hdr_sz = 3;
      ping = false;
      numbered = true;
      ret = if id == c.last_queued then ret_last else ret_ok;
      asked = false;
    }

unfoldable pub choose : Connection → Bool → Choice
choose c u_done =
    if not c.flags.u_idle
    then send_unnumbered c
    else if c.last_sent == c.last_queued
    then send_ping c u_done
    else send_queued c

-- The ACK field, with a NAK if one is waiting or the keep-alive repeats one.
unfoldable pub put_ack : Connection → Bool → Connection
put_ack c ping =
    let nak = not c.flags.no_nak || (ping && c.flags.nak_out) in
    let ack = if nak then set_flag c.last_received else c.last_received in
    record c {
      tx_hdr = record (c.tx_hdr) { ack_id = ack };
      flags = record (c.flags) {
        no_nak = true;
        nak_out = nak || c.flags.nak_out;
        nak_tracked = not nak && c.flags.nak_tracked;
      };
    }

-- The first numbered packet after a NAK is the one to watch.
unfoldable pub track_nak : Connection → Bool → Connection
track_nak c numbered =
    if numbered && rx_nak_untracked c
    then record c { nak_track = c.last_sent; flags = record (c.flags) { nak_tracked = true } }
    else c

-- `memory p n` are the `n` octets at `p`, which memcpy reads.
abbrev pub copy_payload :
    (ℕ → ℕ → List ℕ) → Connection → Option PacketQueueItem → Connection × FramePayload
copy_payload memory c none = (c, no_payload)
copy_payload memory c (some it) =
    let octets = if it.size == 0 then [] else memory it.payload it.size in
    (record c { tx_payload = if it.size == 0 then c.tx_payload else octets }, tx_copy octets)

abbrev pub restart_ping_timer : Connection → Connection
restart_ping_timer c = record c { ping_timer = armed c.cfg.ping_time c.cfg.ping_time }

-- A frame of a link that is up.
unfoldable pub send_connected :
    (ℕ → ℕ → List ℕ) → Connection → Bool → Connection × Frame × Ret × Bool
send_connected memory c u_done =
    let ch = choose c u_done in
    let c₁ = track_nak (put_ack ch.conn ch.ping) ch.numbered in
    let (c₂, octets) = copy_payload memory c₁ ch.item in
    (
      restart_ping_timer c₂,
      record { hdr = c₂.tx_hdr; hdr_sz = ch.hdr_sz; payload = octets },
      ch.ret,
      ch.asked,
    )

-- A handshake step.
unfoldable pub send_handshake : Connection → Connection × Frame × Ret × Bool
send_handshake c =
    let hdr : PacketHdr = record { tx_id = c.conn_state; ack_id = 0; hdr_chan = control_channel } in
    let announces =
      (c.conn_state == wait_conn_1 || c.conn_state == wait_conn_2) && not (c.cb.caps_size == 0) in
    (
      restart_ping_timer (record c { tx_hdr = hdr }),
      record {
        hdr = hdr;
        hdr_sz = 3;
        payload = if announces then capabilities c.cb.caps c.cb.caps_size else no_payload;
      },
      ret_last,
      false,
    )

-- The frame, once the previous one is done with.
unfoldable pub send_frame : (ℕ → ℕ → List ℕ) → Connection → Bool → Connection × Frame × Ret × Bool
send_frame memory c u_done =
    if c.conn_state == connected then send_connected memory c u_done else send_handshake c

-- The start of the locked part: the unnumbered packet of the previous frame is done with. What
-- follows is whether a DISCONNECT was, and the packet to confirm.
unfoldable pub finish_u_packet : Connection → Connection × Bool × Option PacketQueueItem
finish_u_packet c =
    let c₁ = record c { flags = record (c.flags) { u_done = true } } in
    let it = record (c.u_packet) { result = success } in
    if c.flags.u_done
    then (c, false, none)
    else if c.flags.disc_after_tx
    then (c₁, true, none)
    else (record c₁ { u_packet = it }, false, some it)

abbrev pub is_some {ℓ} : {A : Type ℓ} → Option A → Bool
is_some none = false
is_some (some _) = true

-- What ludlc_get_packet_to_send returns, and does.
pub record Sent : Type 0 where
  pub conn : Connection
  pub frame : Option Frame
  pub ret : Ret
  pub effects : List Effect

-- ludlc_get_packet_to_send.
unfoldable pub get_packet_to_send : (ℕ → ℕ → List ℕ) → Connection → Sent
get_packet_to_send memory c =
    let (c₁, disc_done, u_sent) = finish_u_packet c in
    let (c₂, effects) = handle_disconnect c₁ in
    let (c₃, frame, ret, asked) = send_frame memory c₁ (is_some u_sent) in
    if disc_done
    then record { conn = c₂; frame = none; ret = enotconn; effects = effects }
    else record {
      conn = c₃;
      frame = some frame;
      ret = ret;
      effects = (if asked then request_tx ∷ [] else []) ++ call_on_confirm? c u_sent;
    }
