-- ===== src/Core/Receive.antt =====
-- Reception (src/lib/ludlc.c: rx_handle_packet, ludlc_receive).
pub mod Step
pub mod Order
use ludlc.Prelude.{
  ℕ, ◌+◌, ◌-◌, ◌%◌, Bool, true, false, not, ◌&&◌, ◌||◌, List, [], ◌∷◌, ◌++◌, ltb, leb, ◌==◌,
  if◌then◌else◌,
}
use ludlc.Core.State.{
  Connection, Effect, request_tx, on_connect, on_caps, on_recv, connected, wait_conn_2,
  control_channel, ctrl_disconnect, is_ping, id_mask, inc_dropped, inc_on_conn, watchdog_restart,
}
use ludlc.Core.Report.{confirm_unlocked, call_on_confirm?, call_on_disconnect}
use ludlc.Core.Disconnect.{on_disconnect_lock}
use ludlc.Core.Channel.{is_ctrl_chan}
use ludlc.Core.Ack.{rx_nak_answered, rx_gap, rx_handle_ack}
use ludlc.Core.Handshake.{RxFlags, no_flags, rx_handle_handshake}

-- A packet as received: ludlc_packet_t in a buffer, with `pkt_sz`. `data` is what follows the
-- 3 octets of the header; a bare PING, of 2 octets, has no `chan` and no `data`.
pub record Packet : Type 0 where
  pub tx_id : ℕ
  pub ack_id : ℕ
  pub chan : ℕ
  pub payload : List ℕ
  pub pkt_sz : ℕ

-- sizeof(ludlc_packet_hdr_t).
abbrev pub hdr_size : ℕ
hdr_size = 3

-- `u_packet` of rx_handle_packet: an unnumbered packet.
abbrev pub is_unnumbered : Packet → Bool
is_unnumbered p = is_ping p.tx_id && ltb hdr_size p.pkt_sz

-- Whether the packet is a handshake step.
abbrev pub is_hshake : Packet → Bool
is_hshake p = not (is_ping p.tx_id) && p.chan == control_channel

-- `packet->payload[0]`.
abbrev pub first_octet : List ℕ → ℕ
first_octet [] = 0
first_octet (x ∷ _) = x

-- A packet that rx_handle_packet drops before anything else: too short, or a control packet with a
-- tag.
abbrev pub is_malformed : Connection → Packet → Bool
is_malformed c p =
    (not (is_ping p.tx_id) && ltb p.pkt_sz hdr_size)
    || ((is_unnumbered p || not (is_ping p.tx_id))
        && (not (p.chan == control_channel) && is_ctrl_chan c p.chan))

-- How far past the next packet expected an ID is.
abbrev pub ahead_of : Connection → ℕ → ℕ
ahead_of c id = (id + 256 - c.last_received - 1) % 128

-- Step 2 of rx_handle_packet, on a PING or an unnumbered packet.
unfoldable pub rx_ping_sequence : Connection → Packet → Connection × RxFlags
rx_ping_sequence c p =
    let id = id_mask p.tx_id in
    let ahead = ahead_of c id in
    let (c₁, ask) =
      if ahead == 0 || ltb c.cfg.window ahead then (rx_nak_answered c, false) else rx_gap c false in
    (
      record c₁ { last_seen = (id + 255) % 128 },
      record no_flags { request_tx_f = ask; accept_f = is_unnumbered p },
    )

-- The next packet of the sequence.
abbrev pub rx_next : Connection → ℕ → Connection
rx_next c id = record c {
  last_received = id;
  last_seen = id;
  flags = record (c.flags) { no_nak = true; nak_out = false; nak_tracked = false };
}

-- A packet sent after others that went missing.
unfoldable pub rx_ahead : Connection → ℕ → Connection × RxFlags
rx_ahead c id =
    let ahead = ahead_of c id in
    let last = ahead_of c c.last_seen in
    let (c₁, ask) = rx_gap c (ltb last c.cfg.window && leb ahead last) in
    (record c₁ { last_seen = id }, record no_flags { request_tx_f = ask })

-- Step 2 of rx_handle_packet: the peer's sequence.
unfoldable pub rx_sequence : Connection → Packet → Connection × RxFlags
rx_sequence c p =
    let id = id_mask p.tx_id in
    if is_ping p.tx_id
    then rx_ping_sequence c p
    else if ahead_of c id == 0
    then (rx_next c id, record no_flags { request_tx_f = true; accept_f = true })
    else if ltb (ahead_of c id) c.cfg.window
    then rx_ahead c id
    else (record (rx_nak_answered c) { last_seen = id }, record no_flags { request_tx_f = true })

-- `ret` of rx_handle_packet once the sequence has been looked at.
abbrev pub join_flags : RxFlags → Bool → RxFlags → RxFlags
join_flags r ask s = record s {
  request_tx_f = r.request_tx_f || (ask || s.request_tx_f);
  continue_f = r.continue_f;
  connected_f = r.connected_f;
  disconnect_f = r.disconnect_f;
  caps_f = r.caps_f;
}

-- The end of rx_handle_packet: the watchdog, then both sequences.
unfoldable pub rx_sequences : Connection → RxFlags → Packet → Connection × RxFlags
rx_sequences c r p =
    let (c₁, ask, expired) = rx_handle_ack (watchdog_restart c) p.ack_id in
    let (c₂, s) = rx_sequence c₁ p in (c₂, join_flags r ask (record s { expired = expired }))

-- The rest of rx_handle_packet on a link that is up, `r` being what the handshake has asked for.
unfoldable pub rx_connected : Connection → RxFlags → Packet → Connection × RxFlags
rx_connected c r p =
    if is_unnumbered p && (p.chan == control_channel && first_octet p.payload == ctrl_disconnect)
    then (on_disconnect_lock c, record r { disconnect_f = true })
    else if not (is_hshake p)
    then rx_sequences c r p
    else if id_mask p.tx_id == wait_conn_2
    then (c, record r { request_tx_f = true })
    else (on_disconnect_lock c, record r { request_tx_f = true; disconnect_f = true })

-- rx_handle_packet on a link that is not up.
unfoldable pub rx_unconnected : Connection → Packet → Connection × RxFlags
rx_unconnected c p =
    let (c₁, r) = rx_handle_handshake c p.tx_id (is_hshake p) in
    let c₂ = if r.connected_f then watchdog_restart c₁ else c₁ in
    if r.continue_f then rx_connected c₂ r p else (c₂, r)

-- rx_handle_packet.
unfoldable pub rx_handle_packet : Connection → Packet → Connection × RxFlags
rx_handle_packet c p =
    if is_malformed c p
    then (inc_dropped c, no_flags)
    else if c.conn_state == connected
    then rx_connected c no_flags p
    else rx_unconnected c p

abbrev pub when : Bool → List Effect → List Effect
when b effects = if b then effects else []

-- ludlc_receive, from the end of the locked part on.
unfoldable pub receive_unlocked : Connection → RxFlags → Packet → ℕ → Connection × List Effect
receive_unlocked c r p tstamp =
    let c₁ = if r.connected_f then inc_on_conn c else c in
    let (c₂, confirmed) = confirm_unlocked c₁ in
    (
      c₂,
      when (r.caps_f && c.cb.has_on_caps) (on_caps p.payload ∷ [])
          ++ (when (r.connected_f && c.cb.has_on_connect) (on_connect ∷ [])
              ++ (when r.request_tx_f (request_tx ∷ [])
                  ++ (confirmed
                      ++ (call_on_confirm? c r.expired
                          ++ (when r.disconnect_f (call_on_disconnect c)
                              ++ when (r.accept_f && c.cb.has_on_recv)
                                  (on_recv p.chan p.payload tstamp ∷ [])))))),
    )

-- ludlc_receive.
unfoldable pub receive : Connection → Packet → ℕ → Connection × List Effect
receive c p tstamp = let (c₁, r) = rx_handle_packet c p in receive_unlocked c₁ r p tstamp
