-- ===== src/Core/State.antt =====
-- What one link keeps (struct ludlc_connection of src/lib/include/ludlc_private.h), its packets
-- (src/lib/include/ludlc_packet.h) and what its operations hand to the outside.
--
-- The build modelled is the multi-threaded one with several connections, 8-bit IDs, an 8-bit channel
-- field, a tag width for each link, and statistics. The flags word is a record with a field for each
-- bit. A pointer is a number, 0 being NULL.
use ludlc.Prelude.{ℕ, ◌+◌, ◌-◌, ◌*◌, ◌%◌, Bool, List, leb, u32}

-- LUDLC_MAX_TX_ID, the number of sequence numbers; LUDLC_PING_FLAG and LUDLC_NAK_FLAG are the bit
-- of the same weight.
abbrev pub max_tx_id : ℕ
max_tx_id = 128

-- `id & LUDLC_ID_MASK`.
abbrev pub id_mask : ℕ → ℕ
id_mask id = id % 128

-- `id | LUDLC_NAK_FLAG`, `id | LUDLC_PING_FLAG`, of an octet.
abbrev pub set_flag : ℕ → ℕ
set_flag id = id % 128 + 128

-- `(id & LUDLC_PING_FLAG) != 0`, of an octet.
abbrev pub is_ping : ℕ → Bool
is_ping id = leb 128 id

-- `(id + 1) & LUDLC_ID_MASK`.
abbrev pub next_id : ℕ → ℕ
next_id id = (id + 1) % 128

-- `(to - from) & LUDLC_ID_MASK`, of two octets.
abbrev pub id_sub : ℕ → ℕ → ℕ
id_sub to from = (to + 256 - from) % 128

-- enum ludlc_conn_state. The code computes with these as numbers.
abbrev pub disconnected : ℕ
disconnected = 0

abbrev pub wait_conn_1 : ℕ
wait_conn_1 = 1

abbrev pub wait_conn_2 : ℕ
wait_conn_2 = 2

abbrev pub connected : ℕ
connected = 3

abbrev pub terminate : ℕ
terminate = 255

-- CONFIG_LUDLC_CONTROL_CHANNEL and LUDLC_CTRL_DISCONNECT.
abbrev pub control_channel : ℕ
control_channel = 0

abbrev pub ctrl_disconnect : ℕ
ctrl_disconnect = 1

-- LUDLC_MAX_TTL.
abbrev pub max_ttl : ℕ
max_ttl = 127

-- The `result` of a packet: 0, EPIPE, ECANCELED or ETIMEDOUT.
pub data Errno : Type 0 where
  success epipe ecanceled etimedout : Errno

-- What an operation returns: 0, 1, or the negative of an errno.
pub data Ret : Type 0 where
  ret_ok ret_last einval eagain enotconn eshutdown enomem : Ret
  platform_error : ℕ → Ret

-- struct packet_queue_item.
pub record PacketQueueItem : Type 0 where
  pub payload : ℕ
  pub size : ℕ
  pub chan : ℕ
  pub result : Errno
  pub ttl : ℕ

-- The flags word: the LUDLC_CONN_*_F bits.
pub record Flags : Type 0 where
  pub no_nak : Bool
  pub inited : Bool
  pub disc_after_tx : Bool
  pub u_idle : Bool
  pub u_done : Bool
  pub bus_out : Bool
  pub u_confirm_f : Bool
  pub nak_out : Bool
  pub nak_tracked : Bool
  pub ttl_charged : Bool
  pub ttl_hold : Bool

-- struct ludlc_conn_cfg, without the clock, which the core only keeps.
pub record ConnCfg : Type 0 where
  pub ping_time : ℕ
  pub max_payload : ℕ
  pub window : ℕ
  pub default_ttl : ℕ
  pub chan_tag_bits : ℕ

-- struct ludlc_conn_cb: which callbacks are there (none of them under a NULL `cb`), and the
-- capabilities. A NULL `cb` has `caps_size` 0.
pub record ConnCb : Type 0 where
  pub has_on_connect : Bool
  pub has_on_disconnect : Bool
  pub has_on_recv : Bool
  pub has_on_confirm : Bool
  pub has_on_caps : Bool
  pub caps : ℕ
  pub caps_size : ℕ

-- A platform timer: stopped, or armed with its delay and its period.
pub data Timer : Type 0 where
  stopped : Timer
  armed : ℕ → ℕ → Timer

-- ludlc_packet_hdr_t.
pub record PacketHdr : Type 0 where
  pub tx_id : ℕ
  pub ack_id : ℕ
  pub hdr_chan : ℕ

-- struct ludlc_stats.
pub record Stats : Type 0 where
  pub rx_packet : ℕ
  pub tx_packet : ℕ
  pub bad_csum : ℕ
  pub jabber : ℕ
  pub on_conn : ℕ
  pub on_disconn : ℕ
  pub dropped : ℕ
  pub overrun : ℕ

-- struct ludlc_connection. `packets_q` has `cfg.window` slots.
pub record Connection : Type 0 where
  pub cb : ConnCb
  pub ping_timer : Timer
  pub wd_timer : Timer
  pub flags : Flags
  pub cfg : ConnCfg
  pub packets_q : ℕ → PacketQueueItem
  pub tx_payload : List ℕ
  pub tx_hdr : PacketHdr
  pub u_packet : PacketQueueItem
  pub u_confirm : PacketQueueItem
  pub stats : Stats
  pub last_queued : ℕ
  pub last_sent : ℕ
  pub last_ack : ℕ
  pub last_received : ℕ
  pub last_seen : ℕ
  pub nak_track : ℕ
  pub last_reported : ℕ
  pub report_busy : Bool
  pub conn_state : ℕ

-- The slot of a packet: `id & ludlc_conn_window_mask(conn)`, the window being a power of two.
abbrev pub slot : Connection → ℕ → ℕ
slot c id = id % c.cfg.window

-- ludlc_conn_wd_time.
abbrev pub wd_time : Connection → ℕ
wd_time c = 3 * c.cfg.ping_time

-- What the core does to the outside, in order: it wakes the transmitter, or runs a callback.
pub data Effect : Type 0 where
  request_tx : Effect
  on_connect : Effect
  on_disconnect : Effect
  on_caps : List ℕ → Effect
  on_confirm : Errno → ℕ → ℕ → ℕ → Effect
  on_recv : ℕ → List ℕ → ℕ → Effect

-- LUDLC_INC_STATS(conn, dropped), and the others that the core counts.
abbrev pub inc_dropped : Connection → Connection
inc_dropped c = record c { stats = record (c.stats) { dropped = u32 (c.stats.dropped + 1) } }

abbrev pub inc_on_conn : Connection → Connection
inc_on_conn c = record c { stats = record (c.stats) { on_conn = u32 (c.stats.on_conn + 1) } }

abbrev pub inc_on_disconn : Connection → Connection
inc_on_disconn c = record c {
  stats = record (c.stats) { on_disconn = u32 (c.stats.on_disconn + 1) };
}

-- ludlc_watchdog_restart of a connection that is not NULL.
abbrev pub watchdog_restart : Connection → Connection
watchdog_restart c = record c { wd_timer = armed (wd_time c) 0 }
