-- ===== src/Core/Init.antt =====
-- Opening and closing a link (src/lib/ludlc.c: ludlc_connection_init, ludlc_connection_cleanup,
-- ludlc_conn_max_payload). The clock, the lock and the user's context are left out.
pub mod Ready
use Prim.Native.Nat.{bit_and}
use ludlc.Prelude.{
  ℕ, ◌-◌, Bool, true, false, not, ◌&&◌, ◌||◌, Option, none, some, List, [], ltb, leb, ◌==◌,
  if◌then◌else◌,
}
use ludlc.Core.State.{
  Connection, ConnCfg, ConnCb, PacketQueueItem, success, Ret, ret_ok, einval, enomem, Effect,
  stopped, disconnected, control_channel, max_ttl,
}
use ludlc.Core.Channel.{chan_tag_bits_ok}
use ludlc.Core.Disconnect.{disconnect_core}

-- The build's constants: CONFIG_LUDLC_MAX_PAYLOAD_SIZE, CONFIG_LUDLC_WINDOW,
-- CONFIG_LUDLC_PING_TIME, LUDLC_DEFAULT_TTL.
abbrev pub build_cfg : ConnCfg
build_cfg = record {
  ping_time = 1000000;
  max_payload = 32;
  window = 4;
  default_ttl = 4;
  chan_tag_bits = 0;
}

-- What the allocator and the port answer: the slots that the allocator hands out, if any, and what
-- ludlc_platform_conn_init and ludlc_platform_init_timer (of the ping timer, of the watchdog)
-- return.
pub record PlatformAnswers : Type 0 where
  pub slots : Option (ℕ → PacketQueueItem)
  pub conn_init : Ret
  pub ping_timer_init : Ret
  pub wd_timer_init : Ret

-- A setting left at zero takes the build's.
abbrev pub or_default : ℕ → ℕ → ℕ
or_default x d = if x == 0 then d else x

-- The settings of a link, `cfg` being NULL for the build's own.
unfoldable pub resolve_cfg : Option ConnCfg → ConnCfg
resolve_cfg none = build_cfg
resolve_cfg (some cfg) = record {
  ping_time = or_default cfg.ping_time build_cfg.ping_time;
  max_payload = or_default cfg.max_payload build_cfg.max_payload;
  window = or_default cfg.window build_cfg.window;
  default_ttl = or_default cfg.default_ttl build_cfg.default_ttl;
  chan_tag_bits = cfg.chan_tag_bits;
}

-- A window that the IDs can tell apart, and be indexed by.
unfoldable pub window_ok : ℕ → Bool
window_ok w = leb w 64 && bit_and w (w - 1) == 0

-- What ludlc_connection_init refuses with -EINVAL.
unfoldable pub cfg_ok : ConnCfg → ConnCb → Bool
cfg_ok cfg cb =
    chan_tag_bits_ok cfg.chan_tag_bits
    && (leb cfg.max_payload build_cfg.max_payload
        && (window_ok cfg.window
            && (ltb cfg.default_ttl max_ttl
                && (cb.caps_size == 0
                    || (not (cb.caps == 0) && leb cb.caps_size cfg.max_payload)))))

abbrev pub zero_item : PacketQueueItem
zero_item = record { payload = 0; size = 0; chan = 0; result = success; ttl = 0 }

-- The connection as the fields are set, LUDLC_CONN_INITED_F included.
unfoldable pub fresh : ConnCfg → ConnCb → (ℕ → PacketQueueItem) → Connection
fresh cfg cb slots = record {
  cb = cb;
  ping_timer = stopped;
  wd_timer = stopped;
  flags = record {
    no_nak = true;
    inited = true;
    disc_after_tx = false;
    u_idle = true;
    u_done = true;
    bus_out = false;
    u_confirm_f = false;
    nak_out = false;
    nak_tracked = false;
    ttl_charged = false;
    ttl_hold = false;
  };
  cfg = cfg;
  packets_q = slots;
  tx_payload = [];
  tx_hdr = record { tx_id = 0; ack_id = 0; hdr_chan = control_channel };
  u_packet = zero_item;
  u_confirm = zero_item;
  stats = record {
    rx_packet = 0;
    tx_packet = 0;
    bad_csum = 0;
    jabber = 0;
    on_conn = 0;
    on_disconn = 0;
    dropped = 0;
    overrun = 0;
  };
  last_queued = 0;
  last_sent = 0;
  last_ack = 0;
  last_received = 0;
  last_seen = 0;
  nak_track = 0;
  last_reported = 0;
  report_busy = false;
  conn_state = disconnected;
}

-- A link that is open, or the error; the memory of a link that failed to open is not used.
pub data Opened : Type 0 where
  opened : Connection → Opened
  failed : Ret → Opened

-- The answers of the port in turn; the first error ends the opening.
abbrev pub open_platform : Ret → Ret → Ret → Connection → Opened
open_platform ret_ok ret_ok ret_ok c = opened c
open_platform ret_ok ret_ok e c = failed e
open_platform ret_ok e _ c = failed e
open_platform e _ _ c = failed e

abbrev pub open_slots : PlatformAnswers → ConnCfg → ConnCb → Option (ℕ → PacketQueueItem) → Opened
open_slots a cfg cb none = failed enomem
open_slots a cfg cb (some slots) =
    open_platform a.conn_init a.ping_timer_init a.wd_timer_init (fresh cfg cb slots)

-- ludlc_connection_init.
unfoldable pub connection_init : PlatformAnswers → Option ConnCfg → ConnCb → Opened
connection_init a cfg cb =
    let resolved = resolve_cfg cfg in
    if cfg_ok resolved cb then open_slots a resolved cb a.slots else failed einval

-- ludlc_connection_cleanup: what it reports, and the connection whose timers and slots are then
-- released.
unfoldable pub connection_cleanup : Connection → Connection × List Effect
connection_cleanup c =
    if not c.flags.inited
    then (c, [])
    else let (c₁, _, effects) = disconnect_core c in (c₁, effects)

-- ludlc_conn_max_payload, of a connection that is not NULL.
unfoldable pub conn_max_payload : Connection → ℕ
conn_max_payload c = c.cfg.max_payload
