-- ===== src/Core/Handshake.antt =====
-- The handshake (src/lib/ludlc.c: rx_handle_handshake). The states are numbers, as in the source,
-- whose subtraction `id - conn_state` is on `int`: the test `< 2U` on it holds of the state itself
-- and of the number after it.
pub mod Reports
pub mod Meet
use ludlc.Prelude.{ℕ, ◌+◌, Bool, true, false, not, ◌||◌, Option, none, ◌==◌, if◌then◌else◌}
use ludlc.Core.State.{
  Connection, PacketQueueItem, disconnected, wait_conn_1, wait_conn_2, connected,
}

-- The HANDLE_RX_*_F bits, and the packet given up that HANDLE_RX_EXPIRED_F stands for.
pub record RxFlags : Type 0 where
  pub continue_f : Bool
  pub request_tx_f : Bool
  pub accept_f : Bool
  pub connected_f : Bool
  pub disconnect_f : Bool
  pub caps_f : Bool
  pub expired : Option PacketQueueItem

abbrev pub no_flags : RxFlags
no_flags = record {
  continue_f = false;
  request_tx_f = false;
  accept_f = false;
  connected_f = false;
  disconnect_f = false;
  caps_f = false;
  expired = none;
}

-- `(unsigned int)(id - conn->conn_state) < 2U`.
abbrev pub is_next_step : ℕ → ℕ → Bool
is_next_step id state = id == state || id == state + 1

-- rx_handle_handshake, of the TX id as received.
unfoldable pub rx_handle_handshake : Connection → ℕ → Bool → Connection × RxFlags
rx_handle_handshake c id step =
    if not step
    then if c.conn_state == wait_conn_2
      then (
        record c { conn_state = connected },
        record no_flags { request_tx_f = true; continue_f = true; connected_f = true },
      )
      else (record c { conn_state = disconnected }, record no_flags { request_tx_f = true })
    else if is_next_step id c.conn_state
    then (
      record c { conn_state = (c.conn_state + 1) },
      record no_flags {
        request_tx_f = true;
        caps_f = c.conn_state == wait_conn_1;
        connected_f = c.conn_state + 1 == connected;
      },
    )
    else if not (id + 1 == c.conn_state)
    then (record c { conn_state = disconnected }, record no_flags { request_tx_f = true })
    else (c, no_flags)
