-- ===== src/Core/Receive/Step.antt =====
-- What one packet does to the sequence of a link that is up (src/lib/ludlc.c: rx_handle_packet).
use ludlc.Prelude.{
  ◌<◌, ◌≡◌, refl, ◌∙◌, ap, sym, Bool, true, false, not, ◌&&◌, arith, ◌==◌, if◌then◌else◌,
}
use mathlib.Core.Path.{subst}
use ludlc.Core.State.{
  Connection, wait_conn_2, connected, control_channel, ctrl_disconnect, is_ping, id_mask, next_id,
  watchdog_restart,
}
use ludlc.Core.Ack.{rx_gap, rx_handle_ack}
use ludlc.Core.Ack.Frame.{SameReceiver, rx_handle_ack-SameReceiver}
use ludlc.Core.Handshake.{RxFlags, no_flags}
use ludlc.Core.Disconnect.{on_disconnect_lock, sweep_queue, close_session}
use ludlc.Core.Report.{seq_reset_if_drained}
use ludlc.Core.Receive.{
  Packet, is_malformed, is_unnumbered, is_hshake, first_octet, rx_sequence, rx_ping_sequence,
  rx_ahead, rx_sequences, rx_connected, rx_unconnected, rx_handle_packet,
}

-- What the code does with the sequence: a numbered packet is accepted exactly when it is the next
-- one, which moves the sequence on, and nothing else does.
pub record Sequenced (c : Connection) (p : Packet) (out : Connection × RxFlags) : Type 0 where
  pub state : out.0.conn_state ≡ c.conn_state
  pub cfg : out.0.cfg ≡ c.cfg
  pub accepts :
      is_ping p.tx_id ≡ false → out.1.accept_f ≡ (id_mask p.tx_id == next_id c.last_received)
  pub received : out.0.last_received ≡ (
      if out.1.accept_f && not (is_ping p.tx_id) then next_id c.last_received else c.last_received)

rx_sequence-Sequenced :
    (c : Connection) (p : Packet) → c.last_received < 128 → Sequenced c p (rx_sequence c p)
unfolding rx_sequence rx_ping_sequence rx_ahead rx_gap
rx_sequence-Sequenced c p h = record {
  state = ground arith;
  cfg = ground arith;
  accepts = ground arith;
  received = ground arith;
}

-- Both sequences together, on a link that is up.
pub rx_sequences-Sequenced :
    (c : Connection) (p : Packet)
    → c.last_received < 128
    → Sequenced c p (rx_sequences c no_flags p)
unfolding rx_sequences
rx_sequences-Sequenced c p h = record {
  state = (step.state ∙ acked.state);
  cfg = (step.cfg ∙ acked.cfg);
  accepts =
      λ numbered. step.accepts numbered ∙ ap (λ id. id_mask p.tx_id == next_id id) acked.received;
  received =
      (step.received
        ∙ ap (λ id. if step_accepts && not (is_ping p.tx_id) then next_id id else id)
            acked.received);
}
  where
    c₁ : Connection
    c₁ = (rx_handle_ack (watchdog_restart c) p.ack_id).0

    acked : SameReceiver (watchdog_restart c) c₁
    acked = rx_handle_ack-SameReceiver (watchdog_restart c) p.ack_id

    step : Sequenced c₁ p (rx_sequence c₁ p)
    step = rx_sequence-Sequenced c₁ p (omega (arith, acked.received, h))

    step_accepts : Bool
    step_accepts = (rx_sequence c₁ p).1.accept_f

-- A numbered packet handed to the application.
abbrev pub is_delivered : RxFlags → Packet → Bool
is_delivered r p = r.accept_f && not (is_ping p.tx_id)

-- What one packet does on a link that is up.
pub record Stepped (c : Connection) (p : Packet) (out : Connection × RxFlags) : Type 0 where
  pub next : is_delivered out.1 p ≡ true → id_mask p.tx_id ≡ next_id c.last_received
  pub received :
      out.0.conn_state ≡ connected
      → out.0.last_received
        ≡ (if is_delivered out.1 p then next_id c.last_received else c.last_received)

Stepped-if :
    {c : Connection} {p : Packet} (b : Bool) {x y : Connection × RxFlags}
    → Stepped c p x
    → Stepped c p y
    → Stepped c p (if b then x else y)
Stepped-if true s _ = s
Stepped-if false _ s = s

-- A packet that changes nothing.
ignored-Stepped :
    (c d : Connection) (p : Packet) (r : RxFlags)
    → r.accept_f ≡ false
    → d.last_received ≡ c.last_received
    → Stepped c p (d, r)
ignored-Stepped c d p r refused same = record { next = ground arith; received = ground arith }

-- A packet that takes the link down.
closed-Stepped :
    (c : Connection) (p : Packet) (r : RxFlags)
    → r.accept_f ≡ false
    → Stepped c p (on_disconnect_lock c, r)
unfolding on_disconnect_lock seq_reset_if_drained sweep_queue close_session
closed-Stepped c p r refused = record { next = ground arith; received = ground arith }

rx_sequences-Stepped :
    (c : Connection) (p : Packet) → c.last_received < 128 → Stepped c p (rx_sequences c no_flags p)
rx_sequences-Stepped c p h = record {
  next = ground (arith, facts.accepts);
  received = λ _. facts.received;
}
  where
    facts : Sequenced c p (rx_sequences c no_flags p)
    facts = rx_sequences-Sequenced c p h

rx_connected-Stepped :
    (c : Connection) (p : Packet) → c.last_received < 128 → Stepped c p (rx_connected c no_flags p)
unfolding rx_connected
rx_connected-Stepped c p h =
    Stepped-if
      (is_unnumbered p && (p.chan == control_channel && first_octet p.payload == ctrl_disconnect))
      (closed-Stepped c p _ refl)
      (Stepped-if (not (is_hshake p)) (rx_sequences-Stepped c p h) (
        Stepped-if (id_mask p.tx_id == wait_conn_2) (ignored-Stepped c _ p _ refl refl)
          (closed-Stepped c p _ refl)))

pub rx_handle_packet-Stepped :
    (c : Connection) (p : Packet)
    → c.conn_state ≡ connected
    → c.last_received < 128
    → Stepped c p (rx_handle_packet c p)
unfolding rx_handle_packet
rx_handle_packet-Stepped c p up h =
    Stepped-if (is_malformed c p) (ignored-Stepped c _ p _ refl refl) (
      subst (λ b. Stepped c p (if b then rx_connected c no_flags p else rx_unconnected c p))
        (sym is_up) (rx_connected-Stepped c p h))
  where
    is_up : (c.conn_state == connected) ≡ true
    is_up = ground (arith, up)

-- A well-formed data packet goes straight to the sequences.
pub rx_handle_packet-data :
    (c : Connection) (p : Packet)
    → c.conn_state ≡ connected
    → is_ping p.tx_id ≡ false
    → is_malformed c p ≡ false
    → is_hshake p ≡ false
    → rx_handle_packet c p ≡ rx_sequences c no_flags p
unfolding rx_handle_packet rx_connected
rx_handle_packet-data c p up numbered formed plain = ground (arith, up, numbered, formed, plain)
