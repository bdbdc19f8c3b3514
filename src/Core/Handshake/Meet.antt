-- ===== src/Core/Handshake/Meet.antt =====
-- Two ends that hear each other's handshake (src/lib/ludlc.c: rx_handle_packet, and the steps that
-- ludlc_get_packet_to_send sends).
use ludlc.Prelude.{
  ℕ, zero, suc, ◌+◌, ◌≤◌, ◌≡◌, refl, ◌∙◌, ap, ap₂, sym, false, ◌||◌, List, [], ◌==◌, if◌then◌else◌,
  length, arith, Bool-cases, inl, inr,
}
use mathlib.Core.Path.{subst}
use ludlc.Core.State.{Connection, connected, wait_conn_2, watchdog_restart}
use ludlc.Core.Handshake.{RxFlags, no_flags, rx_handle_handshake, is_next_step}
use ludlc.Core.Transmit.{send_handshake}
use ludlc.Core.Ack.{rx_handle_ack, rx_gap}
use ludlc.Core.Ack.Frame.{rx_handle_ack-SameReceiver}
use ludlc.Core.Disconnect.{on_disconnect_lock, sweep_queue, close_session}
use ludlc.Core.Report.{seq_reset_if_drained}
use ludlc.Core.Receive.{
  Packet, rx_sequence, rx_ping_sequence, rx_ahead, rx_sequences, rx_connected, rx_unconnected,
  rx_handle_packet,
}

-- The packet of a step, with what the end announces.
abbrev pub step_packet : Connection → List ℕ → Packet
step_packet c said =
    let hdr = (send_handshake c).1.hdr in
    record {
      tx_id = hdr.tx_id;
      ack_id = hdr.ack_id;
      chan = hdr.hdr_chan;
      payload = said;
      pkt_sz = 3 + length said;
    }

-- The keep-alive of an end that is up: a PING of 2 octets.
abbrev pub bare_ping : ℕ → ℕ → Packet
bare_ping id ack = record { tx_id = 128 + id; ack_id = ack; chan = 0; payload = []; pkt_sz = 2 }

-- The state that an end in State `s` reaches when the other is in State `t`.
unfoldable heard_state : ℕ → ℕ → ℕ
heard_state s t =
    if s == connected
    then (if t == connected || t == wait_conn_2 then s else 0)
    else if t == connected
    then (if s == wait_conn_2 then connected else 0)
    else if is_next_step t s
    then s + 1
    else if t + 1 == s
    then s
    else 0

rx_sequence-state : (c : Connection) (p : Packet) → (rx_sequence c p).0.conn_state ≡ c.conn_state
unfolding rx_sequence rx_ping_sequence rx_ahead rx_gap
rx_sequence-state c p = ground arith

rx_sequences-state :
    (c : Connection) (r : RxFlags) (p : Packet) → (rx_sequences c r p).0.conn_state ≡ c.conn_state
unfolding rx_sequences
rx_sequences-state c r p =
    rx_sequence-state (rx_handle_ack (watchdog_restart c) p.ack_id).0 p
    ∙ (rx_handle_ack-SameReceiver (watchdog_restart c) p.ack_id).state

on_disconnect_lock-state : (c : Connection) → (on_disconnect_lock c).conn_state ≡ 0
unfolding on_disconnect_lock seq_reset_if_drained sweep_queue close_session
on_disconnect_lock-state c = ground arith

-- A PING changes the state of an end that is not up only from State 2.
ping-state :
    (c : Connection) (id ack : ℕ)
    → (rx_handle_packet c (bare_ping id ack)).0.conn_state ≡ heard_state c.conn_state connected
unfolding rx_handle_packet rx_unconnected rx_connected rx_handle_handshake heard_state
ping-state c id ack =
    let p = bare_ping id ack in
    ground (
      arith,
      rx_sequences-state c no_flags p,
      rx_sequences-state (watchdog_restart (record c { conn_state = connected }))
          (rx_handle_handshake c p.tx_id false).1 p,
    )

step-state :
    (c peer : Connection) (said : List ℕ)
    → peer.conn_state ≤ wait_conn_2
    → (rx_handle_packet c (step_packet peer said)).0.conn_state
      ≡ heard_state c.conn_state peer.conn_state
unfolding rx_handle_packet rx_unconnected rx_connected rx_handle_handshake heard_state
    send_handshake
step-state c peer said h = ground (arith, h, on_disconnect_lock-state c)

unfoldable met_states : ℕ → ℕ → ℕ → ℕ × ℕ
met_states zero s t = (s, t)
met_states (suc rounds) s t = let t₁ = heard_state t s in met_states rounds (heard_state s t₁) t₁

up : (s t : ℕ) → s ≤ wait_conn_2 → t ≤ wait_conn_2 → met_states 5 s t ≡ (connected, connected)
unfolding met_states heard_state
up zero zero h k = refl
up zero (suc zero) h k = refl
up zero (suc (suc zero)) h k = refl
up (suc zero) zero h k = refl
up (suc zero) (suc zero) h k = refl
up (suc zero) (suc (suc zero)) h k = refl
up (suc (suc zero)) zero h k = refl
up (suc (suc zero)) (suc zero) h k = refl
up (suc (suc zero)) (suc (suc zero)) h k = refl
up (suc (suc (suc s))) t h k = absurd (omega (arith, h))
up s (suc (suc (suc t))) h k = absurd (omega (arith, k))

heard_state-le : (s t : ℕ) → s ≤ connected → heard_state s t ≤ connected
unfolding heard_state
heard_state-le s t h = ground (arith, h)

module _ (said : Connection → List ℕ) (ping_id ping_ack : Connection → ℕ) where
  -- An end takes in the frame of the other: its step, or its PING once it is up.
  unfoldable pub hear : Connection → Connection → Connection
  hear c peer =
      if peer.conn_state == connected
      then (rx_handle_packet c (bare_ping (ping_id peer) (ping_ack peer))).0
      else (rx_handle_packet c (step_packet peer (said peer))).0

  -- The ends hear each other in turn, `rounds` times, and nothing is lost.
  unfoldable pub meet : ℕ → Connection → Connection → Connection × Connection
  meet zero a b = (a, b)
  meet (suc rounds) a b = let b₁ = hear b a in let a₁ = hear a b₁ in meet rounds a₁ b₁

  hear-state :
      (c peer : Connection)
      → peer.conn_state ≤ connected
      → (hear c peer).conn_state ≡ heard_state c.conn_state peer.conn_state
  unfolding hear
  hear-state c peer h = elim (Bool-cases (peer.conn_state == connected)) [
    | inl e ↦ rw e (
        ping-state c (ping_id peer) (ping_ack peer)
        ∙ ap (heard_state c.conn_state) {x = connected} (ground (arith, e)))
    | inr e ↦ rw e (step-state c peer (said peer) (ground (arith, e, h)))
  ]

  meet-states :
      (rounds : ℕ) (a b : Connection)
      → a.conn_state ≤ connected
      → b.conn_state ≤ connected
      → let (x, y) = meet rounds a b in
        (x.conn_state, y.conn_state) ≡ met_states rounds a.conn_state b.conn_state
  unfolding meet met_states
  meet-states zero a b h k = refl
  meet-states (suc rounds) a b h k =
      let b₁ = hear b a in
      let e = hear-state b a h in
      let k₁ = subst (λ s. s ≤ connected) (sym e) (heard_state-le b.conn_state a.conn_state k) in
      let f = hear-state a b₁ k₁ in
      meet-states rounds (hear a b₁) b₁
        (subst (λ s. s ≤ connected) (sym f) (heard_state-le a.conn_state b₁.conn_state h)) k₁
      ∙ ap₂ (met_states rounds) (f ∙ ap (heard_state a.conn_state) e) e

  -- Two ends in any states of the handshake take in each other's frames in turn and lose none, with
  -- whatever announcements in their steps and numbers in their PINGs. After five rounds both are up,
  -- also where one was ahead of the other or had started anew.
  pub meet-connected :
      (a b : Connection)
      → a.conn_state ≤ wait_conn_2
      → b.conn_state ≤ wait_conn_2
      → let (x, y) = meet 5 a b in (x.conn_state ≡ connected) × (y.conn_state ≡ connected)
  meet-connected a b h k =
      let e =
        meet-states 5 a b (omega (arith, h)) (omega (arith, k))
        ∙ up a.conn_state b.conn_state h k in
      (ap (λ s. s.0) e, ap (λ s. s.1) e)
