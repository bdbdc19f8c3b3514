-- ===== src/Core/Ack/Frame.antt =====
-- What the acknowledgment side leaves alone: the receiving side, the state and the settings.
use ludlc.Prelude.{ℕ, zero, suc, ◌+◌, ◌-◌, ◌%◌, ◌≡◌, refl, ◌∙◌, arith}
use ludlc.Core.State.{Connection}
use ludlc.Core.Ack.{ack_one, ack_many, take_acks, give_up, charge, rx_handle_nak, rx_handle_ack}

-- The receiving side of a link, its state and its settings are the same.
pub record SameReceiver (c d : Connection) : Type 0 where
  pub received : d.last_received ≡ c.last_received
  pub seen : d.last_seen ≡ c.last_seen
  pub state : d.conn_state ≡ c.conn_state
  pub cfg : d.cfg ≡ c.cfg

pub SameReceiver-trans :
    {c d e : Connection} → SameReceiver c d → SameReceiver d e → SameReceiver c e
SameReceiver-trans s t = record {
  received = t.received ∙ s.received;
  seen = t.seen ∙ s.seen;
  state = t.state ∙ s.state;
  cfg = t.cfg ∙ s.cfg;
}

ack_one-SameReceiver : (c : Connection) → SameReceiver c (ack_one c)
unfolding ack_one
ack_one-SameReceiver c = record { received = refl; seen = refl; state = refl; cfg = refl }

ack_many-SameReceiver : (n : ℕ) (c : Connection) → SameReceiver c (ack_many n c)
unfolding ack_many
ack_many-SameReceiver zero c = record { received = refl; seen = refl; state = refl; cfg = refl }
ack_many-SameReceiver (suc n) c =
    SameReceiver-trans (ack_one-SameReceiver c) (ack_many-SameReceiver n (ack_one c))

take_acks-SameReceiver : (c : Connection) (ack_id : ℕ) → SameReceiver c (take_acks c ack_id)
unfolding take_acks
take_acks-SameReceiver c ack_id =
    ground (arith, ack_many-SameReceiver ((ack_id + 256 - c.last_ack) % 128) c)

charge-SameReceiver : (c : Connection) → SameReceiver c (charge c).0
unfolding charge give_up
charge-SameReceiver c = ground arith

rx_handle_nak-SameReceiver : (c : Connection) → SameReceiver c (rx_handle_nak c).0
unfolding rx_handle_nak
rx_handle_nak-SameReceiver c = ground (arith, charge-SameReceiver c)

pub rx_handle_ack-SameReceiver :
    (c : Connection) (ack_id : ℕ) → SameReceiver c (rx_handle_ack c ack_id).0
unfolding rx_handle_ack
rx_handle_ack-SameReceiver c ack_id =
    ground (arith, take_acks-SameReceiver c ack_id, rx_handle_nak-SameReceiver (take_acks c ack_id))
