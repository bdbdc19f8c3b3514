-- ===== src/Core/Receive/Order.antt =====
-- The order in which a session's payloads are delivered (src/lib/ludlc.c: rx_handle_packet).
use ludlc.Prelude.{
  ℕ, zero, suc, ◌<◌, ◌≡◌, refl, ◌∙◌, ap, ap₂, sym, Bool, true, false, not, ◌&&◌, List, [], ◌∷◌,
  arith, ◌==◌, ==_iff, if◌then◌else◌, length,
}
use mathlib.Core.Path.{subst}
use ludlc.Core.State.{Connection, connected, is_ping, id_mask, next_id}
use ludlc.Core.Handshake.{no_flags}
use ludlc.Core.Receive.{Packet, is_malformed, is_hshake, rx_sequences, rx_handle_packet}
use ludlc.Core.Receive.Step.{
  Sequenced, Stepped, is_delivered, rx_handle_packet-Stepped, rx_sequences-Sequenced,
  rx_handle_packet-data,
}

-- The IDs of the numbered packets handed to the application, while packets come in and the link is
-- up.
unfoldable pub delivered_ids : Connection → List Packet → List ℕ
delivered_ids c [] = []
delivered_ids c (p ∷ ps) =
    let (c₁, r) = rx_handle_packet c p in
    let rest = delivered_ids c₁ ps in
    let later = if c₁.conn_state == connected then rest else [] in
    if is_delivered r p then id_mask p.tx_id ∷ later else later

-- The `n` IDs that follow `id`.
unfoldable pub ids_after : ℕ → ℕ → List ℕ
ids_after id zero = []
ids_after id (suc n) = next_id id ∷ ids_after (next_id id) n

-- The IDs are those that follow `id`, in turn.
abbrev IsRun : ℕ → List ℕ → Type 0
IsRun id xs = xs ≡ ids_after id (length xs)

IsRun-later :
    (b : Bool) (id : ℕ) (xs : List ℕ) → (b ≡ true → IsRun id xs) → IsRun id (if b then xs else [])
unfolding ids_after
IsRun-later true id xs h = h refl
IsRun-later false id xs h = refl

IsRun-step :
    (b : Bool) (id x : ℕ) (xs : List ℕ)
    → (b ≡ true → x ≡ next_id id)
    → IsRun (if b then next_id id else id) xs
    → IsRun id (if b then x ∷ xs else xs)
unfolding ids_after
IsRun-step true id x xs next run = ap₂ (λ y ys. y ∷ ys) (next refl) run
IsRun-step false id x xs next run = run

next_id-bound : (b : Bool) (id : ℕ) → id < 128 → (if b then next_id id else id) < 128
next_id-bound b id h = ground arith

-- Whatever packets come in on a link that is up, whose last ID received is one of the 128, the
-- numbered ones handed to the application while the link stays up have the IDs that follow the
-- last one received, in turn: no ID is skipped, and none is repeated.
pub delivered_in_order :
    (c : Connection) (ps : List Packet)
    → c.conn_state ≡ connected
    → c.last_received < 128
    → delivered_ids c ps ≡ ids_after c.last_received (length (delivered_ids c ps))
unfolding delivered_ids ids_after
delivered_in_order c [] up h = refl
delivered_in_order c (p ∷ ps) up h =
    IsRun-step delivered c.last_received (id_mask p.tx_id) later step.next (
      IsRun-later (c₁.conn_state == connected) id₁ (delivered_ids c₁ ps) (λ e.
        after ((==_iff c₁.conn_state connected).0 e)
          (λ bounded. delivered_in_order c₁ ps ((==_iff c₁.conn_state connected).0 e) bounded)))
  where
    c₁ : Connection
    c₁ = (rx_handle_packet c p).0

    delivered : Bool
    delivered = is_delivered (rx_handle_packet c p).1 p

    id₁ : ℕ
    id₁ = if delivered then next_id c.last_received else c.last_received

    later : List ℕ
    later = if c₁.conn_state == connected then delivered_ids c₁ ps else []

    step : Stepped c p (rx_handle_packet c p)
    step = rx_handle_packet-Stepped c p up h

    bound : id₁ < 128
    bound = next_id-bound delivered c.last_received h

    after :
        c₁.conn_state ≡ connected
        → (c₁.last_received < 128 → IsRun c₁.last_received (delivered_ids c₁ ps))
        → IsRun id₁ (delivered_ids c₁ ps)
    after e run =
        subst (λ id. IsRun id (delivered_ids c₁ ps)) (step.received e)
          (run (omega (arith, step.received e, bound)))

-- The last one received, once it is known which packet is accepted.
moves_on :
    (accepts : Bool) (id last received : ℕ)
    → is_ping id ≡ false
    → accepts ≡ (id == next_id last)
    → received ≡ (if accepts && not (is_ping id) then next_id last else last)
    → received ≡ (if id == next_id last then id else last)
moves_on true id last received numbered e r = ground (arith, numbered, sym e, r)
moves_on false id last received numbered e r = ground (arith, numbered, sym e, r)

-- On a link that is up, whose last ID received is one of the 128, a well-formed numbered data
-- packet is handed to the application exactly when its ID is the next one. It leaves the link
-- up, and it is then the last one received; another packet leaves the last one received as it
-- was.
pub data_packet_accepted :
    (c : Connection) (p : Packet)
    → c.conn_state ≡ connected
    → c.last_received < 128
    → is_ping p.tx_id ≡ false
    → is_malformed c p ≡ false
    → is_hshake p ≡ false
    → ((rx_handle_packet c p).1.accept_f ≡ (p.tx_id == next_id c.last_received))
      × ((rx_handle_packet c p).0.conn_state ≡ connected)
      × ((rx_handle_packet c p).0.last_received
          ≡ (if p.tx_id == next_id c.last_received then p.tx_id else c.last_received))
data_packet_accepted c p up h numbered formed plain = (
  accepted,
  facts.state ∙ up,
  moves_on _ p.tx_id c.last_received _ numbered accepted facts.received,
)
  where
    direct : rx_handle_packet c p ≡ rx_sequences c no_flags p
    direct = rx_handle_packet-data c p up numbered formed plain

    facts : Sequenced c p (rx_handle_packet c p)
    facts = subst (Sequenced c p) (sym direct) (rx_sequences-Sequenced c p h)

    plain_id : id_mask p.tx_id ≡ p.tx_id
    plain_id = ground (arith, numbered)

    accepted : (rx_handle_packet c p).1.accept_f ≡ (p.tx_id == next_id c.last_received)
    accepted = facts.accepts numbered ∙ ap (λ id. id == next_id c.last_received) plain_id
