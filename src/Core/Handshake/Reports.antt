-- ===== src/Core/Handshake/Reports.antt =====
-- What the handshake reports of itself (src/lib/ludlc.c: rx_handle_handshake).
use ludlc.Prelude.{ℕ, ◌+◌, ◌≡◌, ◌≢◌, ◌⊎◌, Bool, true, false, not, ◌&&◌, ◌==◌}
use ludlc.Core.State.{Connection, disconnected, wait_conn_1, wait_conn_2, connected}
use ludlc.Core.Handshake.{RxFlags}

-- What a packet does to an end in State `s`, which is left in State `d` and asks for what `r` has.
abbrev pub Handled : Connection → ℕ → Bool → Connection × RxFlags → Type 0
Handled c id step (d, r) =
    let s = c.conn_state in
    (((d.conn_state ≡ s + 1)
        × (r.request_tx_f ≡ true)
        × (((step ≡ true) × ((id ≡ s) ⊎ (id ≡ s + 1))) ⊎ ((step ≡ false) × (s ≡ 2))))
      ⊎ (((d.conn_state ≡ s) × (r.request_tx_f ≡ false) × (step ≡ true) × (id + 1 ≡ s))
          ⊎ ((d.conn_state ≡ disconnected)
              × (r.request_tx_f ≡ true)
              × (((step ≡ true) × (id ≢ s) × (id ≢ s + 1) × (id + 1 ≢ s))
                  ⊎ ((step ≡ false) × (s ≢ 2))))))
    × (r.connected_f ≡ (d.conn_state == connected))
    × (r.continue_f ≡ (not step && s == wait_conn_2))
    × (r.caps_f ≡ (step && (s == wait_conn_1 && d.conn_state == wait_conn_2)))
