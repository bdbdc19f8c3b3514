-- ===== src/Core/Queue/MoveUp.antt =====
-- The loop of rx_handle_nak that moves the packets behind a given-up one up one place.
use ludlc.Prelude.{
  ℕ, zero, suc, ◌+◌, ◌%◌, ◌<◌, ◌≡◌, ◌≢◌, refl, ◌∙◌, ap, ap₂, sym, ◌∷◌, arith, update, ne→==-false,
  ==-refl,
}
use ludlc.Core.State.{PacketQueueItem, next_id}
use ludlc.Core.Ack.{move_up}
use ludlc.Core.Window.{IsWindow, slot-ne}
use ludlc.Core.Items.{items, items-update_before}

module _ (w : ℕ) (h : IsWindow w) where
  next-slot : (id x : ℕ) → id % w ≡ x % w → next_id id % w ≡ (x + 1) % w
  next-slot id x e = ground arith

  -- A slot that no round writes keeps its packet.
  pub move_up_other :
      (n id x j : ℕ) (q : ℕ → PacketQueueItem)
      → id % w ≡ (x + 1) % w
      → ((k : ℕ) → k < n → (x + 1 + k) % w ≢ j)
      → move_up w id n q j ≡ q j
  unfolding move_up
  move_up_other zero id x j q e f = refl
  move_up_other (suc n) id x j q e f =
      move_up_other n (next_id id) (x + 1) j (update q (id % w) (q (next_id id % w)))
        (next-slot id (x + 1) e)
        (λ k l p. f (k + 1) (omega arith) (ap (λ t. t % w) (omega arith) ∙ p))
      ∙ rw (
          ne→==-false (id % w) j
            (λ p. f 0 (omega arith) (ap (λ t. t % w) (omega arith) ∙ sym e ∙ p)))

  -- The packets behind `id` stand where they stood, one place on.
  pub items-move_up :
      (n id x : ℕ) (q : ℕ → PacketQueueItem)
      → id % w ≡ (x + 1) % w
      → n < w
      → items w (move_up w id n q) x n ≡ items w q (x + 1) n
  unfolding move_up
  items-move_up zero id x q e l = refl
  items-move_up (suc n) id x q e l =
      ap₂ ◌∷◌ (kept ∙ moved)
        (items-move_up n (next_id id) (x + 1) q' (next-slot id (x + 1) e) (omega arith) ∙ later)
    where
      q' : ℕ → PacketQueueItem
      q' = update q (id % w) (q (next_id id % w))

      kept : move_up w (next_id id) n q' ((x + 1) % w) ≡ q' ((x + 1) % w)
      kept =
          move_up_other n (next_id id) (x + 1) ((x + 1) % w) q' (next-slot id (x + 1) e) (λ k t p.
            slot-ne w (x + 1) 0 (k + 1) h (omega arith) (omega arith)
              (ap (λ t. t % w) (omega arith) ∙ sym p ∙ ap (λ t. t % w) (omega arith)))

      moved : q' ((x + 1) % w) ≡ q ((x + 1 + 1) % w)
      moved = ap q' (sym e) ∙ rw (==-refl (id % w)) (ap q (next-slot id (x + 1) e))

      later : items w q' (x + 1 + 1) n ≡ items w q (x + 1 + 1) n
      later =
          ap (λ i. items w (update q i (q (next_id id % w))) (x + 1 + 1) n) e
          ∙ items-update_before w q (x + 1 + 1) n (x + 1) (q (next_id id % w)) h (omega arith)
              (omega arith)
