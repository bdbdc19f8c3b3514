-- ===== src/Core/Queue/Confirm.antt =====
-- Reporting against the queue: ludlc_confirm_unlocked.
use ludlc.Prelude.{
  ℕ, zero, suc, ◌+◌, ◌≡◌, ◌≢◌, refl, ◌∙◌, ap, ap₂, sym, List, [], ◌∷◌, ◌++◌, map, arith, inl, inr,
  Bool-cases, min, length, ◌==◌,
}
use ludlc.Core.State.{Connection, PacketQueueItem, next_id, slot}
use ludlc.Core.Report.{take_batch}
use ludlc.Core.Window.{mod-window}
use ludlc.Core.Items.{items-congr}
use ludlc.Core.Queue.{IsOrdered, view, unreported, as_outcome}

-- The connection with one more packet reported.
abbrev advance : Connection → Connection
advance c = record c { last_reported = next_id c.last_reported }

module _ {c : Connection} (o : IsOrdered c) (left : c.last_reported ≢ c.last_ack) where
  unreported-advance : unreported c ≡ suc (unreported (advance c))
  unreported-advance = omega (arith, o.reported_id, o.ack_id)

  advance-IsOrdered : IsOrdered (advance c)
  advance-IsOrdered = let e = unreported-advance in ground (arith, o.window)

  -- The packet after the last one reported is the first outcome.
  outcomes-advance :
      (view c).outcomes
      ≡ as_outcome (c.packets_q (slot c (next_id c.last_reported))) ∷ (view (advance c)).outcomes
  outcomes-advance = rw unreported-advance (
      ap₂ ◌∷◌
        (ap (λ i. as_outcome (c.packets_q i))
          (sym (mod-window c.cfg.window (c.last_reported + 1) o.window)))
        (ap (map as_outcome) (
          items-congr c.cfg.window c.packets_q (c.last_reported + 1) (next_id c.last_reported)
            (unreported (advance c)) o.window
            (sym (mod-window c.cfg.window (c.last_reported + 1) o.window)))))

-- What a batch holds, and the connection that it leaves.
pub record Batch (room : ℕ) (c : Connection) (out : Connection × List PacketQueueItem)
    : Type 0 where
  pub same : out.0 ≡ record c { last_reported = out.0.last_reported }
  pub ordered : IsOrdered out.0
  pub taken : map as_outcome out.1 ++ (view out.0).outcomes ≡ (view c).outcomes
  pub size : length out.1 ≡ min room (unreported c)
  pub left : unreported out.0 + length out.1 ≡ unreported c

no-Batch :
    (room : ℕ) {c : Connection} → IsOrdered c → min room (unreported c) ≡ 0 → Batch room c (c, [])
no-Batch room o e = record {
  same = refl;
  ordered = o;
  taken = refl;
  size = sym e;
  left = omega arith;
}

pub take_batch-Batch : (room : ℕ) {c : Connection} → IsOrdered c → Batch room c (take_batch room c)
unfolding take_batch
take_batch-Batch zero o = no-Batch zero o (omega arith)
take_batch-Batch (suc room) {c} o = elim (Bool-cases (c.last_reported == c.last_ack)) [
  | inl e ↦ rw e (no-Batch (suc room) o (ground arith))
  | inr e ↦
      let ne : c.last_reported ≢ c.last_ack = ground arith in
      let rest = take_batch-Batch room (advance-IsOrdered o ne) in
      let fewer = unreported-advance o ne in
      rw e (record {
        same = rest.same;
        ordered = rest.ordered;
        taken =
            ap (λ l. as_outcome (c.packets_q (slot c (next_id c.last_reported))) ∷ l) rest.taken
            ∙ sym (outcomes-advance o ne);
        size = omega (arith, rest.size);
        left = omega (arith, rest.left);
      })
]
