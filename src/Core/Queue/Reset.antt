-- ===== src/Core/Queue/Reset.antt =====
-- ludlc_seq_reset_if_drained against the queue.
use ludlc.Prelude.{◌≡◌, Bool, false, not, ◌||◌, inl, inr, Bool-cases, arith, ◌==◌, []}
use ludlc.Core.State.{Connection}
use ludlc.Core.Report.{seq_reset_if_drained}
use ludlc.Core.Queue.{IsOrdered, Queue, view, unreported, unacked}

-- A queue with nothing in it.
abbrev pub empty : Queue
empty = record { outcomes = []; requests = [] }

pub view_of_empty : (c : Connection) → unreported c ≡ 0 → unacked c ≡ 0 → view c ≡ empty
view_of_empty c e e' = rw (e, e')

-- What keeps the sequence from being reset.
abbrev pub is_kept : Connection → Bool
is_kept c = not c.flags.bus_out || (not (c.last_reported == c.last_ack) || c.flags.u_confirm_f)

module _ {c : Connection} (o : IsOrdered c) where
  pub seq_reset-IsOrdered : IsOrdered (seq_reset_if_drained c)
  unfolding seq_reset_if_drained
  seq_reset-IsOrdered = elim (Bool-cases (is_kept c)) [
    | inl e ↦ rw e o
    | inr e ↦ rw e (ground (arith, o.window))
  ]

  -- The reset does not change what the queue holds, which is nothing.
  pub view-seq_reset : view (seq_reset_if_drained c) ≡ view c
  unfolding seq_reset_if_drained
  view-seq_reset = elim (Bool-cases (is_kept c)) [
    | inl e ↦ rw e
    | inr e ↦ rw e (rw (view_of_empty c (ground arith) (ground (arith, o.closed))))
  ]

  pub unreported-seq_reset : unreported (seq_reset_if_drained c) ≡ unreported c
  unfolding seq_reset_if_drained
  unreported-seq_reset = ground arith

pub u_confirm-seq_reset :
    (c : Connection) → (seq_reset_if_drained c).flags.u_confirm_f ≡ c.flags.u_confirm_f
unfolding seq_reset_if_drained
u_confirm-seq_reset c = ground arith

pub cb-seq_reset : (c : Connection) → (seq_reset_if_drained c).cb ≡ c.cb
unfolding seq_reset_if_drained
cb-seq_reset c = ground arith

-- With nothing left to report the queue is open again.
pub bus_out-seq_reset :
    (c : Connection)
    → c.last_reported ≡ c.last_ack
    → c.flags.u_confirm_f ≡ false
    → (seq_reset_if_drained c).flags.bus_out ≡ false
unfolding seq_reset_if_drained
bus_out-seq_reset c e u = ground arith
