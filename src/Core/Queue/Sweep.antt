-- ===== src/Core/Queue/Sweep.antt =====
-- on_disconnect_lock against the queue (src/lib/ludlc.c: on_disconnect_lock).
use native.Mathlib.Nat.{le_refl, le_of_eq}
use ludlc.Prelude.{
  ℕ, zero, suc, ◌≤◌, ◌≡◌, refl, ◌∙◌, ap, ap₂, sym, arith, length, length-map, take-all, drop-all,
}
use ludlc.Core.State.{Connection, Errno, epipe}
use ludlc.Core.Disconnect.{fail_pending, close_session, sweep_queue, on_disconnect_lock}
use ludlc.Core.Items.{length-items, items}
use ludlc.Core.Queue.{IsOrdered, Queue, view, unacked, as_request, resolve_many, fail_all}
use ludlc.Core.Queue.Settle.{Settled, settle_many, settle_many-Settled}
use ludlc.Core.Queue.Reset.{seq_reset-IsOrdered, view-seq_reset}

packets_q-settle_many :
    (n : ℕ) (c : Connection)
    → (settle_many epipe n c).packets_q ≡ fail_pending c.cfg.window c.last_ack n c.packets_q
unfolding fail_pending
packets_q-settle_many zero c = refl
packets_q-settle_many (suc n) c = packets_q-settle_many n _

resolve_many_all :
    (e : Errno) (n : ℕ) (q : Queue) → length q.requests ≤ n → resolve_many e n q ≡ fail_all e q
resolve_many_all e n q h = rw (take-all n q.requests h, drop-all n q.requests h)

module _ {c : Connection} (o : IsOrdered c) where
  -- The sweep resolves all that is unacknowledged.
  settled : Settled epipe (unacked c) c (settle_many epipe (unacked c) c)
  settled = settle_many-Settled epipe (unacked c) o (le_refl (unacked c))

  sweep_queue-settle_many : sweep_queue c ≡ settle_many epipe (unacked c) c
  unfolding sweep_queue
  sweep_queue-settle_many =
      ap₂ (λ a q. record c { last_ack = a; packets_q = q })
        (sym (settled.ack ∙ omega (arith, o.ack_id, o.queued_id)))
        (sym (packets_q-settle_many (unacked c) c))
      ∙ sym settled.rest

  view-sweep_queue : view (sweep_queue c) ≡ fail_all epipe (view c)
  view-sweep_queue =
      ap view sweep_queue-settle_many
      ∙ settled.queue
      ∙ resolve_many_all epipe (unacked c) (view c) (le_of_eq all)
    where
      all : length (view c).requests ≡ unacked c
      all =
          length-map (items c.cfg.window c.packets_q c.last_ack (unacked c)) as_request
          ∙ length-items c.cfg.window c.packets_q c.last_ack (unacked c)

  swept-IsOrdered : IsOrdered (sweep_queue (close_session c))
  unfolding sweep_queue close_session
  swept-IsOrdered = ground (arith, o.window)

  view-close_session : view (sweep_queue (close_session c)) ≡ view (sweep_queue c)
  unfolding sweep_queue close_session
  view-close_session = refl

  -- With the counters in order, on_disconnect_lock fails every request with EPIPE, in order:
  -- none is left, and each has become an outcome behind those that wait already.
  pub view-on_disconnect_lock : view (on_disconnect_lock c) ≡ fail_all epipe (view c)
  unfolding on_disconnect_lock
  view-on_disconnect_lock = view-seq_reset swept-IsOrdered ∙ view-close_session ∙ view-sweep_queue

  -- on_disconnect_lock keeps the counters in order, whether or not it could start the sequence anew.
  pub on_disconnect_lock-IsOrdered : IsOrdered (on_disconnect_lock c)
  unfolding on_disconnect_lock
  on_disconnect_lock-IsOrdered =
      let r = seq_reset-IsOrdered swept-IsOrdered in ground (arith, r.window)
