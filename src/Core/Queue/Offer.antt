-- ===== src/Core/Queue/Offer.antt =====
-- The whole of ludlc_enqueue_data against the queue (src/lib/ludlc.c: ludlc_enqueue_data).
use ludlc.Prelude.{
  ℕ, ◌+◌, ◌≡◌, refl, ◌∙◌, ap, ap₂, sym, Bool, true, false, not, ◌&&◌, ◌||◌, List, [], ◌∷◌, arith,
  length, length-map, ltb, leb, ◌==◌, if◌then◌else◌,
}
use ludlc.Core.State.{Connection, Ret, ret_ok, einval, eagain, Effect, request_tx, id_sub}
use ludlc.Core.Channel.{is_ctrl_chan}
use ludlc.Core.Send.{tx_queue_full, enqueue_slot, enqueue_data, clamp_ttl}
use ludlc.Core.Items.{items, length-items}
use ludlc.Core.Queue.{
  IsOrdered, Queue, Request, as_outcome, as_request, push, view, unreported, unacked,
}
use ludlc.Core.Queue.Enqueue.{view-enqueue_slot, enqueue_slot-IsOrdered}

-- How many requests a queue still has to report.
abbrev pub occupied : Queue → ℕ
occupied q = length q.outcomes + length q.requests

-- What a queue of `w` places does with a request: an invalid one is refused, and so is a valid one
-- while the queue takes none or is full; the others go to the back, and the transmitter is woken.
unfoldable pub offer : Bool → Bool → ℕ → Request → Queue → Queue × Ret × List Effect
offer invalid closed w r q =
    if invalid
    then (q, einval, [])
    else if closed || leb w (occupied q)
    then (q, eagain, [])
    else (push r q, ret_ok, request_tx ∷ [])

-- What ludlc_enqueue_data calls invalid.
abbrev pub is_invalid : Connection → ℕ → ℕ → ℕ → Bool
is_invalid c dst_chan buf size =
    (buf == 0 && not (size == 0)) || (is_ctrl_chan c dst_chan || ltb c.cfg.max_payload size)

-- A result, its connection replaced by the queue that it holds.
abbrev pub viewed : Connection × Ret × List Effect → Queue × Ret × List Effect
viewed out = (view out.0, out.1, out.2)

module _ {c : Connection} (o : IsOrdered c) where
  pub occupied-view : occupied (view c) ≡ unreported c + unacked c
  occupied-view =
      ap₂ (λ m n. m + n)
        (length-map (items c.cfg.window c.packets_q c.last_reported (unreported c)) as_outcome
          ∙ length-items c.cfg.window c.packets_q c.last_reported (unreported c))
        (length-map (items c.cfg.window c.packets_q c.last_ack (unacked c)) as_request
          ∙ length-items c.cfg.window c.packets_q c.last_ack (unacked c))

  tx_queue_full-occupied : tx_queue_full c ≡ leb c.cfg.window (occupied (view c))
  unfolding tx_queue_full
  tx_queue_full-occupied = ap (leb c.cfg.window) (total ∙ sym occupied-view)
    where
      total : id_sub c.last_queued c.last_reported ≡ unreported c + unacked c
      total = ground (arith, o.window, o.room, o.reported_id, o.ack_id, o.queued_id)

-- The order of the code's tests does not show in its result.
tests_joined {ℓ κ} :
    {A : Type ℓ} {B : Type κ} (f : A → B) (null ctrl big closed full : Bool) (bad busy done : A)
    (done' : B)
    → (closed ≡ false → full ≡ false → f done ≡ done')
    → f (
        if null
        then bad
        else if ctrl
        then bad
        else if big
        then bad
        else if closed
        then busy
        else if not full
        then done
        else busy)
      ≡ (if null || (ctrl || big) then f bad else if closed || full then f busy else done')
tests_joined f true ctrl big closed full bad busy done done' h = refl
tests_joined f false true big closed full bad busy done done' h = refl
tests_joined f false false true closed full bad busy done done' h = refl
tests_joined f false false false true full bad busy done done' h = refl
tests_joined f false false false false true bad busy done done' h = refl
tests_joined f false false false false false bad busy done done' h = h refl refl

pub tests_kept {ℓ κ} :
    {A : Type ℓ} (P : A → Type κ) (null ctrl big closed full : Bool) {bad busy done : A}
    → P bad
    → P busy
    → (closed ≡ false → full ≡ false → P done)
    → P (
        if null
        then bad
        else if ctrl
        then bad
        else if big
        then bad
        else if closed
        then busy
        else if not full
        then done
        else busy)
tests_kept P true ctrl big closed full e g h = e
tests_kept P false true big closed full e g h = e
tests_kept P false false true closed full e g h = e
tests_kept P false false false true full e g h = g
tests_kept P false false false false true e g h = g
tests_kept P false false false false false e g h = h refl refl

-- On a queue in order, ludlc_enqueue_data is the queue's `offer` of the request, its TTL brought within
-- bounds, on every branch: what it holds afterwards, its result, and what it does to the outside.
pub enqueue_data-offer :
    {c : Connection}
    → IsOrdered c
    → (dst_chan buf size ttl : ℕ)
    → viewed (enqueue_data c dst_chan buf size ttl)
      ≡ offer
          (is_invalid c dst_chan buf size)
          c.flags.bus_out
          c.cfg.window
          (record { payload = buf; size = size; chan = dst_chan; ttl = clamp_ttl ttl })
          (view c)
unfolding enqueue_data offer
enqueue_data-offer {c} o dst_chan buf size ttl =
    tests_joined viewed (buf == 0 && not (size == 0)) (is_ctrl_chan c dst_chan)
      (ltb c.cfg.max_payload size) c.flags.bus_out (tx_queue_full c) (c, einval, []) (c, eagain, [])
      (enqueue_slot c dst_chan buf size (clamp_ttl ttl), ret_ok, request_tx ∷ [])
      (
        push (record { payload = buf; size = size; chan = dst_chan; ttl = clamp_ttl ttl }) (view c),
        ret_ok,
        request_tx ∷ [],
      )
      (λ _ room.
        ap (λ q. (q, ret_ok, request_tx ∷ []))
          (view-enqueue_slot o room dst_chan buf size (clamp_ttl ttl)))
    ∙ ap
        (λ full.
          if is_invalid c dst_chan buf size
          then (view c, einval, [])
          else if c.flags.bus_out || full
          then (view c, eagain, [])
          else (
            push (record { payload = buf; size = size; chan = dst_chan; ttl = clamp_ttl ttl })
                (view c),
            ret_ok,
            request_tx ∷ [],
          ))
        (tx_queue_full-occupied o)

-- ludlc_enqueue_data keeps the queue in order.
pub enqueue_data-IsOrdered :
    {c : Connection}
    → IsOrdered c
    → (dst_chan buf size ttl : ℕ) → IsOrdered (enqueue_data c dst_chan buf size ttl).0
unfolding enqueue_data
enqueue_data-IsOrdered {c} o dst_chan buf size ttl =
    tests_kept {A = Connection × Ret × List Effect} (λ out. IsOrdered out.0)
      (buf == 0 && not (size == 0)) (is_ctrl_chan c dst_chan) (ltb c.cfg.max_payload size)
      c.flags.bus_out (tx_queue_full c) o o
      (λ open_ room. enqueue_slot-IsOrdered o room dst_chan buf size (clamp_ttl ttl) open_)
