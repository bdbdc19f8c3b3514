-- ===== src/Core/Transmit/Numbered.antt =====
-- Which packet a frame carries.
use ludlc.Prelude.{
  ℕ, zero, suc, ◌+◌, ◌%◌, ◌<◌, ◌≡◌, ◌≢◌, ◌∙◌, ap, Bool, true, some, List, [], map, arith, ◌==◌,
  if◌then◌else◌, get_elem?,
}
use ludlc.Core.State.{Connection, PacketQueueItem, id_sub, next_id, slot}
use ludlc.Core.Transmit.{tx_copy, choose, send_queued, put_ack, track_nak, send_connected}
use ludlc.Core.Queue.{IsOrdered, SentWithin, Request, view, unacked, as_request}
use ludlc.Core.Items.{items}

get_elem?-items :
    (w k n x : ℕ) (q : ℕ → PacketQueueItem)
    → k < n
    → get_elem? (map as_request (items w q x n)) k ≡ some (as_request (q ((x + 1 + k) % w)))
get_elem?-items w k zero x q h = absurd (omega arith)
get_elem?-items w zero (suc n) x q h = ap (λ i. some (as_request (q (i % w)))) (omega arith)
get_elem?-items w (suc k) (suc n) x q h =
    get_elem?-items w k n (x + 1) q (omega arith)
    ∙ ap (λ i. some (as_request (q (i % w)))) (omega arith)

-- The octets that a request is sent with.
abbrev pub octets_of : (ℕ → ℕ → List ℕ) → Request → List ℕ
octets_of memory r = if r.size == 0 then [] else memory r.payload r.size

module _ (memory : ℕ → ℕ → List ℕ) {c : Connection} (u : Bool) (o : IsOrdered c) (s : SentWithin c)
    (idle : c.flags.u_idle ≡ true) (waiting : c.last_sent ≢ c.last_queued) where
  -- The packet that is due.
  due : PacketQueueItem
  due = c.packets_q (slot c (next_id c.last_sent))

  request-due : get_elem? (view c).requests (id_sub c.last_sent c.last_ack) ≡ some (as_request due)
  unfolding due
  request-due =
      get_elem?-items c.cfg.window (id_sub c.last_sent c.last_ack) (unacked c) c.last_ack
        c.packets_q (omega (arith, o.ack_id, o.sent_id, o.queued_id))
      ∙ ap (λ i. some (as_request (c.packets_q i))) (ground (arith, o.window))

  chosen : choose c u ≡ send_queued c
  unfolding choose
  chosen = ground arith

  frame-due :
      let (d, f, _, _) = send_connected memory c u in
      (f.hdr.tx_id ≡ next_id c.last_sent)
      × (f.hdr.hdr_chan ≡ due.chan)
      × (f.payload ≡ tx_copy (octets_of memory (as_request due)))
      × (d.last_sent ≡ next_id c.last_sent)
  unfolding send_connected due send_queued put_ack track_nak
  frame-due = rw chosen (ground arith)

  -- On a link that is up, with the counters in order, with packets waiting and no unnumbered
  -- one, the frame is the first request of the queue that has not been sent, under the next ID:
  -- its channel, and the octets at its buffer as they are now. That request counts as sent.
  pub send_connected-due :
      let (d, f, _, _) = send_connected memory c u in
      (r : Request) × (get_elem? (view c).requests (id_sub c.last_sent c.last_ack) ≡ some r)
      × (f.hdr.tx_id ≡ next_id c.last_sent)
      × (f.hdr.hdr_chan ≡ r.chan)
      × (f.payload ≡ tx_copy (octets_of memory r))
      × (d.last_sent ≡ next_id c.last_sent)
  unfolding due
  send_connected-due =
      let (id, chan, octets, sent) = frame-due in
      (as_request due, request-due, id, chan, octets, sent)
