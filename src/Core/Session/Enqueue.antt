-- ===== src/Core/Session/Enqueue.antt =====
-- A packet queued (src/lib/ludlc.c: ludlc_enqueue_data).
use ludlc.Prelude.{
  ℕ, ◌≤◌, ◌≡◌, refl, ◌∙◌, ap, sym, false, not, ◌&&◌, List, [], ◌∷◌, ◌++◌, map, arith, ltb, ◌==◌,
  All, append-nil,
}
use mathlib.Core.Path.{subst}
use mathlib.Core.List.{map-append}
use ludlc.Core.State.{Connection, Ret, ret_ok, einval, eagain, Effect, request_tx}
use ludlc.Core.Channel.{is_ctrl_chan}
use ludlc.Core.Send.{enqueue_data, enqueue_slot, clamp_ttl, tx_queue_full}
use ludlc.Core.Queue.{SentWithin, Request, view, HasTtl}
use ludlc.Core.Queue.Enqueue.{view-enqueue_slot, enqueue_slot-IsOrdered}
use ludlc.Core.Queue.Offer.{tests_kept}
use ludlc.Core.Queue.Balance.{Parcel, of_request}
use ludlc.Core.Session.{IsSound, IsQuiet, pending, confirmed}

-- The packet, if it has been accepted.
abbrev pub accepted : Ret → Parcel → List Parcel
accepted ret_ok p = p ∷ []
accepted _ p = []

-- What ludlc_enqueue_data leaves, of a packet.
pub record Queued (c : Connection) (p : Parcel) (out : Connection × Ret × List Effect)
    : Type 0 where
  pub sound : IsSound out.0
  pub added : pending out.0 ≡ pending c ++ accepted out.1 p
  pub silent : confirmed out.2 ≡ []

All-push {ℓ κ} :
    {A : Type ℓ} (P : A → Type κ) (xs : List A) (x : A) → All P xs → P x → All P (xs ++ (x ∷ []))
All-push P [] x h p = (p, tt)
All-push P (y ∷ ys) x h p = (h.0, All-push P ys x h.1 p)

clamp_ttl-HasTtl : (ttl : ℕ) → (1 ≤ clamp_ttl ttl) × (clamp_ttl ttl ≤ 127)
clamp_ttl-HasTtl ttl = ground arith

module _ {c : Connection} (s : IsSound c) (dst_chan buf size ttl : ℕ) where
  request : Request
  request = record { payload = buf; size = size; chan = dst_chan; ttl = clamp_ttl ttl }

  refused :
      (r : Ret) → accepted r (of_request request) ≡ [] → Queued c (of_request request) (c, r, [])
  unfolding confirmed
  refused r e = record {
    sound = s;
    added = sym (ap (λ ps. pending c ++ ps) e ∙ append-nil (pending c));
    silent = refl;
  }

  slot-SentWithin :
      tx_queue_full c ≡ false → SentWithin (enqueue_slot c dst_chan buf size (clamp_ttl ttl))
  unfolding enqueue_slot tx_queue_full
  slot-SentWithin room = ground (
    arith, s.ordered.window, s.ordered.room, s.ordered.ack_id, s.ordered.sent_id,
    s.ordered.queued_id, s.ordered.reported_id, s.sent,
  )

  slot-IsQuiet : IsQuiet (enqueue_slot c dst_chan buf size (clamp_ttl ttl))
  unfolding enqueue_slot
  slot-IsQuiet = record {
    free = s.quiet.free;
    calls = s.quiet.calls;
    no_confirm = s.quiet.no_confirm;
    no_u = s.quiet.no_u;
  }

  queued :
      c.flags.bus_out ≡ false
      → tx_queue_full c ≡ false
      → Queued c
          (of_request request)
          (enqueue_slot c dst_chan buf size (clamp_ttl ttl), ret_ok, request_tx ∷ [])
  unfolding confirmed request
  queued open_ room =
      let v = view-enqueue_slot s.ordered room dst_chan buf size (clamp_ttl ttl) in
      record {
        sound = record {
          ordered = enqueue_slot-IsOrdered s.ordered room dst_chan buf size (clamp_ttl ttl) open_;
          sent = slot-SentWithin room;
          ttl =
              subst (λ q. All HasTtl q.requests) (sym v)
                (All-push HasTtl (view c).requests request s.ttl (clamp_ttl-HasTtl ttl));
          reported = ap (λ q. q.outcomes) v ∙ s.reported;
          quiet = slot-IsQuiet;
        };
        added =
            ap (λ q. map of_request q.requests) v
            ∙ map-append of_request (view c).requests (request ∷ []);
        silent = refl;
      }

  -- An accepted packet is the last one pending; another changes nothing.
  pub enqueue_data-Queued :
      Queued c
        (record { payload = buf; size = size; chan = dst_chan })
        (enqueue_data c dst_chan buf size ttl)
  unfolding enqueue_data request
  enqueue_data-Queued =
      tests_kept {A = Connection × Ret × List Effect} (Queued c (of_request request))
        (buf == 0 && not (size == 0)) (is_ctrl_chan c dst_chan) (ltb c.cfg.max_payload size)
        c.flags.bus_out (tx_queue_full c) (refused einval refl) (refused eagain refl) queued
