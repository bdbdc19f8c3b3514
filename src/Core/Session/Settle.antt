-- ===== src/Core/Session/Settle.antt =====
-- The callbacks that follow the locked part of an operation (src/lib/ludlc.c:
-- ludlc_confirm_unlocked).
use ludlc.Prelude.{
  ℕ, zero, suc, ◌≡◌, refl, ◌∙◌, ap, ap₂, sym, true, false, Option, none, some, List, [], ◌∷◌, ◌++◌,
  map, arith, Bool-cases, inl, inr, All, if◌then◌else◌, append_assoc, ◌==◌,
}
use mathlib.Core.Path.{subst}
use ludlc.Core.State.{
  Connection, PacketQueueItem, Effect, on_confirm, request_tx, on_connect, on_disconnect, on_caps,
  on_recv,
}
use ludlc.Core.Report.{
  confirm_unlocked, confirm_loop, confirm_pass, pass_empty, take_batch, take_u,
  seq_reset_if_drained, call_on_confirm?,
}
use ludlc.Core.Disconnect.{u_outstanding}
use ludlc.Core.Queue.{view, HasTtl, Outcome, as_lost}
use ludlc.Core.Queue.Drain.{Drained, confirm_unlocked-Drained, reports}
use ludlc.Core.Queue.Balance.{Parcel, of_outcome, of_lost, of_request}
use ludlc.Core.Session.{IsSound, Between, pending, SentWhenOpen, confirmed}

-- What holds whatever a thread that reports has done so far.
record IsHeld (c : Connection) : Type 0 where
  sent : SentWhenOpen c
  calls : c.cb.has_on_confirm ≡ true
  no_u : u_outstanding c.flags ≡ false

take_batch-IsHeld : (room : ℕ) (c : Connection) → IsHeld c → IsHeld (take_batch room c).0
unfolding take_batch
take_batch-IsHeld zero c h = h
take_batch-IsHeld (suc room) c h = elim (Bool-cases (c.last_reported == c.last_ack)) [
  | inl e ↦ rw e h
  | inr e ↦
      rw e (take_batch-IsHeld room _ (record { sent = h.sent; calls = h.calls; no_u = h.no_u }))
]

seq_reset-IsHeld : (c : Connection) → IsHeld c → IsHeld (seq_reset_if_drained c)
unfolding seq_reset_if_drained
seq_reset-IsHeld c h = ground (arith, h.sent, h.calls, h.no_u)

confirm_pass-IsHeld : (c : Connection) → IsHeld c → IsHeld (confirm_pass c).conn
unfolding confirm_pass
confirm_pass-IsHeld c h =
    seq_reset-IsHeld _
      (take_batch-IsHeld 8 _ (record { sent = h.sent; calls = h.calls; no_u = h.no_u }))

confirm_loop-IsHeld : (fuel : ℕ) (c : Connection) → IsHeld c → IsHeld (confirm_loop fuel c).0
unfolding confirm_loop
confirm_loop-IsHeld zero c h = h
confirm_loop-IsHeld (suc fuel) c h =
    elim (Bool-cases (pass_empty (confirm_pass c).u_pkt (confirm_pass c).batch)) [
      | inl e ↦
          let p = confirm_pass-IsHeld c h in
          rw e (record { sent = p.sent; calls = p.calls; no_u = p.no_u })
      | inr e ↦ rw e (confirm_loop-IsHeld fuel (confirm_pass c).conn (confirm_pass-IsHeld c h))
    ]

confirm_unlocked-IsHeld : (c : Connection) → IsHeld c → IsHeld (confirm_unlocked c).0
unfolding confirm_unlocked
confirm_unlocked-IsHeld c h = elim (Bool-cases c.report_busy) [
  | inl e ↦ rw e (record { sent = h.sent; calls = h.calls; no_u = h.no_u })
  | inr e ↦
      rw e (confirm_loop-IsHeld _ _ (record { sent = h.sent; calls = h.calls; no_u = h.no_u }))
]

pub confirmed-append : (xs ys : List Effect) → confirmed (xs ++ ys) ≡ confirmed xs ++ confirmed ys
unfolding confirmed
confirmed-append [] ys = refl
confirmed-append (on_confirm e ch p n ∷ xs) ys =
    ap (λ ps. record { payload = p; size = n; chan = ch } ∷ ps) (confirmed-append xs ys)
confirmed-append (request_tx ∷ xs) ys = confirmed-append xs ys
confirmed-append (on_connect ∷ xs) ys = confirmed-append xs ys
confirmed-append (on_disconnect ∷ xs) ys = confirmed-append xs ys
confirmed-append (on_caps o ∷ xs) ys = confirmed-append xs ys
confirmed-append (on_recv c o t ∷ xs) ys = confirmed-append xs ys

confirmed-reports : (os : List Outcome) → confirmed (reports true os) ≡ map of_outcome os
unfolding confirmed
confirmed-reports [] = refl
confirmed-reports (o ∷ os) = ap (λ ps. of_outcome o ∷ ps) (confirmed-reports os)

confirmed-call_on_confirm? :
    (c : Connection) (expired : Option PacketQueueItem)
    → c.cb.has_on_confirm ≡ true
    → confirmed (call_on_confirm? c expired) ≡ of_lost (as_lost expired)
unfolding confirmed
confirmed-call_on_confirm? c none e = refl
confirmed-call_on_confirm? c (some it) e = rw e refl

-- The callbacks that follow an operation under the lock, that of the packet given up last, confirm all
-- that it has resolved; what it has left is pending.
pub record Settled (c out : Connection) (effects : List Effect) : Type 0 where
  pub sound : IsSound out
  pub balance : pending c ≡ confirmed effects ++ pending out

pub Between-Settled :
    {c d : Connection} {expired : Option PacketQueueItem}
    → Between c d expired
    → Settled c (confirm_unlocked d).0 ((confirm_unlocked d).1 ++ call_on_confirm? d expired)
Between-Settled {c} {d} {expired} b = record {
  sound = record {
    ordered = r.ordered;
    sent = held.sent r.reopened;
    ttl = subst (All HasTtl) (sym r.kept) b.ttl;
    reported = r.none_left;
    quiet = record { free = r.idle; calls = held.calls; no_confirm = r.no_u; no_u = held.no_u };
  };
  balance =
      sym b.balance
      ∙ sym (append_assoc outs lost (map of_request (view d).requests))
      ∙ ap₂ (λ ps rs. ps ++ map of_request rs) (sym all_confirmed) (sym r.kept);
}
  where
    r : Drained d (confirm_unlocked d)
    r = confirm_unlocked-Drained b.ordered b.quiet.free

    held : IsHeld (confirm_unlocked d).0
    held =
        confirm_unlocked-IsHeld d
          (record { sent = b.sent; calls = b.quiet.calls; no_u = b.quiet.no_u })

    outs : List Parcel
    outs = map of_outcome (view d).outcomes

    lost : List Parcel
    lost = of_lost (as_lost expired)

    no_u_taken : take_u d ≡ none
    no_u_taken = ap (λ u. if u then some d.u_confirm else none) b.quiet.no_confirm

    callbacks : (confirm_unlocked d).1 ≡ reports true (view d).outcomes
    callbacks =
        r.reported
        ∙ ap₂ (λ u calls. call_on_confirm? d u ++ reports calls (view d).outcomes) no_u_taken
            b.quiet.calls

    all_confirmed : confirmed ((confirm_unlocked d).1 ++ call_on_confirm? d expired) ≡ outs ++ lost
    all_confirmed =
        confirmed-append (confirm_unlocked d).1 (call_on_confirm? d expired)
        ∙ ap₂ (λ ps qs. ps ++ qs) (ap confirmed callbacks ∙ confirmed-reports (view d).outcomes)
            (confirmed-call_on_confirm? d expired b.quiet.calls)
