-- ===== src/Core/Session/Close.antt =====
-- A session that ends (src/lib/ludlc.c: on_disconnect_lock).
use ludlc.Prelude.{◌≡◌, ◌∙◌, ap, sym, none, [], map, arith, All, append-nil}
use mathlib.Core.Path.{subst}
use ludlc.Core.State.{Connection, epipe}
use ludlc.Core.Disconnect.{on_disconnect_lock, sweep_queue, close_session}
use ludlc.Core.Report.{seq_reset_if_drained}
use ludlc.Core.Queue.{Queue, view, HasTtl, fail_all, resolve}
use ludlc.Core.Queue.Sweep.{view-on_disconnect_lock, on_disconnect_lock-IsOrdered}
use ludlc.Core.Queue.Balance.{parcels, resolved-parcels, of_request, of_outcome}
use ludlc.Core.Session.{IsSound, Between, SentWhenOpen}
use ludlc.Core.Session.Quiet.{on_disconnect_lock-IsQuiet}

on_disconnect_lock-SentWhenOpen : (c : Connection) → SentWhenOpen (on_disconnect_lock c)
unfolding on_disconnect_lock seq_reset_if_drained sweep_queue close_session
on_disconnect_lock-SentWhenOpen c = ground arith

fail_all-parcels :
    (q : Queue) → q.outcomes ≡ [] → parcels (fail_all epipe q, none) ≡ map of_request q.requests
fail_all-parcels q e =
    ap (λ os. parcels (fail_all epipe (record q { outcomes = os }), none)) e
    ∙ append-nil (map of_outcome (map (resolve epipe) q.requests))
    ∙ resolved-parcels epipe q.requests

-- The end of a session resolves all that is pending, in order.
pub on_disconnect_lock-Between :
    {c : Connection} → IsSound c → Between c (on_disconnect_lock c) none
on_disconnect_lock-Between {c} s = record {
  ordered = on_disconnect_lock-IsOrdered s.ordered;
  sent = on_disconnect_lock-SentWhenOpen c;
  ttl = subst (λ v. All HasTtl v.requests) (sym (view-on_disconnect_lock s.ordered)) tt;
  quiet = on_disconnect_lock-IsQuiet s.quiet;
  balance =
      ap (λ v. parcels (v, none)) (view-on_disconnect_lock s.ordered)
      ∙ fail_all-parcels (view c) s.reported;
}
