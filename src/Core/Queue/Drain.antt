-- ===== src/Core/Queue/Drain.antt =====
-- ludlc_confirm_unlocked against the queue (src/lib/ludlc.c: ludlc_confirm_unlocked).
use ludlc.Prelude.{
  ℕ, zero, suc, ◌+◌, ◌<◌, ◌≡◌, refl, ◌∙◌, ap, ap₂, sym, Bool, true, false, Option, none, some, List,
  [], ◌∷◌, ◌++◌, map, arith, inl, inr, Bool-cases, min, length, if◌then◌else◌,
}
use mathlib.Core.Path.{subst}
use ludlc.Core.State.{Connection, PacketQueueItem, Effect, on_confirm, id_sub}
use ludlc.Core.Report.{
  take_u, clear_u, Pass, confirm_pass, confirm_loop, confirm_unlocked, seq_reset_if_drained,
  pass_empty, call_on_confirms, call_on_confirm?,
}
use ludlc.Core.Queue.{IsOrdered, Outcome, view, unreported, as_outcome}
use ludlc.Core.Queue.Confirm.{Batch, take_batch-Batch}
use ludlc.Core.Queue.Reset.{
  seq_reset-IsOrdered, view-seq_reset, unreported-seq_reset, u_confirm-seq_reset, bus_out-seq_reset,
  cb-seq_reset,
}

-- The callback that an outcome asks for.
abbrev pub confirmation : Outcome → Effect
confirmation o = on_confirm o.error o.chan o.payload o.size

-- The callbacks for outcomes, if the application takes confirmations.
abbrev pub reports : Bool → List Outcome → List Effect
reports true os = map confirmation os
reports false os = []

reports-append :
    (b : Bool) (os ps : List Outcome) → reports b (os ++ ps) ≡ reports b os ++ reports b ps
reports-append false os ps = refl
reports-append true [] ps = refl
reports-append true (o ∷ os) ps = ap (λ l. confirmation o ∷ l) (reports-append true os ps)

call_on_confirms-reports :
    (c : Connection) (b : Bool) (pkts : List PacketQueueItem)
    → c.cb.has_on_confirm ≡ b
    → call_on_confirms c pkts ≡ reports b (map as_outcome pkts)
call_on_confirms-reports c true [] e = refl
call_on_confirms-reports c false [] e = refl
call_on_confirms-reports c true (p ∷ ps) e =
    rw e (ap (λ l. confirmation (as_outcome p) ∷ l) (call_on_confirms-reports c true ps e))
call_on_confirms-reports c false (p ∷ ps) e = rw e (call_on_confirms-reports c false ps e)

-- What a pass leaves and takes.
record Passed (c : Connection) (p : Pass) : Type 0 where
  ordered : IsOrdered p.conn
  no_u : p.conn.flags.u_confirm_f ≡ false
  u : p.u_pkt ≡ take_u c
  taken : map as_outcome p.batch ++ (view p.conn).outcomes ≡ (view c).outcomes
  kept : (view p.conn).requests ≡ (view c).requests
  size : length p.batch ≡ min 8 (unreported c)
  left : unreported p.conn + length p.batch ≡ unreported c
  cb : p.conn.cb ≡ c.cb
  reopened : unreported p.conn ≡ 0 → p.conn.flags.bus_out ≡ false

clear_u-IsOrdered : {c : Connection} → IsOrdered c → IsOrdered (clear_u c)
clear_u-IsOrdered o = ground (arith, o.window)

pass_of_batch :
    {c : Connection} {out : Connection × List PacketQueueItem}
    → IsOrdered c
    → Batch 8 (clear_u c) out
    → Passed c (record { conn = seq_reset_if_drained out.0; u_pkt = take_u c; batch = out.1 })
pass_of_batch {c} {out} o b = record {
  ordered = seq_reset-IsOrdered b.ordered;
  no_u = u_confirm-seq_reset out.0 ∙ quiet;
  u = refl;
  taken = ap (λ v. map as_outcome out.1 ++ v.outcomes) (view-seq_reset b.ordered) ∙ b.taken;
  kept = ap (λ v. v.requests) (view-seq_reset b.ordered) ∙ ap (λ d. (view d).requests) b.same;
  size = b.size;
  left = rw (unreported-seq_reset b.ordered) b.left;
  cb = cb-seq_reset out.0 ∙ ap (λ d. d.cb) b.same;
  reopened = λ e.
      bus_out-seq_reset out.0 (ground (arith, unreported-seq_reset b.ordered, b.ordered)) quiet;
}
  where
    quiet : out.0.flags.u_confirm_f ≡ false
    quiet = ap (λ d. d.flags.u_confirm_f) b.same

confirm_pass-Passed : {c : Connection} → IsOrdered c → Passed c (confirm_pass c)
unfolding confirm_pass
confirm_pass-Passed {c} o = pass_of_batch o (take_batch-Batch 8 (clear_u-IsOrdered o))

-- What ludlc_confirm_unlocked leaves and does.
pub record Drained (c : Connection) (out : Connection × List Effect) : Type 0 where
  pub ordered : IsOrdered out.0
  pub none_left : (view out.0).outcomes ≡ []
  pub kept : (view out.0).requests ≡ (view c).requests
  pub idle : out.0.report_busy ≡ false
  pub no_u : out.0.flags.u_confirm_f ≡ false
  pub reopened : out.0.flags.bus_out ≡ false
  pub reported :
      out.1 ≡ call_on_confirm? c (take_u c) ++ reports c.cb.has_on_confirm (view c).outcomes

-- What a pass is still to take.
abbrev to_take : Connection → ℕ
to_take c = unreported c + (if c.flags.u_confirm_f then 1 else 0)

pass_empty_parts :
    (u : Option PacketQueueItem) (b : List PacketQueueItem)
    → pass_empty u b ≡ true
    → (u ≡ none) × (b ≡ [])
pass_empty_parts none [] e = (refl, refl)
pass_empty_parts none (_ ∷ _) e = cc
pass_empty_parts (some _) b e = cc

pass_busy :
    (u : Option PacketQueueItem) (b : List PacketQueueItem)
    → pass_empty u b ≡ false
    → u ≡ none
    → 0 < length b
pass_busy none [] e n = cc
pass_busy none (_ ∷ _) e n = omega arith
pass_busy (some _) b e n = cc

outcomes_of_none : (c : Connection) → unreported c ≡ 0 → (view c).outcomes ≡ []
outcomes_of_none c e = rw e

module _ {c : Connection} {p : Pass} (d : Passed c p) where
  -- The last pass, which finds nothing.
  stop-Drained :
      pass_empty p.u_pkt p.batch ≡ true → Drained c (record (p.conn) { report_busy = false }, [])
  stop-Drained e = record {
    ordered = ground (arith, d.ordered);
    none_left = outcomes_of_none p.conn (omega (arith, d.left, none_here));
    kept = d.kept;
    idle = refl;
    no_u = d.no_u;
    reopened = d.reopened (omega (arith, d.left, none_here));
    reported = rw (sym d.u ∙ parts.0, outcomes_of_none c none_here) (nothing c.cb.has_on_confirm);
  }
    where
      parts : (p.u_pkt ≡ none) × (p.batch ≡ [])
      parts = pass_empty_parts p.u_pkt p.batch e

      no-Batch : length p.batch ≡ 0
      no-Batch = ap length parts.1

      none_here : unreported c ≡ 0
      none_here = omega (arith, d.size, d.left, no-Batch)

      nothing : (b : Bool) → [] ≡ reports b []
      nothing true = refl
      nothing false = refl

  fewer : pass_empty p.u_pkt p.batch ≡ false → to_take p.conn < to_take c
  fewer e = elim (Bool-cases c.flags.u_confirm_f) [
    | inl t ↦ rw (t, d.no_u) (omega (arith, d.left))
    | inr f ↦
        let none_u : p.u_pkt ≡ none = d.u ∙ rw f in
        rw (f, d.no_u) (omega (arith, d.left, pass_busy p.u_pkt p.batch e none_u))
  ]

  -- A pass that finds something, and what the passes after it do.
  go_on-Drained :
      {rest : Connection × List Effect}
      → Drained p.conn rest
      → Drained c (rest.0, call_on_confirm? c p.u_pkt ++ (call_on_confirms c p.batch ++ rest.1))
  go_on-Drained {rest} r = record {
    ordered = r.ordered;
    none_left = r.none_left;
    kept = r.kept ∙ d.kept;
    idle = r.idle;
    no_u = r.no_u;
    reopened = r.reopened;
    reported = ap₂ (λ u l. call_on_confirm? c u ++ l) d.u later;
  }
    where
      b : Bool
      b = c.cb.has_on_confirm

      rest_reported : rest.1 ≡ reports b (view p.conn).outcomes
      rest_reported =
          r.reported ∙ rw (d.no_u) (ap (λ k. reports k.has_on_confirm (view p.conn).outcomes) d.cb)

      later : call_on_confirms c p.batch ++ rest.1 ≡ reports b (view c).outcomes
      later =
          ap₂ ◌++◌ (call_on_confirms-reports c b p.batch refl) rest_reported
          ∙ sym (reports-append b (map as_outcome p.batch) (view p.conn).outcomes)
          ∙ ap (reports b) d.taken

confirm_loop-Drained :
    (fuel : ℕ) {c : Connection} → IsOrdered c → to_take c < fuel → Drained c (confirm_loop fuel c)
unfolding confirm_loop
confirm_loop-Drained zero o h = absurd (omega arith)
confirm_loop-Drained (suc fuel) {c} o h = elim (Bool-cases (pass_empty p.u_pkt p.batch)) [
  | inl e ↦ rw e (stop-Drained d e)
  | inr e ↦ rw e (go_on-Drained d (confirm_loop-Drained fuel d.ordered (omega (arith, fewer d e))))
]
  where
    p : Pass
    p = confirm_pass c

    d : Passed c p
    d = confirm_pass-Passed o

-- With the counters in order, ludlc_confirm_unlocked, called while no other thread reports,
-- returns with nothing left to report: it has run the callback of the unnumbered packet, then
-- those of the resolved packets in order, each once, has kept the requests, and lets packets be
-- queued again.
pub confirm_unlocked-Drained :
    {c : Connection} → IsOrdered c → c.report_busy ≡ false → Drained c (confirm_unlocked c)
unfolding confirm_unlocked
confirm_unlocked-Drained {c} o free =
    subst (λ b. Drained c (if b then (c, []) else loop)) (sym free)
      (record {
        ordered = r.ordered;
        none_left = r.none_left;
        kept = r.kept;
        idle = r.idle;
        no_u = r.no_u;
        reopened = r.reopened;
        reported = r.reported;
      })
  where
    fuel : ℕ
    fuel = id_sub c.last_ack c.last_reported + 3

    busy : Connection
    busy = record c { report_busy = true }

    loop : Connection × List Effect
    loop = confirm_loop fuel busy

    r : Drained busy loop
    r = confirm_loop-Drained fuel (ground (arith, o.window)) (ground arith)
