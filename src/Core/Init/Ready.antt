-- ===== src/Core/Init/Ready.antt =====
-- A link that opens (src/lib/ludlc.c: ludlc_connection_init).
use mathlib.Core.Path.{subst}
use ludlc.Prelude.{
  ℕ, zero, suc, ◌≡◌, ◌≢◌, refl, Bool, true, not, ◌||◌, Option, none, some, [], ◌==◌, false, ap, ◌∙◌,
  ◌≤◌, if◌then◌else◌, ==_iff, arith, Bool-cases, inl, inr,
}
use ludlc.Core.State.{Connection, ConnCfg, ConnCb, PacketQueueItem, Ret, ret_ok, disconnected}
use ludlc.Core.Window.{IsWindow}
use ludlc.Core.Disconnect.{u_outstanding}
use ludlc.Core.Queue.{IsOrdered, SentWithin, Queue, view}
use ludlc.Core.Init.{
  PlatformAnswers, resolve_cfg, window_ok, cfg_ok, fresh, Opened, opened, failed, open_platform,
  open_slots, connection_init,
}

-- A test that holds of every number up to `top`.
passes_to : (ℕ → Bool) → ℕ → Bool
passes_to test zero = test zero
passes_to test (suc top) = if test (suc top) then passes_to test top else false

passes_to-each : (test : ℕ → Bool) (top w : ℕ) → w ≤ top → passes_to test top ≡ true → test w ≡ true
unfolding passes_to
passes_to-each test zero w low all = ap test (omega (arith, low)) ∙ all
passes_to-each test (suc top) w low all = elim (Bool-cases (w == suc top)) [
  | inl e ↦ ap test ((==_iff w (suc top)).0 e) ∙ ground (arith, all)
  | inr e ↦ passes_to-each test top w (ground (arith, low, e)) (ground (arith, all))
]

-- One of the windows that a link may run.
abbrev is_window : ℕ → Bool
is_window w = w == 1 || (w == 2 || (w == 4 || (w == 8 || (w == 16 || (w == 32 || w == 64)))))

windows_table : passes_to (λ w. not (window_ok w) || (w == 0 || is_window w)) 64 ≡ true
unfolding passes_to window_ok
windows_table = refl

is_window-IsWindow : (w : ℕ) → is_window w ≡ true → IsWindow w
is_window-IsWindow w h = ground (arith, h)

window_ok-bound : (w : ℕ) → window_ok w ≡ true → w ≤ 64
unfolding window_ok
window_ok-bound w h = ground (arith, h)

-- The windows that ludlc_connection_init accepts are the powers of two up to 64.
pub window_ok-IsWindow : (w : ℕ) → w ≢ 0 → window_ok w ≡ true → IsWindow w
window_ok-IsWindow w nonzero h = is_window-IsWindow w (
    ground (
      arith,
      nonzero,
      h,
      passes_to-each (λ w. not (window_ok w) || (w == 0 || is_window w)) 64 w (window_ok-bound w h)
          windows_table,
    ))

resolve_cfg-window : (cfg : Option ConnCfg) → (resolve_cfg cfg).window ≢ 0
unfolding resolve_cfg
resolve_cfg-window none = ground arith
resolve_cfg-window (some cfg) = ground arith

fresh-IsOrdered :
    (cfg : ConnCfg) (cb : ConnCb) (slots : ℕ → PacketQueueItem)
    → IsWindow cfg.window
    → IsOrdered (fresh cfg cb slots)
unfolding fresh
fresh-IsOrdered cfg cb slots w = record {
  window = w;
  reported_id = omega arith;
  ack_id = omega arith;
  sent_id = omega arith;
  queued_id = omega arith;
  received_id = omega arith;
  seen_id = omega arith;
  room = omega arith;
  closed = λ _. refl;
}

cfg_ok-window : (cfg : ConnCfg) (cb : ConnCb) → cfg_ok cfg cb ≡ true → window_ok cfg.window ≡ true
unfolding cfg_ok
cfg_ok-window cfg cb h = ground (arith, h)

-- No request is in the queue.
abbrev pub empty_queue : Queue
empty_queue = record { outcomes = []; requests = [] }

-- A link as ludlc_connection_init leaves it.
pub record IsReady (c : Connection) : Type 0 where
  pub ordered : IsOrdered c
  pub empty : view c ≡ empty_queue
  pub down : c.conn_state ≡ disconnected
  pub sent : SentWithin c
  pub free : c.report_busy ≡ false
  pub no_confirm : c.flags.u_confirm_f ≡ false
  pub no_u : u_outstanding c.flags ≡ false

fresh-IsReady :
    (cfg : ConnCfg) (cb : ConnCb) (slots : ℕ → PacketQueueItem)
    → IsWindow cfg.window
    → IsReady (fresh cfg cb slots)
unfolding fresh
fresh-IsReady cfg cb slots w = record {
  ordered = fresh-IsOrdered cfg cb slots w;
  empty = refl;
  down = refl;
  sent = omega arith;
  free = refl;
  no_confirm = refl;
  no_u = refl;
}

WhenOpened : (Connection → Type 0) → Opened → Type 0
WhenOpened P (opened c) = P c
WhenOpened P (failed e) = ℕ

open_platform-WhenOpened :
    (P : Connection → Type 0) (r s t : Ret) (c : Connection)
    → P c
    → WhenOpened P (open_platform r s t c)
unfolding WhenOpened
open_platform-WhenOpened P ret_ok ret_ok ret_ok c h = h
open_platform-WhenOpened P r s t c h = 0

open_slots-WhenOpened :
    (a : PlatformAnswers) (cfg : ConnCfg) (cb : ConnCb) (slots : Option (ℕ → PacketQueueItem))
    → IsWindow cfg.window
    → WhenOpened IsReady (open_slots a cfg cb slots)
unfolding WhenOpened
open_slots-WhenOpened a cfg cb none w = 0
open_slots-WhenOpened a cfg cb (some slots) w =
    open_platform-WhenOpened IsReady a.conn_init a.ping_timer_init a.wd_timer_init
      (fresh cfg cb slots) (fresh-IsReady cfg cb slots w)

connection_init-WhenOpened :
    (a : PlatformAnswers) (cfg : Option ConnCfg) (cb : ConnCb)
    → WhenOpened IsReady (connection_init a cfg cb)
unfolding connection_init WhenOpened
connection_init-WhenOpened a cfg cb = elim (Bool-cases (cfg_ok (resolve_cfg cfg) cb)) [
  | inl e ↦ rw e (
      open_slots-WhenOpened a (resolve_cfg cfg) cb a.slots (
        window_ok-IsWindow (resolve_cfg cfg).window (resolve_cfg-window cfg)
          (cfg_ok-window (resolve_cfg cfg) cb e)))
  | inr e ↦ rw e 0
]

-- A link that opens has a window that the IDs can tell apart, a queue in order with nothing in it, no
-- unnumbered packet and no thread that reports, and is not connected.
pub connection_init-IsReady :
    (a : PlatformAnswers) (cfg : Option ConnCfg) (cb : ConnCb) (c : Connection)
    → connection_init a cfg cb ≡ opened c
    → IsReady c
unfolding WhenOpened
connection_init-IsReady a cfg cb c e =
    subst (WhenOpened IsReady) e (connection_init-WhenOpened a cfg cb)
