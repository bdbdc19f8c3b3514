-- ===== src/Core/Window.antt =====
-- The slots of the sliding window: a power of two of them, indexed by the low bits of an ID.
use ludlc.Prelude.{ℕ, ◌+◌, ◌%◌, ◌<◌, ◌≡◌, ◌≢◌, ◌⊎◌, arith}

-- A window that a link may run.
abbrev pub IsWindow : ℕ → Type 0
IsWindow w = (w ≡ 1) ⊎ ((w ≡ 2) ⊎ ((w ≡ 4) ⊎ ((w ≡ 8) ⊎ ((w ≡ 16) ⊎ ((w ≡ 32) ⊎ (w ≡ 64))))))

-- An ID wraps at a multiple of the window.
pub mod-window : (w x : ℕ) → IsWindow w → x % 128 % w ≡ x % w
mod-window w x h = ground arith

-- Fewer than a window's steps lead to another slot.
pub slot-ne : (w x k m : ℕ) → IsWindow w → k < m → m < k + w → (x + k) % w ≢ (x + m) % w
slot-ne w x k m h p q = ground arith
