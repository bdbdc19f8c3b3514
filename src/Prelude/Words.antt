-- ===== src/Prelude/Words.antt =====
-- Fixed-width words, stored bits, and memory that is indexed by a number.
use Prim.Native.Nat.{ℕ, ◌%◌, ◌^◌}
use ludlc.Prelude.Tests.{◌==◌, if◌then◌else◌}

-- `(uint8_t)x`, `(uint32_t)x`.
abbrev pub u8 : ℕ → ℕ
u8 x = x % 256

abbrev pub u32 : ℕ → ℕ
u32 x = x % 2 ^ 32

-- The memory `f` after `f[i] = v`.
abbrev pub update {ℓ} : {A : Type ℓ} → (ℕ → A) → ℕ → A → ℕ → A
update f i v j = if i == j then v else f j
