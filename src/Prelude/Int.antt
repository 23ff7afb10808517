-- ===== src/Prelude/Int.antt =====
-- Go's signed integers where the program compares them with 0; `negsuc n` is -(n + 1).
use Prim.Native.Nat.{ℕ, ◌<◌}
use mathlib.Core.Path.{◌≡◌}
use mathlib.Core.Bool.{Bool, true, false}
use bcrstracking.Prelude.Tests.{ltb, ltb→lt}

pub data ℤ : Type 0 where
  pos : ℕ → ℤ
  negsuc : ℕ → ℤ

-- v > 0
abbrev pub is_positive : ℤ → Bool
is_positive (pos n) = ltb 0 n
is_positive (negsuc n) = false

-- The value, where it is known to be positive.
abbrev pub magnitude : ℤ → ℕ
magnitude (pos n) = n
magnitude (negsuc n) = 0

pub magnitude_pos : (v : ℤ) → is_positive v ≡ true → 0 < magnitude v
magnitude_pos (pos n) h = ltb→lt 0 n h
magnitude_pos (negsuc n) h = cc
