-- ===== src/Base/Int.antt =====
-- The signed numbers that the status words hold: a core number, or -1 for none.
use Prim.Native.Nat.{ℕ}
use mathlib.Core.Bool.{Bool, false}
use tx_queue.Base.Tests.{◌==◌}

-- `negsuc n` is -(n + 1).
pub data ℤ : Type 0 where
  pos : ℕ → ℤ
  negsuc : ℕ → ℤ

infix 50 ◌==ℤ◌
abbrev pub ◌==ℤ◌ : ℤ → ℤ → Bool
pos a ==ℤ pos b = a == b
negsuc a ==ℤ negsuc b = a == b
_ ==ℤ _ = false

-- -1
abbrev pub minus_one : ℤ
minus_one = negsuc 0
