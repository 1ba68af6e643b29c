-- ===== src/Tests/Fixed.antt =====
-- Fixed-point numbers with eight decimals: an implementation of `Float` to run the bridge on.
use mt5_execution_bridge.Prelude.{ℕ, suc, ◌*◌, ◌^◌, ◌/◌, some}
use mt5_execution_bridge.Int.{ℤ, pos, negsuc, ◌-ℤ◌, ◌*ℤ◌, ◌/ℤ◌, ltb_ℤ, leb_ℤ}
use mt5_execution_bridge.Float.{Float}

-- The number of hundred-millionths.
pub record Fixed : Type 0 where
  pub units : ℤ

abbrev pub scale : ℕ
scale = 100_000_000

abbrev pub fixed : ℤ → Fixed
fixed n = record { units = n }

-- The quotient rounded down; by zero it is zero.
abbrev quotient : ℤ → ℤ → ℤ
quotient a (pos k) = ◌/ℤ◌ a k
quotient a (negsuc k) = ◌/ℤ◌ (pos 0 -ℤ a) (suc k)

abbrev magnitude : ℤ → ℤ
magnitude (pos n) = pos n
magnitude (negsuc n) = pos (suc n)

instance abbrev pub fixed_float : Float Fixed
fixed_float = record {
  lt = λ a b. ltb_ℤ a.units b.units;
  le = λ a b. leb_ℤ a.units b.units;
  sub = λ a b. fixed (a.units -ℤ b.units);
  mul = λ a b. fixed (◌/ℤ◌ (a.units *ℤ b.units) scale);
  div = λ a b. fixed (quotient (a.units *ℤ pos scale) b.units);
  abs = λ a. fixed (magnitude a.units);
  decimal = λ n k. fixed (pos (n * scale / 10 ^ k));
  of_int = λ n. fixed (n *ℤ pos scale);
  floor = λ a. some (◌/ℤ◌ a.units scale);
  round_8 = λ a. a;
}
