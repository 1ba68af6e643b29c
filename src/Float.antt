-- ===== src/Float.antt =====
-- Python's `float` as the bridge uses it: the comparisons, the arithmetic, the literals, and
-- `math.floor` and `round(x, 8)`. The development holds for every implementation of these
-- operations; a theorem that needs a law of them names it.
use mt5_execution_bridge.Prelude.{ℕ, Bool, Option}
pub use mt5_execution_bridge.Int.{ℤ, pos, negsuc}

pub record Float (F : Type 0) : Type 0 where
  pub lt : F → F → Bool
  pub le : F → F → Bool
  pub sub : F → F → F
  pub mul : F → F → F
  -- `a / b`; the code divides only by what it has tested not to be zero
  pub div : F → F → F
  pub abs : F → F
  -- the literal n · 10⁻ᵏ; `decimal n 0` is the number n
  pub decimal : ℕ → ℕ → F
  pub of_int : ℤ → F
  -- `math.floor`; `none` is the exception at NaN and the infinities
  pub floor : F → Option ℤ
  -- `round(x, 8)`
  pub round_8 : F → F
