-- ===== src/Storage/Baselines.antt =====
-- The statements of app/storage/database.py on the table `daily_loss_baseline`.
use mathlib.Core.Option
use mt5_execution_bridge.Prelude.{
  ℕ, String, str_eq, Bool, ◌&&◌, Option, [], ◌∷◌, ◌++◌, ◌==◌, is_none, find, if◌then◌else◌,
}
use mt5_execution_bridge.Storage.Tables.{DailyLossBaseline, Database}

module _ {F : Type 0} where
  -- `WHERE account_key = ? AND trading_day = ?`
  abbrev pub is_baseline_of : String → ℕ → DailyLossBaseline F → Bool
  is_baseline_of k day b = str_eq b.account_key k && b.trading_day == day

  abbrev pub equity_of : Option (DailyLossBaseline F) → Option F
  equity_of = Option.map (λ b. b.baseline_equity)

  unfoldable pub get_daily_loss_baseline : String → ℕ → Database F → Option F
  get_daily_loss_baseline k day db = equity_of (find (is_baseline_of k day) db.daily_loss_baseline)

  -- `ON CONFLICT(account_key, trading_day) DO NOTHING`
  unfoldable pub set_daily_loss_baseline : String → ℕ → F → ℕ → Database F → Unit {0} × Database F
  set_daily_loss_baseline k day equity now db = (
    tt,
    if is_none (find (is_baseline_of k day) db.daily_loss_baseline)
        then record db {
          daily_loss_baseline =
              db.daily_loss_baseline
              ++ record {
                account_key = k;
                trading_day = day;
                baseline_equity = equity;
                recorded_at = now;
              }
                ∷ [];
        }
        else db,
  )
