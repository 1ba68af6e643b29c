-- ===== src/Storage/Days.antt =====
-- The daily baselines: `set_daily_loss_baseline` and `get_daily_loss_baseline`.
use mt5_execution_bridge.Prelude.{
  ℕ, String, str_eq, eq_iff, ◌≡◌, refl, inl, inr, Bool, true, false, ◌&&◌, some, List, [], ◌∷◌,
  ◌++◌, arith, ◌==◌, is_none, get_or, find, Bool-cases,
}
use mt5_execution_bridge.Storage.Tables.{DailyLossBaseline, Database}
use mt5_execution_bridge.Storage.Baselines.{
  is_baseline_of, get_daily_loss_baseline, set_daily_loss_baseline,
}

module _ {ℓ} {A : Type ℓ} where
  find-append_new :
      (p : A → Bool) (xs : List A) (x : A)
      → is_none (find p xs) ≡ true
      → p x ≡ true
      → find p (xs ++ x ∷ []) ≡ some x
  find-append_new p [] x h hit = ground arith
  find-append_new p (y ∷ xs) x h hit = ground (arith, h, find-append_new p xs x)

  find-append_other :
      (p : A → Bool) (xs : List A) (x : A) → p x ≡ false → find p (xs ++ x ∷ []) ≡ find p xs
  find-append_other p [] x miss = ground arith
  find-append_other p (y ∷ xs) x miss = ground (arith, find-append_other p xs x miss)

own : (key : String) (day : ℕ) → str_eq key key && day == day ≡ true
own key day = ground (arith, (eq_iff key key).1 refl)

module _ {F : Type 0} where
  abbrev row_of : String → ℕ → F → ℕ → DailyLossBaseline F
  row_of key day equity now = record {
    account_key = key;
    trading_day = day;
    baseline_equity = equity;
    recorded_at = now;
  }

  -- After `set_daily_loss_baseline` the account's baseline of that day is the one that was there
  -- before, or, where there was none, the given equity; the baseline of every other account or day
  -- is as before.
  pub set_daily_loss_baseline-first :
      (key : String) (day : ℕ) (equity : F) (now : ℕ) (db : Database F) (other : String) (later : ℕ)
      → str_eq key other && day == later ≡ false
      → (get_daily_loss_baseline key day (set_daily_loss_baseline key day equity now db).1
          ≡ some (get_or (get_daily_loss_baseline key day db) equity))
        × (get_daily_loss_baseline other later (set_daily_loss_baseline key day equity now db).1
            ≡ get_daily_loss_baseline other later db)
  unfolding get_daily_loss_baseline set_daily_loss_baseline
  set_daily_loss_baseline-first key day equity now db other later apart =
      elim (Bool-cases (is_none (find (is_baseline_of key day) db.daily_loss_baseline))) [
        | inl new ↦ rw new (
          rw
              (find-append_new (is_baseline_of key day) db.daily_loss_baseline
                (row_of key day equity now) new (own key day))
              (ground (arith, new)),
          rw
              (find-append_other (is_baseline_of other later) db.daily_loss_baseline
                (row_of key day equity now) apart)
              refl,
        )
        | inr old ↦ rw old (ground (arith, old), refl)
      ]
