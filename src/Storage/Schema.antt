-- ===== src/Storage/Schema.antt =====
-- The constraints of app/storage/migrations.py, and the statements of app/storage/database.py.
pub mod Statements
use mathlib.Core.Path.{subst}
use mt5_execution_bridge.Prelude.{
  eq_iff, ℕ, suc, ◌+◌, ◌≤◌, ◌<◌, String, str_eq, ◌≡◌, refl, sym, ap, ◌∙◌, Bool, true, false, Option,
  none, some, List, [], ◌∷◌, ◌++◌, ◌==◌, arith, is_none, find, count_if, count_if-append,
  update_where, All, Bool-cases, inl, inr, if◌then◌else◌,
}
use mt5_execution_bridge.Storage.Tables.{Signal, Execution, DailyLossBaseline, Database}
use mt5_execution_bridge.Storage.Signals.{
  NewSignal, has_signal_id, get_signal, pending_row, oldest, row_is_pending, claimed, is_claimable,
  claim, claim_next_pending, insert_signal_if_new,
}
use mt5_execution_bridge.Storage.Executions.{
  NewExecution, Field, assign, assign_all, has_id, open_row, insert_execution, update_execution,
}
use mt5_execution_bridge.Storage.Baselines.{is_baseline_of, set_daily_loss_baseline}
use mt5_execution_bridge.Storage.Rows.{HasSignal, assign_all-id, find-none_count}

module _ {A : Type 0} (id : A → ℕ) where
  -- Rows in the order of their ids, which are greater than `low` and at most `top`.
  abbrev pub Numbered : ℕ → ℕ → List A → Type 0
  Numbered low top [] = low ≤ top
  Numbered low top (x ∷ xs) = (low < id x) × Numbered (id x) top xs

  pub Numbered-append :
      (low top : ℕ) (xs : List A) (x : A)
      → id x ≡ top + 1
      → Numbered low top xs
      → Numbered low (top + 1) (xs ++ x ∷ [])
  Numbered-append low top [] x e h = omega (arith, e, h)
  Numbered-append low top (y ∷ xs) x e (h, hs) = (h, Numbered-append (id y) top xs x e hs)

  pub Numbered-update_where :
      (p : A → Bool) (f : A → A) (low top : ℕ) (xs : List A)
      → ((x : A) → id (f x) ≡ id x)
      → Numbered low top xs
      → Numbered low top (update_where p f xs)
  Numbered-update_where p f low top [] keeps h = h
  Numbered-update_where p f low top (x ∷ xs) keeps (h, hs) = elim (Bool-cases (p x)) [
    | inl hit ↦ rw (hit, keeps x) (h, Numbered-update_where p f (id x) top xs keeps hs)
    | inr miss ↦ rw miss (h, Numbered-update_where p f (id x) top xs keeps hs)
  ]

module _ {A : Type 0} where
  pub count_if-update_where_same :
      (p q : A → Bool) (f : A → A) (xs : List A)
      → ((x : A) → p (f x) ≡ p x)
      → count_if p (update_where q f xs) ≡ count_if p xs
  count_if-update_where_same p q f [] keeps = refl
  count_if-update_where_same p q f (x ∷ xs) keeps =
      ground (arith, keeps x, count_if-update_where_same p q f xs keeps)

  pub All-update_where :
      (P : A → Type 0) (q : A → Bool) (f : A → A) (xs : List A)
      → ((x : A) → P x → P (f x))
      → All P xs
      → All P (update_where q f xs)
  All-update_where P q f [] keeps h = tt
  All-update_where P q f (x ∷ xs) keeps (h, hs) = elim (Bool-cases (q x)) [
    | inl hit ↦ rw hit (keeps x h, All-update_where P q f xs keeps hs)
    | inr miss ↦ rw miss (h, All-update_where P q f xs keeps hs)
  ]

  pub All-append_last :
      (P : A → Type 0) (xs : List A) (x : A) → All P xs → P x → All P (xs ++ x ∷ [])
  All-append_last P [] x h last = (last, tt)
  All-append_last P (y ∷ xs) x (h, hs) last = (h, All-append_last P xs x hs last)

-- A new signal is the only one with its id.
module _ {F : Type 0} (signal : NewSignal F) (now : ℕ) (db : Database F) where
  pub new_row-count :
      (i : String)
      → is_none (get_signal signal.signal_id db) ≡ true
      → count_if (has_signal_id i) db.signals ≤ 1
      → count_if (has_signal_id i) (db.signals ++ pending_row (db.signals_seq + 1) now signal ∷ [])
        ≤ 1
  unfolding get_signal
  new_row-count i new le =
      let counts =
        count_if-append (has_signal_id i) db.signals
          (pending_row (db.signals_seq + 1) now signal ∷ []) in
      elim (Bool-cases (str_eq signal.signal_id i)) [
        | inl same ↦
            let id : signal.signal_id ≡ i = (eq_iff signal.signal_id i).0 same in
            ground
              (arith, counts, same, find-none_count (has_signal_id i) db.signals (rw (← id) new))
        | inr other ↦ ground (arith, counts, other, le)
      ]

-- The ids of AUTOINCREMENT ascend up to the table's last one, no two signals have the same
-- `signal_id`, each execution refers to a signal of the table, and an account has one baseline a day.
pub record WellFormed {F : Type 0} (db : Database F) : Type 0 where
  pub signal_ids : Numbered (λ (r : Signal F). r.id) 0 db.signals_seq db.signals
  pub unique_signals : (i : String) → count_if (has_signal_id i) db.signals ≤ 1
  pub execution_ids : Numbered (λ (e : Execution F). e.id) 0 db.executions_seq db.executions
  pub references : All (λ (e : Execution F). HasSignal e.signal_id db) db.executions
  pub unique_baselines :
      (key : String) (day : ℕ) → count_if (is_baseline_of key day) db.daily_loss_baseline ≤ 1
