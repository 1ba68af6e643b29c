-- ===== src/Storage/Arrivals.antt =====
-- `insert_signal_if_new` from the API while a run is under way, and how the statements of a run of
-- `process_signal` commute with it.
pub mod Writes
use mathlib.Core.Path.{subst}
use mt5_execution_bridge.Prelude.{
  ℕ, ◌+◌, String, str_eq, eq_iff, ◌≡◌, refl, sym, ap, ◌∙◌, Bool, true, false, Option, List, [], ◌∷◌,
  ◌++◌, arith, is_none, find, update_where, Bool-cases, inl, inr,
}
use mt5_execution_bridge.Models.{ExecutionStatus, Message}
use mt5_execution_bridge.Storage.Tables.{Signal, Database}
use mt5_execution_bridge.Storage.Signals.{
  NewSignal, has_signal_id, get_signal, pending_row, insert_or_ignore, insert_signal_if_new,
  with_status, with_symbol, update_signal_status, set_symbol_normalized,
}
use mt5_execution_bridge.Storage.Executions.{
  NewExecution, Field, insert_execution, update_execution, count_executed_trades_since,
}
use mt5_execution_bridge.Storage.Baselines.{
  is_baseline_of, get_daily_loss_baseline, set_daily_loss_baseline,
}
use mt5_execution_bridge.Storage.Rows.{HasSignal, find-append}

-- A signal that the API submits, and the clock of its transaction.
abbrev pub Arrival : Type 0 → Type 0
Arrival F = NewSignal F × ℕ

abbrev pub arrive : {F : Type 0} → Arrival F → Database F → Database F
arrive (signal, now) db = (insert_signal_if_new signal now db).1

abbrev pub arrive_all : {F : Type 0} → List (Arrival F) → Database F → Database F
arrive_all [] db = db
arrive_all (a ∷ later) db = arrive_all later (arrive a db)

-- The statements by which a run of `process_signal` for the signal `i` writes, and its queries.
pub data Write {F : Type 0} (i : String)
    : (A : Type 0) → (ℕ → Database F → A × Database F) → Type 1 where
  inserts : (e : NewExecution F) → e.signal_id ≡ i → Write i (Option ℕ) (λ _. insert_execution e)
  updates : (n : ℕ) (fs : List (Field F)) → Write i (Unit {0}) (λ _. update_execution n fs)
  sets_status :
      (st : ExecutionStatus) (reason : Option (Message F)) (symbol : Option String)
      → Write i (Unit {0}) (update_signal_status i st reason symbol)
  sets_symbol : (symbol : String) → Write i (Unit {0}) (set_symbol_normalized i symbol)
  sets_baseline :
      (key : String) (day : ℕ) (equity : F)
      → Write i (Unit {0}) (set_daily_loss_baseline key day equity)

pub data Read {F : Type 0} : (A : Type 0) → (Database F → A) → Type 1 where
  counts : (key : String) (since : ℕ) → Read ℕ (count_executed_trades_since key since)
  finds_baseline : (key : String) (day : ℕ) → Read (Option F) (get_daily_loss_baseline key day)

module _ {ℓ} {A : Type ℓ} where
  update_where-append_other :
      (p : A → Bool) (f : A → A) (xs : List A) (x : A)
      → p x ≡ false
      → update_where p f (xs ++ x ∷ []) ≡ update_where p f xs ++ x ∷ []
  update_where-append_other p f [] x miss = rw miss refl
  update_where-append_other p f (y ∷ xs) x miss = rw (update_where-append_other p f xs x miss) refl

  pub is_none-find-update_where :
      (q p : A → Bool) (f : A → A) (xs : List A)
      → ((x : A) → q (f x) ≡ q x)
      → is_none (find q (update_where p f xs)) ≡ is_none (find q xs)
  is_none-find-update_where q p f [] keeps = refl
  is_none-find-update_where q p f (x ∷ xs) keeps =
      ground (arith, keeps x, is_none-find-update_where q p f xs keeps)

-- Where one id has a row and the other has none, they are not the same.
HasSignal-apart :
    {F : Type 0} (i j : String) (db : Database F)
    → HasSignal i db
    → is_none (get_signal j db) ≡ true
    → str_eq j i ≡ false
HasSignal-apart {F} i j db h new = elim (Bool-cases (str_eq j i)) [
  | inl same ↦
      let e : is_none (get_signal i db) ≡ true =
        ap (λ k. is_none (get_signal k db)) (sym ((eq_iff j i).0 same)) ∙ new in
      cc
  | inr miss ↦ miss
]

module _ {F : Type 0} (i : String) where
  -- An UPDATE of the row of the signal.
  abbrev pub updated : (Signal F → Signal F) → Database F → Database F
  updated f db = record db { signals = update_where (has_signal_id i) f db.signals }

  pub updated-HasSignal :
      (f : Signal F → Signal F) (db : Database F)
      → ((r : Signal F) → (f r).signal_id ≡ r.signal_id)
      → HasSignal i db
      → HasSignal i (updated f db)
  unfolding get_signal
  updated-HasSignal f db keeps h =
      is_none-find-update_where (has_signal_id i) (has_signal_id i) f db.signals
        (λ r. ap (λ j. str_eq j i) (keeps r))
      ∙ h

module _ {F : Type 0} (signal : NewSignal F) (now : ℕ) (db : Database F) where
  abbrev pub with_row : Database F
  with_row = record db {
    signals = db.signals ++ pending_row (db.signals_seq + 1) now signal ∷ [];
    signals_seq = db.signals_seq + 1;
  }

  pub arrive-new :
      is_none (get_signal signal.signal_id db) ≡ true → arrive (signal, now) db ≡ with_row
  unfolding insert_signal_if_new insert_or_ignore get_signal
  arrive-new h = ground (arith, h)

  pub arrive-old : is_none (get_signal signal.signal_id db) ≡ false → arrive (signal, now) db ≡ db
  unfolding insert_signal_if_new insert_or_ignore get_signal
  arrive-old h = ground (arith, h)

  pub with_row-HasSignal : (i : String) → HasSignal i db → HasSignal i with_row
  unfolding get_signal
  with_row-HasSignal i h =
      ap is_none (
        find-append (has_signal_id i) db.signals (pending_row (db.signals_seq + 1) now signal ∷ [])
          h)
      ∙ h

  pub arrive-HasSignal : (i : String) → HasSignal i db → HasSignal i (arrive (signal, now) db)
  arrive-HasSignal i h = elim (Bool-cases (is_none (get_signal signal.signal_id db))) [
    | inl new ↦ subst (HasSignal i) (sym (arrive-new new)) (with_row-HasSignal i h)
    | inr old ↦ subst (HasSignal i) (sym (arrive-old old)) h
  ]

module _ {F : Type 0} where
  -- An arrival before an UPDATE of a signal that is there has the effect of one behind it.
  pub updated-arrive :
      (i : String) (f : Signal F → Signal F) (signal : NewSignal F) (now : ℕ) (db : Database F)
      → ((r : Signal F) → (f r).signal_id ≡ r.signal_id)
      → HasSignal i db
      → updated i f (arrive (signal, now) db) ≡ arrive (signal, now) (updated i f db)
  unfolding get_signal
  updated-arrive i f signal now db keeps h =
      let same =
        is_none-find-update_where (has_signal_id signal.signal_id) (has_signal_id i) f db.signals
          (λ r. ap (λ j. str_eq j signal.signal_id) (keeps r)) in
      elim (Bool-cases (is_none (get_signal signal.signal_id db))) [
        | inl new ↦
            ap (updated i f) (arrive-new signal now db new)
            ∙ ap (λ rows. record db { signals = rows; signals_seq = db.signals_seq + 1 })
                (update_where-append_other (has_signal_id i) f db.signals
                  (pending_row (db.signals_seq + 1) now signal)
                  (HasSignal-apart i signal.signal_id db h new))
            ∙ sym (arrive-new signal now (updated i f db) (same ∙ new))
        | inr old ↦
            ap (updated i f) (arrive-old signal now db old)
            ∙ sym (arrive-old signal now (updated i f db) (same ∙ old))
      ]
