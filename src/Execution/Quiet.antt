-- ===== src/Execution/Quiet.antt =====
-- What every step of `process_signal` keeps, and how it ends it: the rules by which `Quiet/Steps`,
-- `Quiet/Checks` and `Trail` follow the steps.
pub mod Steps
pub mod Checks
use mathlib.Core.Option
use mt5_execution_bridge.Prelude.{
  ℕ, ◌≤◌, String, str_eq, ◌≡◌, refl, Bool, true, false, not, ◌&&◌, Option, none, some, List, arith,
  count_if, map, if◌then◌else◌,
}
use mt5_execution_bridge.Models.{ExecutionStatus, is_pending, is_processing}
use mt5_execution_bridge.Storage.{Signal, Database}
use mt5_execution_bridge.Storage.Rows.{
  status_of, HasSignal, HasExecution, HasStatus, HasExecutionStatus,
}
use mt5_execution_bridge.Outside.{Failure, Answer, answer, failure, Call, Host}
use mt5_execution_bridge.Exec.{
  Event, Bridge, Outcome, ok, returned, raised, Exec, pure, raise, gets, ask, or_raise, utc_now,
  transaction, commit, query, continue, ◌>>=◌,
}
use mt5_execution_bridge.Execution.Common.{Attempt, meb_comment}

-- A status at which a signal stays, unlike PENDING and PROCESSING.
abbrev pub IsFinal : ExecutionStatus → Type 0
IsFinal st = (is_pending st ≡ false) × (is_processing st ≡ false)

-- A signal that some worker has taken from the queue, and whose id is marked.
abbrev pub is_taken : {F : Type 0} → (String → Bool) → Signal F → Bool
is_taken mark r = not (is_pending r.status) && mark r.signal_id

abbrev pub taken : {F : Type 0} → (String → Bool) → Database F → ℕ
taken mark db = count_if (is_taken mark) db.signals

-- The ids whose orders carry the comment `tag`.
abbrev pub tagged : (String → String) → String → String → Bool
tagged hash tag i = str_eq (meb_comment hash i) tag

-- The signals of a database, by their ids.
abbrev pub ids : {F : Type 0} → Database F → List String
ids {F} db = map (λ (r : Signal F). r.signal_id) db.signals

-- The run that is followed, with the hash of the host, a mark on ids and a lower bound on the marked
-- signals that are taken, the signals that are there, and the statuses with which the run began.
pub record Watch (F : Type 0) : Type 0 where
  pub hash : String → String
  pub job : Attempt F
  pub mark : String → Bool
  pub floor : ℕ
  pub known : List String
  pub statuses : String → Option ExecutionStatus

module _ {F : Type 0} (w : Watch F) where
  -- The rows that the run works on are there, no taken signal went back to the queue, and every
  -- status is as before.
  pub record IsKept (db : Database F) : Type 0 where
    pub signal : HasSignal w.job.row.signal_id db
    pub execution : HasExecution w.job.execution_id db
    pub taken_le : w.floor ≤ taken w.mark db
    pub same_ids : ids db ≡ w.known
    pub same_status : (i : String) → status_of i db ≡ w.statuses i

  -- The run has ended: both rows have the final status `st`, and the other signals are as before.
  pub record IsFiled (st : ExecutionStatus) (db : Database F) : Type 0 where
    pub settled : HasStatus w.job.row.signal_id st db
    pub filed : HasExecutionStatus w.job.execution_id st db
    pub final : IsFinal st
    pub others : (i : String) → str_eq w.job.row.signal_id i ≡ false → status_of i db ≡ w.statuses i
    pub taken_le : w.floor ≤ taken w.mark db
    pub same_ids : ids db ≡ w.known

  -- A statement that keeps the rows.
  abbrev pub Keeps : {A : Type 0} → (Database F → A × Database F) → Type 0
  Keeps op = (db : Database F) → IsKept db → IsKept (op db).1

module _ {F T : Type 0} (w : Watch F) where
  -- What holds when an action is over that handed no request to the package, `j` being the journal.
  abbrev pub After : {A : Type 0} → List (Event F) → (A → Type 0) → Outcome A × Bridge F T → Type 0
  After j R (ok a, s) = R a × (s.journal ≡ j) × IsKept w s.db
  After j R (returned st, s) = (s.journal ≡ j) × IsFiled w st s.db
  After j R (raised e, s) = (s.journal ≡ j) × IsKept w s.db

  pub record Quiet {A : Type 0} (m : Exec F T A) (R : A → Type 0) : Type 0 where
    pub at : (s : Bridge F T) → IsKept w s.db → After s.journal R (m s)

module _ {F T : Type 0} {w : Watch F} where
  module _ {A : Type 0} where
    pub Quiet-pure : {R : A → Type 0} (a : A) → R a → Quiet {T = T} w (pure a) R
    unfolding pure
    Quiet-pure a h = record { at = λ s k. (h, refl, k) }

    pub Quiet-raise : {R : A → Type 0} (e : Failure) → Quiet {T = T} w (raise e) R
    unfolding raise
    Quiet-raise e = record { at = λ s k. (refl, k) }

    pub Quiet-gets : (f : Bridge F T → A) → Quiet w (gets f) (λ _. Unit {0})
    unfolding gets
    Quiet-gets f = record { at = λ s k. (tt, refl, k) }

    pub Quiet-ask : (c : Call T A) → Quiet w (ask c) (λ _. Unit {0})
    unfolding ask
    Quiet-ask c = record { at = λ s k. ground arith }

    pub Quiet-or_raise :
        (e : Failure) (o : Option A) → Quiet {T = T} w (or_raise e o) (λ a. o ≡ some a)
    unfolding or_raise
    Quiet-or_raise e none = record { at = λ s k. (refl, k) }
    Quiet-or_raise e (some a) = record { at = λ s k. (refl, refl, k) }

    pub Quiet-if :
        {R : A → Type 0} (b : Bool) (m n : Exec F T A)
        → (b ≡ true → Quiet w m R)
        → (b ≡ false → Quiet w n R)
        → Quiet w (if b then m else n) R
    Quiet-if true m n hm hn = hm refl
    Quiet-if false m n hm hn = hn refl

    -- A weaker fact about the value.
    pub Quiet_mono :
        {R Q : A → Type 0} {m : Exec F T A} → ((a : A) → R a → Q a) → Quiet w m R → Quiet w m Q
    Quiet_mono {R} {Q} {m} f q = record { at = λ s k. weaken s.journal (m s) (q.at s k) }
      where
        weaken : (j : List (Event F)) (r : Outcome A × Bridge F T) → After w j R r → After w j Q r
        weaken j (ok a, s) (h, e, k) = (f a h, e, k)
        weaken j (returned st, s) h = h
        weaken j (raised e, s) h = h

  pub Quiet-bind :
      {A B : Type 0} {R : A → Type 0} {Q : B → Type 0} {m : Exec F T A} {f : A → Exec F T B}
      → Quiet w m R
      → ((a : A) → R a → Quiet w (f a) Q)
      → Quiet w (m >>= f) Q
  unfolding ◌>>=◌
  Quiet-bind {A} {B} {R} {Q} {m} {f} qm qf = record { at = λ s k. go s.journal (m s) (qm.at s k) }
    where
      go :
          (j : List (Event F)) (r : Outcome A × Bridge F T)
          → After w j R r
          → After w j Q (continue r.0 f r.1)
      go j (ok a, s) (h, e, k) = rw (← e) ((qf a h).at s k)
      go j (returned st, s) h = h
      go j (raised e, s) h = h

  Quiet-commit :
      {A : Type 0} (op : Database F → A × Database F)
      → Keeps w op
      → Quiet {T = T} w (commit op) (λ _. Unit {0})
  Quiet-commit op keeps = record { at = λ s k. (tt, refl, keeps s.db k) }

module _ {F T : Type 0} ⦃host : Host T⦄ {w : Watch F} where
  pub Quiet-utc_now : Quiet {T = T} w utc_now (λ _. Unit {0})
  unfolding utc_now
  Quiet-utc_now = Quiet-ask host.utc_now

  pub Quiet-query : {A : Type 0} (q : Database F → A) → Quiet {T = T} w (query q) (λ _. Unit {0})
  unfolding query
  Quiet-query q = Quiet-bind (Quiet-ask host.storage) λ _ _. Quiet-gets (λ s. q s.db)

  pub Quiet-transaction :
      {A : Type 0} (op : ℕ → Database F → A × Database F)
      → ((now : ℕ) → Keeps w (op now))
      → Quiet {T = T} w (transaction op) (λ _. Unit {0})
  unfolding transaction
  Quiet-transaction op keeps =
      Quiet-bind (Quiet-ask host.storage)
        λ _ _. Quiet-bind Quiet-utc_now λ now _. Quiet-commit (op now) (keeps now)
