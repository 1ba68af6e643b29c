-- ===== src/Execution/Interleaved.antt =====
-- A run in the worker's thread while the API submits signals on the event loop: between any two of the
-- run's locked transactions, which `Database` runs one at a time, others may come.
pub mod Moving
pub mod Weaving
pub mod Calls
pub mod Steps
pub mod Runs
use mt5_execution_bridge.Prelude.{ℕ, String, ◌≡◌, refl, sym, ap, ◌∙◌, List, [], ◌∷◌, ◌++◌}
use mt5_execution_bridge.Storage.{Database}
use mt5_execution_bridge.Storage.Rows.{HasSignal}
use mt5_execution_bridge.Storage.Arrivals.{Arrival, arrive_all, Write, Read}
use mt5_execution_bridge.Outside.{Answer, answer, failure, Host}
use mt5_execution_bridge.Exec.{
  Bridge, Outcome, ok, returned, raised, answered, Exec, ask, utc_now, transaction, query, gets,
  commit, continue, ◌>>=◌,
}

module _ {F T : Type 0} where
  -- The bridge with the signals that have arrived.
  abbrev pub arrived : List (Arrival F) → Bridge F T → Bridge F T
  arrived new s = record s { db = arrive_all new s.db }

  -- An action that neither reads nor writes the database.
  pub record Blind {A : Type 0} (m : Exec F T A) : Type 0 where
    pub at :
        (s : Bridge F T) (db : Database F)
        → m (record s { db = db }) ≡ ((m s).0, record (m s).1 { db = db })

-- What arrives before each transaction of a run.
abbrev pub Plan : Type 0 → Type 0
Plan F = List (List (Arrival F))

abbrev pub next : {F : Type 0} → Plan F → List (Arrival F)
next [] = []
next (new ∷ plan) = new

abbrev pub rest : {F : Type 0} → Plan F → Plan F
rest [] = []
rest (new ∷ plan) = plan

abbrev pub in_order : {F : Type 0} → Plan F → List (Arrival F)
in_order [] = []
in_order (new ∷ plan) = new ++ in_order plan

module _ {F T : Type 0} ⦃host : Host T⦄ (i : String) where
  -- How an action of a run for the signal `i` is made of transactions and of what lies between them.
  pub data Program : (A : Type 0) → Exec F T A → Type 1 where
    aside : {A : Type 0} {m : Exec F T A} → Blind m → Program A m
    writes :
        {A : Type 0} {op : ℕ → Database F → A × Database F}
        → Write i A op
        → Program A (transaction op)
    reads : {A : Type 0} {q : Database F → A} → Read A q → Program A (query q)
    binds :
        {A B : Type 0} {m : Exec F T A} {f : A → Exec F T B}
        → Program A m
        → ((a : A) → Program B (f a))
        → Program B (m >>= f)

-- The result of an action in between others, with what is still to come.
abbrev pub Woven : Type 0 → Type 0 → Type 0 → Type 0
Woven F T A = (Outcome A × Bridge F T) × Plan F

abbrev resume :
    {F T A B : Type 0} → Woven F T A → (A → Plan F → Bridge F T → Woven F T B) → Woven F T B
resume ((ok a, s), plan) go = go a plan s
resume ((returned st, s), plan) go = ((returned st, s), plan)
resume ((raised e, s), plan) go = ((raised e, s), plan)

module _ {F T : Type 0} ⦃host : Host T⦄ {i : String} where
  -- The action, with the next signals of the plan arriving before each of its transactions.
  unfoldable pub weave :
      {A : Type 0} {m : Exec F T A} → Program i A m → Plan F → Bridge F T → Woven F T A
  weave {A} {m} (aside b) plan s = (m s, plan)
  weave {A} {m} (writes w) plan s = (m (arrived (next plan) s), rest plan)
  weave {A} {m} (reads r) plan s = (m (arrived (next plan) s), rest plan)
  weave (binds p q) plan s = resume (weave p plan s) (λ a. weave (q a))
