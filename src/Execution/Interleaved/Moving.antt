-- ===== src/Execution/Interleaved/Moving.antt =====
-- Signals that arrive during a run might as well arrive behind it.
use mathlib.Core.Path.{subst}
use mt5_execution_bridge.Prelude.{ℕ, String, ◌≡◌, refl, sym, ap, ◌∙◌, arith, List}
use mt5_execution_bridge.Storage.{Database}
use mt5_execution_bridge.Storage.Rows.{HasSignal}
use mt5_execution_bridge.Storage.Arrivals.{Arrival, arrive_all, Write, Read}
use mt5_execution_bridge.Storage.Arrivals.Writes.{
  Write-arrive_all, Read-arrive_all, Write-HasSignal,
}
use mt5_execution_bridge.Outside.{Answer, answer, failure, Host}
use mt5_execution_bridge.Exec.{
  Bridge, Outcome, ok, returned, raised, answered, Exec, ask, utc_now, transaction, query, gets,
  commit, continue, ◌>>=◌,
}
use mt5_execution_bridge.Execution.Interleaved.{
  arrived, Blind, Program, aside, writes, reads, binds,
}

module _ {F T : Type 0} where
  -- An action's result with the signals arriving behind it.
  abbrev pub before_arrivals :
      {A : Type 0} → List (Arrival F) → Outcome A × Bridge F T → Outcome A × Bridge F T
  before_arrivals new (o, s) = (o, arrived new s)

  pub Blind-db : {A : Type 0} {m : Exec F T A} → Blind m → (s : Bridge F T) → (m s).1.db ≡ s.db
  Blind-db {A} b s = ap (λ (r : Outcome A × Bridge F T). r.1.db) (b.at s s.db)

  Blind-moves :
      {A : Type 0} {m : Exec F T A}
      → Blind m
      → (new : List (Arrival F)) (s : Bridge F T) → m (arrived new s) ≡ before_arrivals new (m s)
  Blind-moves {A} {m} b new s =
      b.at s (arrive_all new s.db)
      ∙ ap (λ db. ((m s).0, record (m s).1 { db = arrive_all new db })) (sym (Blind-db b s))

module _ {F T : Type 0} ⦃host : Host T⦄ {i : String} where
  pub transaction-moves :
      {A : Type 0} {op : ℕ → Database F → A × Database F}
      → Write i A op
      → (new : List (Arrival F)) (s : Bridge F T) → HasSignal i s.db
      → transaction op (arrived new s) ≡ before_arrivals new (transaction op s)
  unfolding transaction utc_now ask ◌>>=◌
  transaction-moves {A} {op} w new s h = stored (host.storage s.outside)
    where
      timed :
          (r : Answer ℕ × T)
          → continue
              (answered r.0)
              (λ now. commit (op now))
              (record s { db = arrive_all new s.db; outside = r.1 })
            ≡ before_arrivals new
                (continue (answered r.0) (λ now. commit (op now)) (record s { outside = r.1 }))
      timed (answer now, t) =
          ap (λ (x : A × Database F). (ok x.0, record s { db = x.1; outside = t }))
            (Write-arrive_all w now new s.db h)
      timed (failure e, t) = refl

      stored :
          (r : Answer (Unit {0}) × T)
          → continue
              (answered r.0)
              (λ _. utc_now >>= λ now. commit (op now))
              (record s { db = arrive_all new s.db; outside = r.1 })
            ≡ before_arrivals new (
                continue
                  (answered r.0)
                  (λ _. utc_now >>= λ now. commit (op now))
                  (record s { outside = r.1 }))
      stored (answer _, t) = timed (host.utc_now t)
      stored (failure e, t) = refl

  transaction-HasSignal :
      {A : Type 0} {op : ℕ → Database F → A × Database F}
      → Write i A op
      → (s : Bridge F T) → HasSignal i s.db
      → HasSignal i (transaction op s).1.db
  unfolding transaction utc_now ask ◌>>=◌
  transaction-HasSignal {A} {op} w s h = stored (host.storage s.outside)
    where
      timed :
          (r : Answer ℕ × T)
          → HasSignal i
              (continue (answered r.0) (λ now. commit (op now)) (record s { outside = r.1 })).1.db
      timed (answer now, t) = Write-HasSignal w now s.db h
      timed (failure e, t) = h

      stored :
          (r : Answer (Unit {0}) × T)
          → HasSignal i
              (continue
                (answered r.0)
                (λ _. utc_now >>= λ now. commit (op now))
                (record s { outside = r.1 })).1.db
      stored (answer _, t) = timed (host.utc_now t)
      stored (failure e, t) = h

module _ {F T : Type 0} ⦃host : Host T⦄ where
  pub query-moves :
      {A : Type 0} {q : Database F → A}
      → Read A q
      → (new : List (Arrival F)) (s : Bridge F T)
      → query q (arrived new s) ≡ before_arrivals new (query q s)
  unfolding query ask gets ◌>>=◌
  query-moves {A} {q} r new s = stored (host.storage s.outside)
    where
      stored :
          (r : Answer (Unit {0}) × T)
          → continue
              (answered r.0)
              (λ _. gets λ (s : Bridge F T). q s.db)
              (record s { db = arrive_all new s.db; outside = r.1 })
            ≡ before_arrivals new (
                continue
                  (answered r.0)
                  (λ _. gets λ (s : Bridge F T). q s.db)
                  (record s { outside = r.1 }))
      stored (answer _, t) =
          ap (λ a. (ok a, record s { db = arrive_all new s.db; outside = t }))
            (Read-arrive_all r new s.db)
      stored (failure e, t) = refl

  pub query-db : {A : Type 0} (q : Database F → A) (s : Bridge F T) → (query q s).1.db ≡ s.db
  unfolding query ask gets ◌>>=◌
  query-db q s = ground arith

module _ {F T : Type 0} ⦃host : Host T⦄ {i : String} where
  -- The run's signal keeps its row.
  pub Program-HasSignal :
      {A : Type 0} {m : Exec F T A}
      → Program i A m
      → (s : Bridge F T) → HasSignal i s.db
      → HasSignal i (m s).1.db
  unfolding ◌>>=◌
  Program-HasSignal (aside b) s h = subst (HasSignal i) (sym (Blind-db b s)) h
  Program-HasSignal (writes w) s h = transaction-HasSignal w s h
  Program-HasSignal (reads {q = q} r) s h = subst (HasSignal i) (sym (query-db q s)) h
  Program-HasSignal (binds {A} {B} {m} {f} p q) s h =
      go (m s) (Program-HasSignal p s h) (λ a. Program-HasSignal (q a))
    where
      go :
          (r : Outcome A × Bridge F T)
          → HasSignal i r.1.db
          → ((a : A) (s' : Bridge F T) → HasSignal i s'.db → HasSignal i (f a s').1.db)
          → HasSignal i (continue r.0 f r.1).1.db
      go (ok a, s') h after = after a s' h
      go (returned st, s') h after = h
      go (raised e, s') h after = h

  -- Signals that arrive before an action might as well arrive behind it.
  pub Program-moves :
      {A : Type 0} {m : Exec F T A}
      → Program i A m
      → (new : List (Arrival F)) (s : Bridge F T) → HasSignal i s.db
      → m (arrived new s) ≡ before_arrivals new (m s)
  unfolding ◌>>=◌
  Program-moves (aside b) new s h = Blind-moves b new s
  Program-moves (writes w) new s h = transaction-moves w new s h
  Program-moves (reads r) new s h = query-moves r new s
  Program-moves (binds {A} {B} {m} {f} p q) new s h =
      ap (λ (r : Outcome A × Bridge F T). continue r.0 f r.1) (Program-moves p new s h)
      ∙ go (m s) (Program-HasSignal p s h) (λ a. Program-moves (q a) new)
    where
      go :
          (r : Outcome A × Bridge F T)
          → HasSignal i r.1.db
          → ((a : A) (s' : Bridge F T)
              → HasSignal i s'.db
              → f a (arrived new s') ≡ before_arrivals new (f a s'))
          → continue r.0 f (arrived new r.1) ≡ before_arrivals new (continue r.0 f r.1)
      go (ok a, s') h moves = moves a s' h
      go (returned st, s') h moves = refl
      go (raised e, s') h moves = refl
