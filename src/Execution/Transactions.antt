-- ===== src/Execution/Transactions.antt =====
-- The outcomes of one transaction and of one query.
use mt5_execution_bridge.Prelude.{ℕ, ◌≡◌, refl, ◌⊎◌, inl, inr}
use mt5_execution_bridge.Storage.{Database}
use mt5_execution_bridge.Outside.{Failure, Answer, answer, failure, Host}
use mt5_execution_bridge.Exec.{
  Bridge, Outcome, ok, raised, answered, continue, ask, utc_now, commit, transaction, gets, query,
  ◌>>=◌,
}

module _ {F T A : Type 0} ⦃host : Host T⦄ (op : ℕ → Database F → A × Database F)
    (s : Bridge F T) where
  abbrev Transacted : Outcome A × Bridge F T → Type 0
  Transacted r =
      ((e : Failure) × (t : T) × (r ≡ (raised e, record s { outside = t })))
      ⊎ ((now : ℕ) × (t : T) × (r
            ≡ (ok (op now s.db).0, record s { outside = t; db = (op now s.db).1 })))

  pub transaction_lem : Transacted (transaction op s)
  unfolding transaction ask utc_now ◌>>=◌
  transaction_lem = stored (host.storage s.outside)
    where
      timed :
          (r : Answer ℕ × T)
          → Transacted
              (continue (answered r.0) (λ now. commit (op now)) (record s { outside = r.1 }))
      timed (answer now, u) = inr (now, u, refl)
      timed (failure e, u) = inl (e, u, refl)

      stored :
          (r : Answer (Unit {0}) × T)
          → Transacted (
              continue
                (answered r.0)
                (λ _. utc_now >>= λ now. commit (op now))
                (record s { outside = r.1 }))
      stored (answer _, t) = timed (host.utc_now t)
      stored (failure e, t) = inl (e, t, refl)

module _ {F T A : Type 0} ⦃host : Host T⦄ (q : Database F → A) (s : Bridge F T) where
  -- A query answers from the database, or raises.
  abbrev Queried : Outcome A × Bridge F T → Type 0
  Queried r =
      ((e : Failure) × (t : T) × (r ≡ (raised e, record s { outside = t })))
      ⊎ ((t : T) × (r ≡ (ok (q s.db), record s { outside = t })))

  pub query_lem : Queried (query q s)
  unfolding query ask gets ◌>>=◌
  query_lem = stored (host.storage s.outside)
    where
      stored :
          (r : Answer (Unit {0}) × T)
          → Queried (
              continue
                (answered r.0)
                (λ _. gets (λ (b : Bridge F T). q b.db))
                (record s { outside = r.1 }))
      stored (answer _, t) = inr (t, refl)
      stored (failure e, t) = inl (e, t, refl)
