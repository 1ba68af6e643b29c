-- ===== src/Worker/Lifecycle/Restarting.antt =====
-- `recover_on_startup`, as moves of the PROCESSING signals.
use mt5_execution_bridge.Prelude.{
  ◌≤◌, String, str_eq, eq_iff, ◌≡◌, refl, sym, ap, ◌∙◌, inl, inr, Bool, true, false, some, List, [],
  ◌∷◌, arith, count_if, select, All, Bool-cases,
}
use mt5_execution_bridge.Models.{ExecutionStatus, processing, is_processing}
use mt5_execution_bridge.Storage.{Signal, Database}
use mt5_execution_bridge.Storage.Signals.{
  has_signal_id, row_is_processing, get_signal, find_stuck_processing,
}
use mt5_execution_bridge.Storage.Rows.{status_of, HasStatus}
use mt5_execution_bridge.Storage.Claims.{IsIn, find_unique}
use mt5_execution_bridge.Config.{Settings}
use mt5_execution_bridge.Outside.{Sdk, Host}
use mt5_execution_bridge.Exec.{Bridge, Outcome, ok, returned, raised, continue, pure, ◌>>=◌}
use mt5_execution_bridge.Execution.Recovery.{reconcile_stuck_signal}
use mt5_execution_bridge.Execution.Transactions.{query_lem}
use mt5_execution_bridge.Worker.{reconcile_all, recover_on_startup}
use mt5_execution_bridge.Worker.Lifecycle.{Moves, stays, Moves-trans, AllMove}
use mt5_execution_bridge.Worker.Lifecycle.Queueing.{IsUnique}
use mt5_execution_bridge.Worker.Lifecycle.Recovering.{
  Resolved-AllMove, Resolves-reconcile_stuck_signal,
}

is_processing-processing : (st : ExecutionStatus) → is_processing st ≡ true → st ≡ processing
is_processing-processing processing h = refl
is_processing-processing _ h = cc

str_eq-sym : (i j : String) → str_eq i j ≡ false → str_eq j i ≡ false
str_eq-sym i j apart = elim (Bool-cases (str_eq j i)) [
  | inl same ↦ let hit : str_eq i j ≡ true = (eq_iff i j).1 (sym ((eq_iff j i).0 same)) in cc
  | inr other ↦ other
]

module _ {A : Type 0} where
  -- What holds of every element that is listed and passes the test.
  select-All :
      {P : A → Type 0} (p : A → Bool) (xs : List A)
      → ((x : A) → IsIn x xs → p x ≡ true → P x)
      → All P (select p xs)
  select-All p [] h = tt
  select-All p (x ∷ xs) h = elim (Bool-cases (p x)) [
    | inl hit ↦ rw hit (h x (inl refl) hit, select-All p xs (λ y here. h y (inr here)))
    | inr miss ↦ rw miss (select-All p xs (λ y here. h y (inr here)))
  ]

  count_if-none :
      (p : A → Bool) (xs : List A) → count_if p xs ≡ 0 → (x : A) → IsIn x xs → p x ≡ false
  count_if-none p [] h x here = absurd here
  count_if-none p (y ∷ ys) h x (inl same) = rw (← same) (ground (arith, h))
  count_if-none p (y ∷ ys) h x (inr here) = count_if-none p ys (ground (arith, h)) x here

module _ {F : Type 0} where
  -- No two rows have the same id, and all are PROCESSING.
  unfoldable pub Apart : List (Signal F) → Type 0
  Apart [] = Unit
  Apart (r ∷ rs) = All (λ (q : Signal F). str_eq r.signal_id q.signal_id ≡ false) rs × Apart rs

  unfoldable pub AllProcessing : Database F → List (Signal F) → Type 0
  AllProcessing db rs = All (λ (r : Signal F). HasStatus r.signal_id processing db) rs

  pub select-Apart :
      (p : Signal F → Bool) (rs : List (Signal F))
      → ((i : String) → count_if (has_signal_id i) rs ≤ 1)
      → Apart (select p rs)
  unfolding Apart
  select-Apart p [] unique = tt
  select-Apart p (r ∷ rs) unique =
      let own : str_eq r.signal_id r.signal_id ≡ true = (eq_iff _ _).1 refl in
      let rest = select-Apart p rs (λ i. ground (arith, unique i)) in
      elim (Bool-cases (p r)) [
        | inl hit ↦ rw hit (
          select-All p rs (λ q here _. str_eq-sym q.signal_id r.signal_id (
              count_if-none (has_signal_id r.signal_id) rs (ground (arith, own, unique r.signal_id))
                q here)),
          rest,
        )
        | inr miss ↦ rw miss rest
      ]

  pub find_stuck_processing-AllProcessing :
      (db : Database F) → IsUnique db → AllProcessing db (find_stuck_processing db)
  unfolding AllProcessing find_stuck_processing get_signal
  find_stuck_processing-AllProcessing db unique =
      select-All row_is_processing db.signals (λ r here hit.
        rw
          (find_unique (has_signal_id r.signal_id) r db.signals here ((eq_iff _ _).1 refl)
            (unique r.signal_id))
          (ap some (is_processing-processing r.status hit)))

  pub All-both :
      {P Q R : Signal F → Type 0} (rs : List (Signal F))
      → ((r : Signal F) → P r → Q r → R r)
      → All P rs
      → All Q rs
      → All R rs
  All-both [] f h k = tt
  All-both (r ∷ rs) f (h, hs) (k, ks) = (f r h k, All-both rs f hs ks)

module _ {F T : Type 0} ⦃sdk : Sdk F T⦄ ⦃host : Host T⦄ where
  reconcile_all-AllMove :
      (settings : Settings F) (rows : List (Signal F)) (s : Bridge F T)
      → Apart rows
      → AllProcessing s.db rows
      → AllMove s.db (reconcile_all settings rows s).1.db
  unfolding reconcile_all pure Apart AllProcessing ◌>>=◌
  reconcile_all-AllMove settings [] s apart all i = stays
  reconcile_all-AllMove settings (row ∷ rows) s (off, apart) (before, all) i =
      go (reconcile_stuck_signal settings row s)
        (Resolved-AllMove row.signal_id s.db _ before
          ((Resolves-reconcile_stuck_signal settings row).at s))
        (λ s' still. reconcile_all-AllMove settings rows s' apart still i)
    where
      go :
          (r : Outcome ExecutionStatus × Bridge F T)
          → AllMove s.db r.1.db
            × ((j : String)
                → str_eq row.signal_id j ≡ false
                → status_of j r.1.db ≡ status_of j s.db)
          → ((s' : Bridge F T)
              → AllProcessing s'.db rows
              → Moves (status_of i s'.db) (status_of i (reconcile_all settings rows s').1.db))
          → Moves
              (status_of i s.db)
              (status_of i (continue r.0 (λ _. reconcile_all settings rows) r.1).1.db)
      go (ok st, s') (moved, others) rest =
          Moves-trans (moved i)
            (rest s' (All-both rows (λ q here status. others q.signal_id here ∙ status) off all))
      go (returned st, s') (moved, others) rest = moved i
      go (raised e, s') (moved, others) rest = moved i

  pub recover_on_startup-AllMove :
      (settings : Settings F) (s : Bridge F T)
      → IsUnique s.db
      → AllMove s.db (recover_on_startup settings s).1.db
  unfolding recover_on_startup find_stuck_processing ◌>>=◌
  recover_on_startup-AllMove settings s unique i = elim (query_lem find_stuck_processing s) [
    | inl (e, t, raises) ↦ rw raises stays
    | inr (t, found) ↦ rw found (
        reconcile_all-AllMove settings (find_stuck_processing s.db) (record s { outside = t })
          (select-Apart row_is_processing s.db.signals unique)
          (find_stuck_processing-AllProcessing s.db unique) i)
  ]
