-- ===== src/Worker/Lifecycle/Queueing.antt =====
-- Submitting, claiming and processing, as moves of signals.
use mathlib.Core.Option
use mt5_execution_bridge.Prelude.{
  ℕ, List, [], ◌∷◌, ◌≤◌, ◌+◌, String, str_eq, eq_iff, ◌≡◌, refl, ap, inl, inr, Bool, true, Option,
  none, some, is_none, count_if, find, Bool-cases,
}
use mt5_execution_bridge.Float.{Float}
use mt5_execution_bridge.Models.{ExecutionStatus, pending, processing, is_pending}
use mt5_execution_bridge.Storage.{Signal, Database}
use mt5_execution_bridge.Storage.Arrivals.{Arrival, arrive_all}
use mt5_execution_bridge.Storage.Signals.{
  NewSignal, has_signal_id, get_signal, pending_row, insert_signal_if_new, claim_next_pending,
}
use mt5_execution_bridge.Storage.Rows.{status_of, HasStatus, find-append_new, find-append_other}
use mt5_execution_bridge.Storage.Claims.{ClaimedNext, find_unique, claim_next_pending-ClaimedNext}
use mt5_execution_bridge.Services.SymbolMapper.{SymbolMapper}
use mt5_execution_bridge.Config.{Settings}
use mt5_execution_bridge.Outside.{Sdk, Host}
use mt5_execution_bridge.Exec.{Bridge, Outcome, ok, returned, raised, continue, pure, ◌>>=◌}
use mt5_execution_bridge.Execution.Trail.Runs.{Finished, process_signal-Finished}
use mt5_execution_bridge.Execution.Transactions.{transaction_lem}
use mt5_execution_bridge.Worker.{submit, process_claimed, claim_and_process, turn}
use mt5_execution_bridge.Worker.Submitting.{insert_signal_if_new_cases}
use mt5_execution_bridge.Worker.Lifecycle.{
  Moves, stays, onward, queued, taken, settled, Moves-trans, Moves-same, AllMove,
}

is_pending-pending : (st : ExecutionStatus) → is_pending st ≡ true → st ≡ pending
is_pending-pending pending h = refl
is_pending-pending _ h = cc

none_if : {A : Type 0} (o : Option A) → is_none o ≡ true → o ≡ none
none_if none h = refl
none_if (some a) h = cc

abbrev pub IsUnique : {F : Type 0} → Database F → Type 0
IsUnique {F} db = (i : String) → count_if (has_signal_id {F = F} i) db.signals ≤ 1

module _ {F : Type 0} where
  insert_signal_if_new-AllMove :
      (signal : NewSignal F) (now : ℕ) (db : Database F)
      → AllMove db (insert_signal_if_new signal now db).1
  unfolding get_signal
  insert_signal_if_new-AllMove signal now db i = elim (insert_signal_if_new_cases signal now db) [
    | inl same ↦ Moves-same (ap (status_of i) same)
    | inr (new, grown) ↦
        let row = pending_row (db.signals_seq + 1) now signal in
        rw grown (elim (Bool-cases (str_eq signal.signal_id i)) [
          | inl own ↦
              let id : signal.signal_id ≡ i = (eq_iff signal.signal_id i).0 own in
              let missing : is_none (find (has_signal_id i) db.signals) ≡ true = rw (← id) new in
              rw (find-append_new (has_signal_id i) db.signals row missing own, none_if _ missing)
                (onward stays queued)
          | inr other ↦ rw (find-append_other (has_signal_id i) db.signals row other) stays
        ])
  ]

  pub arrived-AllMove : (new : List (Arrival F)) (db : Database F) → AllMove db (arrive_all new db)
  arrived-AllMove [] db i = stays
  arrived-AllMove ((signal, now) ∷ new) db i =
      Moves-trans (insert_signal_if_new-AllMove signal now db i)
        (arrived-AllMove new (insert_signal_if_new signal now db).1 i)

  -- The row that a claim takes, and the others.
  claimed-AllMove :
      (now : ℕ) (db db' : Database F) (r : Signal F)
      → IsUnique db
      → ClaimedNext now db (some r, db')
      → AllMove db db' × HasStatus r.signal_id processing db'
  unfolding get_signal
  claimed-AllMove now db db' r unique (q, next, same, found, others) = (
    λ i. elim (Bool-cases (str_eq q.signal_id i)) [
      | inl own ↦ rw (← (eq_iff q.signal_id i).0 own) (
          rw
            (
              find_unique (has_signal_id q.signal_id) q db.signals next.listed ((eq_iff _ _).1 refl)
                  (unique q.signal_id),
              found,
              same,
              is_pending-pending q.status next.waiting,
            )
            (onward stays taken))
      | inr other ↦ Moves-same (ap (Option.map (λ (x : Signal F). x.status)) (others i other))
    ],
    rw (ap (λ (x : Signal F). x.signal_id) same, found, same) refl,
  )

module _ {F T : Type 0} ⦃float : Float F⦄ ⦃host : Host T⦄ where
  -- A run on a PROCESSING signal.
  Finished-AllMove :
      (settings : Settings F) (mapper : SymbolMapper) (row : Signal F) (mark : String → Bool)
      (s : Bridge F T) (r : Outcome ExecutionStatus × Bridge F T)
      → HasStatus row.signal_id processing s.db
      → Finished host.sha256_hex settings mapper row mark s r
      → AllMove s.db r.1.db
  Finished-AllMove settings mapper row mark s (ok st, s') before (h, _, final, _, _, _, others) i =
      elim (Bool-cases (str_eq row.signal_id i)) [
        | inl own ↦
            rw (← (eq_iff row.signal_id i).0 own) (rw (before, h) (onward stays (settled st final)))
        | inr other ↦ Moves-same (others i other)
      ]
  Finished-AllMove settings mapper row mark s (returned st, s') before h i = absurd h
  Finished-AllMove settings mapper row mark s (raised e, s') before (_, _, _, same) i =
      Moves-same (same i)

module _ {F T : Type 0} ⦃host : Host T⦄ where
  pub submit-AllMove : (signal : NewSignal F) (s : Bridge F T) → AllMove s.db (submit signal s).1.db
  unfolding submit pure ◌>>=◌
  submit-AllMove signal s = elim (transaction_lem (insert_signal_if_new signal) s) [
    | inl (e, t, raises) ↦ rw raises (λ i. stays)
    | inr (now, t, done) ↦ rw done (insert_signal_if_new-AllMove signal now s.db)
  ]

module _ {F T : Type 0} ⦃float : Float F⦄ ⦃sdk : Sdk F T⦄ ⦃host : Host T⦄ where
  pub turn-AllMove :
      (settings : Settings F) (mapper : SymbolMapper) (s : Bridge F T)
      → IsUnique s.db
      → AllMove s.db (turn settings mapper s).1.db
  unfolding turn claim_and_process pure ◌>>=◌
  turn-AllMove settings mapper s unique = elim (transaction_lem claim_next_pending s) [
    | inl (e, t, raises) ↦ rw raises (λ i. stays)
    | inr (now, t, claims) ↦ rw claims (
        claimed_then now (claim_next_pending now s.db) t
          (claim_next_pending-ClaimedNext now s.db unique))
  ]
    where
      claimed_then :
          (now : ℕ) (r : Option (Signal F) × Database F) (t : T)
          → ClaimedNext now s.db r
          → AllMove s.db
              (process_claimed settings mapper r.0 (record s { outside = t; db = r.1 })).1.db
      claimed_then now (none, db) t (_, same) i = Moves-same (ap (status_of i) same)
      claimed_then now (some row, db) t claims i =
          let (moved, begun) = claimed-AllMove now s.db db row unique claims in
          Moves-trans (moved i) (
            ran _ (
              Finished-AllMove settings mapper row (λ _. true) (record s { outside = t; db = db }) _
                begun
                (process_signal-Finished (λ _. true) settings mapper row
                  (record s { outside = t; db = db }))
                i))
        where
          ran :
              (r : Outcome ExecutionStatus × Bridge F T)
              → Moves (status_of i db) (status_of i r.1.db)
              → Moves (status_of i db) (status_of i (continue r.0 (λ st. pure (some st)) r.1).1.db)
          ran (ok st, s') h = h
          ran (returned st, s') h = h
          ran (raised x, s') h = h
