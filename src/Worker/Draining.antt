-- ===== src/Worker/Draining.antt =====
-- The length of the queue over the turns of `_run_loop`.
use mt5_execution_bridge.Prelude.{
  str_eq, ℕ, zero, suc, ◌+◌, ◌-◌, ◌≤◌, String, ◌≡◌, refl, ap, ◌∙◌, ◌⊎◌, inl, inr, Bool, true, false,
  Option, none, some, List, [], ◌∷◌, arith, count_if, length, map, All,
}
use mt5_execution_bridge.Float.{Float}
use mt5_execution_bridge.Models.{ExecutionStatus}
use mt5_execution_bridge.Storage.{Signal, Database}
use mt5_execution_bridge.Storage.Signals.{row_is_pending, claim_next_pending}
use mt5_execution_bridge.Storage.Rows.{count_if-map}
use mt5_execution_bridge.Storage.Claims.{ClaimedNext, claim_next_pending-ClaimedNext}
use mt5_execution_bridge.Services.SymbolMapper.{SymbolMapper}
use mt5_execution_bridge.Config.{Settings}
use mt5_execution_bridge.Outside.{killed, Sdk, Host}
use mt5_execution_bridge.Exec.{Bridge, Outcome, ok, returned, raised, continue, pure, ◌>>=◌}
use mt5_execution_bridge.Execution.Quiet.{is_taken, taken, ids}
use mt5_execution_bridge.Execution.Responsive.{IsResponsive, transaction_done}
use mt5_execution_bridge.Execution.Trail.Runs.{Finished, process_signal-Finished}
use mt5_execution_bridge.Worker.{
  swallow_exception, process_claimed, claim_and_process, turn, run_loop,
}
use mt5_execution_bridge.Worker.Claiming.{Claims, claim_next_pending-Claims}
use mt5_execution_bridge.Worker.Lifecycle.Queueing.{IsUnique}

swallow_exception_cases :
    {A : Type 0} (o : Outcome A)
    → (swallow_exception o ≡ ok tt) ⊎ (swallow_exception o ≡ raised killed)
swallow_exception_cases (ok a) = inl refl
swallow_exception_cases (returned st) = inl refl
swallow_exception_cases (raised killed) = inr refl
swallow_exception_cases (raised _) = inl refl

-- Every id.
abbrev any : String → Bool
any _ = true

module _ {F : Type 0} where
  -- The length of the queue.
  abbrev pub waiting : Database F → ℕ
  waiting db = count_if row_is_pending db.signals

  waiting-taken : (db : Database F) → waiting db + taken any db ≡ length (ids db)
  waiting-taken db = go db.signals
    where
      go :
          (rs : List (Signal F))
          → count_if row_is_pending rs + count_if (is_taken any) rs
            ≡ length (map (λ (r : Signal F). r.signal_id) rs)
      go [] = refl
      go (r ∷ rs) = ground (arith, go rs)

  -- What is taken more is waiting less.
  taken-waiting :
      (k : ℕ) (db db' : Database F)
      → taken any db + k ≤ taken any db'
      → ids db' ≡ ids db
      → waiting db' + k ≤ waiting db
  taken-waiting k db db' more same =
      omega (arith, waiting-taken db, waiting-taken db', more, ap length same)

  none-waiting :
      (rs : List (Signal F))
      → All (λ (r : Signal F). row_is_pending r ≡ false) rs
      → count_if row_is_pending rs ≡ 0
  none-waiting [] h = refl
  none-waiting (r ∷ rs) (h, hs) = ground (arith, h, none-waiting rs hs)

  ids-IsUnique : (db db' : Database F) → ids db' ≡ ids db → IsUnique db → IsUnique db'
  ids-IsUnique db db' same unique i =
      rw
        (
          ← count_if-map (λ (j : String). str_eq j i) (λ (r : Signal F). r.signal_id) db'.signals,
          same,
          count_if-map (λ (j : String). str_eq j i) (λ (r : Signal F). r.signal_id) db.signals,
        )
        (unique i)

module _ {F T : Type 0} where
  -- The queue is shorter by one, or empty, and no signal came or went.
  abbrev Shortens : Database F → Bridge F T → Type 0
  Shortens db s = (waiting s.db ≤ waiting db - 1) × (ids s.db ≡ ids db)

module _ {F T : Type 0} ⦃float : Float F⦄ ⦃sdk : Sdk F T⦄ ⦃host : Host T⦄ (settings : Settings F)
    (mapper : SymbolMapper) where
  Finished-Shortens :
      (row : Signal F) (db : Database F) (s : Bridge F T) (r : Outcome ExecutionStatus × Bridge F T)
      → Claims any db (some row, s.db)
      → Finished host.sha256_hex settings mapper row any s r
      → Shortens db r.1
  Finished-Shortens row db s (ok st, s') (room, held) (_, _, _, _, more, same, _) = (
    omega (arith, taken-waiting 1 db s'.db (omega (arith, room, more)) (same ∙ held)),
    same ∙ held,
  )
  Finished-Shortens row db s (returned st, s') claims h = absurd h
  Finished-Shortens row db s (raised e, s') (room, held) (_, more, same, _) = (
    omega (arith, taken-waiting 1 db s'.db (omega (arith, room, more)) (same ∙ held)),
    same ∙ held,
  )

  turn-Shortens :
      (s : Bridge F T)
      → IsResponsive host
      → IsUnique s.db
      → Shortens s.db (turn settings mapper s).1
  unfolding turn claim_and_process pure ◌>>=◌
  turn-Shortens s responds unique =
      let (now, t, claims) = transaction_done responds claim_next_pending s in
      rw claims (
        claimed_then now (claim_next_pending now s.db) t
          (claim_next_pending-ClaimedNext now s.db unique) (claim_next_pending-Claims any now s.db))
    where
      claimed_then :
          (now : ℕ) (r : Option (Signal F) × Database F) (t : T)
          → ClaimedNext now s.db r
          → Claims any s.db r
          → Shortens s.db
              (process_claimed settings mapper r.0 (record s { outside = t; db = r.1 })).1
      claimed_then now (none, db) t (empty, same) _ =
          rw same (omega (arith, none-waiting s.db.signals empty), refl)
      claimed_then now (some row, db) t _ claims = ran _ (
          Finished-Shortens row s.db (record s { outside = t; db = db }) _ claims
            (process_signal-Finished any settings mapper row (record s { outside = t; db = db })))
        where
          ran :
              (r : Outcome ExecutionStatus × Bridge F T)
              → Shortens s.db r.1
              → Shortens s.db (continue r.0 (λ st. pure (some st)) r.1).1
          ran (ok st, s') h = h
          ran (returned st, s') h = h
          ran (raised x, s') h = h

  -- What holds after a number of turns that began with the database `db`, with at most `n` waiting
  -- signals left if nothing killed the process.
  abbrev pub Drained : ℕ → Database F → Outcome (Unit {0}) × Bridge F T → Type 0
  Drained n db (ok _, s) = (waiting s.db ≤ n) × (ids s.db ≡ ids db)
  Drained n db (returned st, s) = ⊥
  Drained n db (raised e, s) = e ≡ killed

  Drained-mono :
      (m n : ℕ) (db db' : Database F) (r : Outcome (Unit {0}) × Bridge F T)
      → m ≤ n
      → ids db' ≡ ids db
      → Drained m db' r
      → Drained n db r
  Drained-mono m n db db' (ok _, s) le same (left, held) = (omega (arith, left, le), held ∙ same)
  Drained-mono m n db db' (returned st, s) le same h = absurd h
  Drained-mono m n db db' (raised e, s) le same h = h

  turn_cases :
      (s : Bridge F T)
      → (turn settings mapper s ≡ (ok tt, (turn settings mapper s).1))
        ⊎ (turn settings mapper s ≡ (raised killed, (turn settings mapper s).1))
  unfolding turn
  turn_cases s = elim (swallow_exception_cases (claim_and_process settings mapper s).0) [
    | inl goes_on ↦ inl (ap (λ o. (o, (claim_and_process settings mapper s).1)) goes_on)
    | inr dies ↦ inr (ap (λ o. (o, (claim_and_process settings mapper s).1)) dies)
  ]

  -- Where the database and the clock answer and no two signals have the same id, `n` turns of the
  -- worker's loop, whatever the terminal answers and whichever of its calls fail, either end by the
  -- death of the process, or leave `n` PENDING signals fewer, none where there were at most `n`, and
  -- the signals are those that were there.
  pub run_loop-Drained :
      (n : ℕ) (s : Bridge F T)
      → IsResponsive host
      → IsUnique s.db
      → Drained (waiting s.db - n) s.db (run_loop n settings mapper s)
  unfolding run_loop pure ◌>>=◌
  run_loop-Drained zero s responds unique = (omega arith, refl)
  run_loop-Drained (suc n) s responds unique =
      let (less, same) = turn-Shortens s responds unique in
      let s' = (turn settings mapper s).1 in
      elim (turn_cases s) [
        | inl goes_on ↦ rw goes_on (
            Drained-mono (waiting s'.db - n) _ s.db s'.db _ (omega (arith, less)) same
              (run_loop-Drained n s' responds (ids-IsUnique s.db s'.db same unique)))
        | inr dies ↦ rw dies refl
      ]
