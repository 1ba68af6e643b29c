-- ===== src/Execution/Passing.antt =====
-- `process_signal`: the steps that a run has behind it when it hands a request to the terminal.
use mt5_execution_bridge.Prelude.{String, true, ◌≡◌, refl, ap, ◌∙◌}
use mt5_execution_bridge.Float.{Float}
use mt5_execution_bridge.Storage.{Signal}
use mt5_execution_bridge.Services.SymbolMapper.{SymbolMapper}
use mt5_execution_bridge.Config.{Settings}
use mt5_execution_bridge.Outside.{Sdk, Host}
use mt5_execution_bridge.Exec.{Bridge, Outcome, ok, returned, raised, Exec, continue, ◌>>=◌}
use mt5_execution_bridge.Execution.Common.{Attempt}
use mt5_execution_bridge.Execution.Checks.{
  Account, Market, admit, map_symbol, identify_account, read_market, check_risk,
}
use mt5_execution_bridge.Execution.Pipeline.{
  begin_attempt, run_checks, process_steps, process_signal,
}
use mt5_execution_bridge.Execution.Quiet.{Watch, IsKept, After, Quiet}
use mt5_execution_bridge.Execution.Quiet.Checks.{
  Quiet-admit, Quiet-map_symbol, Quiet-identify_account, Quiet-read_market, Quiet-check_risk,
}
use mt5_execution_bridge.Execution.Trail.Runs.{
  job_of, watch_of, Begun, Begun-IsKept, begin_attempt-Begun,
}
use mt5_execution_bridge.Execution.Results.{Gives}
use mt5_execution_bridge.Execution.Admission.{IsFresh, IsEnabled, admit-IsFresh}
use mt5_execution_bridge.Execution.Limits.{Limited, check_risk-Limited}

module _ {F T : Type 0} where
  -- The action hands a request to the package.
  abbrev Hands : {A : Type 0} → Exec F T A → Bridge F T → Type 0
  Hands m s = ¬ ((m s).1.journal ≡ s.journal)

  -- An action that hands over a request, but not in its first step `m`.
  record Past {A B : Type 0} (w : Watch F) (m : Exec F T A) (f : A → Exec F T B) (s : Bridge F T)
      : Type 0 where
    value : A
    mid : Bridge F T
    first : Gives m s value mid
    kept : IsKept w mid.db
    rest : Hands (f value) mid

  Quiet-Past :
      {A B : Type 0} {R : A → Type 0} {w : Watch F} {m : Exec F T A} {f : A → Exec F T B}
      {s : Bridge F T}
      → Quiet w m R
      → IsKept w s.db
      → Hands (m >>= f) s
      → Past w m f s
  unfolding ◌>>=◌
  Quiet-Past {A} {B} {R} {w} {m} {f} {s} q k h = go (m s) refl (q.at s k) h
    where
      go :
          (r : Outcome A × Bridge F T)
          → m s ≡ r
          → After w s.journal R r
          → ¬ ((continue r.0 f r.1).1.journal ≡ s.journal)
          → Past w m f s
      go (ok a, mid) e (_, same, kept) h = record {
        value = a;
        mid = mid;
        first = record { ends = e };
        kept = kept;
        rest = λ again. h (again ∙ same);
      }
      go (returned st, mid) e (same, _) h = absurd (h same)
      go (raised x, mid) e (same, _) h = absurd (h same)

-- The steps of a run of `process_signal` up to the checks of the limits, each of which let the run
-- go on.
pub record Passed {F T : Type 0} ⦃float : Float F⦄ ⦃sdk : Sdk F T⦄ ⦃host : Host T⦄
    (mapper : SymbolMapper) (job : Attempt F) (s : Bridge F T) : Type 0 where
  symbol : String
  account : Account F
  market : Market F
  fresh : Bridge F T
  mapped : Bridge F T
  identified : Bridge F T
  quoted : Bridge F T
  after : Bridge F T
  pub is_fresh : IsFresh job.settings job.row s
  is_enabled : IsEnabled job.settings job.row
  admits : admit job s ≡ (ok tt, fresh)
  maps : map_symbol mapper job fresh ≡ (ok symbol, mapped)
  identifies : identify_account job mapped ≡ (ok account, identified)
  reads : read_market job symbol identified ≡ (ok market, quoted)
  checks : check_risk job account market quoted ≡ (ok tt, after)
  limited : Limited sdk job account market quoted after

module _ {F T : Type 0} ⦃float : Float F⦄ ⦃sdk : Sdk F T⦄ ⦃host : Host T⦄ (w : Watch F) where
  run_checks-Passed :
      (mapper : SymbolMapper) (s : Bridge F T)
      → IsKept w s.db
      → Hands (run_checks mapper w.job) s
      → Passed mapper w.job s
  unfolding run_checks
  run_checks-Passed mapper s k h =
      let p1 = Quiet-Past {w = w} Quiet-admit k h in
      let p2 = Quiet-Past (Quiet-map_symbol mapper) p1.kept p1.rest in
      let p3 = Quiet-Past Quiet-identify_account p2.kept p2.rest in
      let p4 = Quiet-Past (Quiet-read_market p2.value) p3.kept p3.rest in
      let p5 = Quiet-Past (Quiet-check_risk p3.value p4.value) p4.kept p4.rest in
      record {
        symbol = p2.value;
        account = p3.value;
        market = p4.value;
        fresh = p1.mid;
        mapped = p2.mid;
        identified = p3.mid;
        quoted = p4.mid;
        after = p5.mid;
        is_fresh = (admit-IsFresh w.job s p1.mid p1.first.ends).0;
        is_enabled = (admit-IsFresh w.job s p1.mid p1.first.ends).1;
        admits = p1.first.ends;
        maps = p2.first.ends;
        identifies = p3.first.ends;
        reads = p4.first.ends;
        checks = p5.first.ends;
        limited = check_risk-Limited w.job p3.value p4.value p4.mid p5.mid p5.first.ends;
      }

module _ {F T : Type 0} ⦃float : Float F⦄ ⦃sdk : Sdk F T⦄ ⦃host : Host T⦄ where
  -- A run of `process_signal` that hands a request to the terminal has inserted its row, and after
  -- that the freshness and configuration checks, the symbol's mapping, the account's identification,
  -- the reading of the market and the checks of the limits have each let it go on, in this order,
  -- each in the state that the one before left. At the time that the clock gave once the row was inserted
  -- the signal was neither too old nor too far in the future, and the configuration enables its action.
  -- The stop loss, the spread and the risk percent have
  -- passed their checks; when the limits were checked the account had fewer executed trades since
  -- the start of the broker's day than the limit, and the terminal reported the open positions,
  -- fewer of which than the limit had the magic number; and the loss against the day's baseline had
  -- passed its check, where the baseline is the table's, or the equity where the day had none, and
  -- is in the table afterwards.
  pub process_signal-Passed :
      (settings : Settings F) (mapper : SymbolMapper) (row : Signal F) (s : Bridge F T)
      → ¬ ((process_signal settings mapper row s).1.journal ≡ s.journal)
      → (begun : Bridge F T) × (begin_attempt settings row s ≡ (ok (job_of settings row s), begun))
        × Passed mapper (job_of settings row s) begun
  unfolding process_signal process_steps ◌>>=◌
  process_signal-Passed settings mapper row s hands =
      begun (begin_attempt settings row s) refl (begin_attempt-Begun settings row s) hands
    where
      begun :
          (r : Outcome (Attempt F) × Bridge F T)
          → begin_attempt settings row s ≡ r
          → Begun settings row s r
          → ¬ ((continue r.0 (run_checks mapper) r.1).1.journal ≡ s.journal)
          → (s1 : Bridge F T) × (begin_attempt settings row s ≡ (ok (job_of settings row s), s1))
            × Passed mapper (job_of settings row s) s1
      begun (ok job, s1) e b h = (
        s1,
        e ∙ ap (λ j. (ok j, s1)) b.0,
        run_checks-Passed (watch_of host.sha256_hex (λ _. true) settings row s) mapper s1
            (Begun-IsKept host.sha256_hex (λ _. true) settings row s job s1 b)
            (λ same. h (ap (λ j. (run_checks mapper j s1).1.journal) b.0 ∙ same ∙ b.3)),
      )
      begun (returned st, s1) e b h = absurd b
      begun (raised x, s1) e b h = absurd (h b.0)
