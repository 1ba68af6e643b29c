-- ===== src/Worker/Turns.antt =====
-- A turn of the worker: what it sends, and the signal that it took.
use mt5_execution_bridge.Prelude.{
  ℕ, ◌+◌, ◌≤◌, String, str_eq, ◌≡◌, refl, ◌∙◌, inl, inr, Bool, false, Option, none, some, List, [],
  ◌∷◌, arith, count_if, count_if-append,
}
use mt5_execution_bridge.Float.{Float}
use mt5_execution_bridge.Models.{ExecutionStatus}
use mt5_execution_bridge.Storage.{Signal, Database}
use mt5_execution_bridge.Storage.Signals.{claim_next_pending}
use mt5_execution_bridge.Services.SymbolMapper.{SymbolMapper}
use mt5_execution_bridge.Config.{Settings}
use mt5_execution_bridge.Outside.{Sdk, Host}
use mt5_execution_bridge.Exec.{
  Event, checked, sent, Bridge, Outcome, ok, returned, raised, continue, pure, ◌>>=◌,
}
use mt5_execution_bridge.Execution.Quiet.{taken, tagged, ids}
use mt5_execution_bridge.Execution.Trail.{IsVetted, Trail}
use mt5_execution_bridge.Execution.Trail.Runs.{Finished, process_signal-Finished}
use mt5_execution_bridge.Execution.Transactions.{transaction_lem}
use mt5_execution_bridge.Worker.{process_claimed, claim_and_process, turn}
use mt5_execution_bridge.Worker.Claiming.{share, Claims, claim_next_pending-Claims}

-- A request with the comment `tag` that was handed to `order_send`.
abbrev pub is_sent_as : {F : Type 0} → String → Event F → Bool
is_sent_as tag (checked r) = false
is_sent_as tag (sent r) = str_eq r.comment tag

abbrev pub sends : {F : Type 0} → String → List (Event F) → ℕ
sends tag j = count_if (is_sent_as tag) j

module _ {F : Type 0} ⦃float : Float F⦄ (hash : String → String) (tag : String) where
  -- A run sends at most one request, with its signal's comment.
  sends-Trail :
      (mapper : SymbolMapper) (settings : Settings F) (row : Signal F) (live : Bool)
      (j j' : List (Event F))
      → Trail (IsVetted mapper hash settings row) live j j'
      → sends tag j' ≤ sends tag j + share (tagged hash tag) row
  sends-Trail mapper settings row live j j' (inl e) = rw e (omega arith)
  sends-Trail mapper settings row live j j' (inr (r, good, inl e)) =
      rw e (omega (arith, count_if-append (is_sent_as tag) j (checked r ∷ [])))
  sends-Trail mapper settings row live j j' (inr (r, good, inr (on, e))) =
      ground (arith, e, good.comment, count_if-append (is_sent_as tag) j (checked r ∷ sent r ∷ []))

module _ {F T : Type 0} (hash : String → String) (tag : String) where
  -- From `s` to `s'` no more was sent than was taken, and no signal came or went.
  abbrev pub Advances : Bridge F T → Bridge F T → Type 0
  Advances s s' =
      (sends tag s.journal ≤ taken (tagged hash tag) s.db
        → sends tag s'.journal ≤ taken (tagged hash tag) s'.db)
      × (ids s'.db ≡ ids s.db)

module _ {F T : Type 0} ⦃float : Float F⦄ ⦃sdk : Sdk F T⦄ ⦃host : Host T⦄ where
  -- A run on the row that a claim took: the claim has made room for its request.
  Finished-Advances :
      (settings : Settings F) (mapper : SymbolMapper) (row : Signal F) (tag : String)
      (db : Database F) (s : Bridge F T) (r : Outcome ExecutionStatus × Bridge F T)
      → Claims (tagged host.sha256_hex tag) db (some row, s.db)
      → Finished host.sha256_hex settings mapper row (tagged host.sha256_hex tag) s r
      → Advances host.sha256_hex tag (record s { db = db }) r.1
  Finished-Advances settings mapper row tag db s (ok st, s') (room, held)
        (_, _, _, trail, more, same, _) =
      (
        λ safe. omega (
          arith,
          sends-Trail host.sha256_hex tag mapper settings row _ s.journal s'.journal trail,
        ),
        same ∙ held,
      )
  Finished-Advances settings mapper row tag db s (returned st, s') claims h = absurd h
  Finished-Advances settings mapper row tag db s (raised x, s') (room, held)
        (trail, more, same, _) =
      (
        λ safe. omega (
          arith,
          sends-Trail host.sha256_hex tag mapper settings row _ s.journal s'.journal trail,
        ),
        same ∙ held,
      )

  pub turn-Advances :
      (settings : Settings F) (mapper : SymbolMapper) (tag : String) (s : Bridge F T)
      → Advances host.sha256_hex tag s (turn settings mapper s).1
  unfolding turn claim_and_process pure ◌>>=◌
  turn-Advances settings mapper tag s = elim (transaction_lem claim_next_pending s) [
    | inl (e, t, raises) ↦ rw raises (λ safe. safe, refl)
    | inr (now, t, claims) ↦ rw claims (
        claimed_then (claim_next_pending now s.db) t
          (claim_next_pending-Claims (tagged host.sha256_hex tag) now s.db))
  ]
    where
      claimed_then :
          (r : Option (Signal F) × Database F) (t : T)
          → Claims (tagged host.sha256_hex tag) s.db r
          → Advances host.sha256_hex tag s
              (process_claimed settings mapper r.0 (record s { outside = t; db = r.1 })).1
      claimed_then (none, db) t (more, same) = (λ safe. omega arith, same)
      claimed_then (some row, db) t claims = ran _ (
          Finished-Advances settings mapper row tag s.db (record s { outside = t; db = db }) _
            claims
            (process_signal-Finished (tagged host.sha256_hex tag) settings mapper row
              (record s { outside = t; db = db })))
        where
          ran :
              (r : Outcome ExecutionStatus × Bridge F T)
              → Advances host.sha256_hex tag (record s { outside = t }) r.1
              → Advances host.sha256_hex tag s (continue r.0 (λ st. pure (some st)) r.1).1
          ran (ok st, s') h = h
          ran (returned st, s') h = h
          ran (raised x, s') h = h
