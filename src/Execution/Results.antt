-- ===== src/Execution/Results.antt =====
-- Actions that end with a value: what their steps have done.
use mt5_execution_bridge.Prelude.{
  ℕ, ◌≡◌, refl, ap, sym, ◌∙◌, Bool, true, false, Option, none, some, [], if◌then◌else◌,
}
use mt5_execution_bridge.Models.{ExecutionStatus, Message}
use mt5_execution_bridge.Storage.{Database}
use mt5_execution_bridge.Services.Risk.{RiskCheckResult, passed, failed}
use mt5_execution_bridge.Outside.{Answer, answer, failure, Call, Host}
use mt5_execution_bridge.Exec.{
  Bridge, Outcome, ok, returned, raised, Exec, pure, ask, return_early, utc_now, transaction, query,
  answered, continue, gets, ◌>>=◌,
}
use mt5_execution_bridge.Gateway.{call_sdk}
use mt5_execution_bridge.Execution.Common.{Attempt, finish, require}

-- The action ends with this value and in this state.
pub record Gives {F T A : Type 0} (m : Exec F T A) (s : Bridge F T) (a : A) (s' : Bridge F T)
    : Type 0 where
  pub ends : m s ≡ (ok a, s')

module _ {F T : Type 0} where
  abbrev db_of : {A : Type 0} → Outcome A × Bridge F T → Database F
  db_of r = r.1.db

  -- What an action whose first step is `m` has done in between.
  pub record Between {A B : Type 0} (m : Exec F T A) (f : A → Exec F T B) (s : Bridge F T) (b : B)
      (s' : Bridge F T) : Type 0 where
    pub value : A
    pub mid : Bridge F T
    pub first : Gives m s value mid
    pub rest : Gives (f value) mid b s'

  pub bind-Gives :
      {A B : Type 0} {m : Exec F T A} {f : A → Exec F T B} {s : Bridge F T} {b : B}
      {s' : Bridge F T}
      → Gives (m >>= f) s b s'
      → Between m f s b s'
  unfolding ◌>>=◌
  bind-Gives {A} {B} {m} {f} {s} {b} {s'} h = go (m s) refl h.ends
    where
      go :
          (r : Outcome A × Bridge F T)
          → m s ≡ r
          → continue r.0 f r.1 ≡ (ok b, s')
          → Between m f s b s'
      go (ok a, mid) e h = record {
        value = a;
        mid = mid;
        first = record { ends = e };
        rest = record { ends = h };
      }
      go (returned st, mid) e h = cc
      go (raised x, mid) e h = cc

  pub ask-Gives :
      {A : Type 0} (c : Call T A) {s : Bridge F T} {a : A} {s' : Bridge F T}
      → Gives (ask c) s a s'
      → ((c s.outside).0 ≡ answer a) × (s'.db ≡ s.db)
  unfolding ask
  ask-Gives {A} c {s} {a} {s'} h = go (c s.outside) refl h.ends
    where
      go :
          (r : Answer A × T)
          → c s.outside ≡ r
          → ◌≡◌ {A = Outcome A × Bridge F T} (answered r.0, record s { outside = r.1 }) (ok a, s')
          → ((c s.outside).0 ≡ answer a) × (s'.db ≡ s.db)
      go (answer x, t) e h = (cc, ap db_of (sym h))
      go (failure x, t) e h = cc

  pub return_early-Gives :
      {A : Type 0} (st : ExecutionStatus) {s : Bridge F T} {a : A} {s' : Bridge F T}
      → Gives (return_early st) s a s'
      → ⊥
  unfolding return_early
  return_early-Gives st h = let e = h.ends in cc

  pub pure-Gives :
      {A : Type 0} {x : A} {s : Bridge F T} {a : A} {s' : Bridge F T}
      → Gives (pure x) s a s'
      → (x ≡ a) × (s ≡ s')
  unfolding pure
  pure-Gives h = let e = h.ends in (cc, cc)

module _ {F T : Type 0} ⦃host : Host T⦄ where
  pub finish-Gives :
      {A : Type 0} (job : Attempt F) (st : ExecutionStatus) (m : Option (Message F))
      {s : Bridge F T} {a : A} {s' : Bridge F T}
      → Gives (finish job st m []) s a s'
      → ⊥
  unfolding finish
  finish-Gives job st m h =
      return_early-Gives st (bind-Gives (bind-Gives (bind-Gives h).rest).rest).rest

  pub require-Gives :
      (job : Attempt F) (c : RiskCheckResult F) {s : Bridge F T} {u : Unit {0}} {s' : Bridge F T}
      → Gives (require job c) s u s'
      → (c ≡ passed) × (s ≡ s')
  require-Gives job passed h = (refl, (pure-Gives h).1)
  require-Gives job (failed st reason) h = absurd (finish-Gives job st (some reason) h)

  pub query-Gives :
      {A : Type 0} (q : Database F → A) {s : Bridge F T} {a : A} {s' : Bridge F T}
      → Gives (query q) s a s'
      → (q s.db ≡ a) × (s'.db ≡ s.db)
  unfolding query gets
  query-Gives q h =
      let b = bind-Gives h in
      let same = (ask-Gives host.storage b.first).1 in let e = b.rest.ends in (cc, cc)

  pub transaction-Gives :
      {A : Type 0} (op : ℕ → Database F → A × Database F) {s : Bridge F T} {a : A} {s' : Bridge F T}
      → Gives (transaction op) s a s'
      → (now : ℕ) × ((op now s.db).1 ≡ s'.db)
  unfolding transaction utc_now
  transaction-Gives op h =
      let b = bind-Gives h in
      let b' = bind-Gives b.rest in
      let same = (ask-Gives host.storage b.first).1 in
      let same' = (ask-Gives host.utc_now b'.first).1 in
      (b'.value, ap (λ d. (op b'.value d).1) (sym (same' ∙ same)) ∙ ap db_of b'.rest.ends)

module _ {F T : Type 0} where
  pub call_sdk-Gives :
      {A : Type 0} (c : Call T (Option A)) {s : Bridge F T} {x : A} {s' : Bridge F T}
      → Gives (call_sdk none c) s (some x) s'
      → ((c s.outside).0 ≡ answer (some x)) × (s'.db ≡ s.db)
  unfolding call_sdk pure
  call_sdk-Gives {A} c {s} {x} {s'} h = go s.gateway.available h.ends
    where
      go :
          (b : Bool)
          → (if b then ask c s else pure none s) ≡ (ok (some x), s')
          → ((c s.outside).0 ≡ answer (some x)) × (s'.db ≡ s.db)
      go true e = ask-Gives c {s = s} {a = some x} {s' = s'} (record { ends = e })
      go false e = cc
