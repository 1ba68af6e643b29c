-- ===== src/Exec.antt =====
-- The bridge's methods as actions. The state is what the objects of app/main.py hold together: the
-- database, the gateway's two fields, the world outside, and the journal of the order requests that
-- were handed to the MetaTrader5 package, in order. An action ends by a value, by an early `return`
-- of a status from `process_signal`, or by a failure; what it wrote before that stays written.
use mt5_execution_bridge.Prelude.{ℕ, Bool, Option, none, some, List, [], ◌∷◌, ◌++◌}
use mt5_execution_bridge.Models.{ExecutionStatus}
use mt5_execution_bridge.Storage.{Database}
use mt5_execution_bridge.Outside.{Failure, Answer, answer, failure, Call, Request, Host}

pub data Event (F : Type 0) : Type 0 where
  checked sent : Request F → Event F

-- `MT5Gateway`: whether the package could be imported, and `_connected`.
pub record Gateway : Type 0 where
  pub available : Bool
  pub is_connected : Bool

pub record Bridge (F T : Type 0) : Type 0 where
  pub db : Database F
  pub gateway : Gateway
  pub outside : T
  pub journal : List (Event F)

pub data Outcome (A : Type 0) : Type 0 where
  ok : A → Outcome A
  returned : ExecutionStatus → Outcome A
  raised : Failure → Outcome A

abbrev pub answered : {A : Type 0} → Answer A → Outcome A
answered (answer a) = ok a
answered (failure e) = raised e

-- The call of `process_signal` from outside: its early returns are its results.
abbrev pub catch_return : Outcome ExecutionStatus → Outcome ExecutionStatus
catch_return (ok st) = ok st
catch_return (returned st) = ok st
catch_return (raised e) = raised e

abbrev pub Exec : Type 0 → Type 0 → Type 0 → Type 0
Exec F T A = Bridge F T → Outcome A × Bridge F T

module _ {F T A : Type 0} where
  unfoldable pub pure : A → Exec F T A
  pure a s = (ok a, s)

  unfoldable pub raise : Failure → Exec F T A
  raise e s = (raised e, s)

  -- `return status`, from `process_signal` as a whole
  unfoldable pub return_early : ExecutionStatus → Exec F T A
  return_early st s = (returned st, s)

  unfoldable pub gets : (Bridge F T → A) → Exec F T A
  gets f s = (ok (f s), s)

  -- One call of the outside.
  unfoldable pub ask : Call T A → Exec F T A
  ask c s = let (a, t) = c s.outside in (answered a, record s { outside = t })

  -- What is missing raises.
  unfoldable pub or_raise : Failure → Option A → Exec F T A
  or_raise e none s = (raised e, s)
  or_raise e (some a) s = (ok a, s)

module _ {F T A B : Type 0} where
  abbrev pub continue : Outcome A → (A → Exec F T B) → Exec F T B
  continue (ok a) f s = f a s
  continue (returned st) f s = (returned st, s)
  continue (raised e) f s = (raised e, s)

  infixl 10 ◌>>=◌ ◌>>◌
  unfoldable pub ◌>>=◌ : Exec F T A → (A → Exec F T B) → Exec F T B
  ◌>>=◌ m f s = let (r, s') = m s in continue r f s'

  abbrev pub ◌>>◌ : Exec F T A → Exec F T B → Exec F T B
  m >> n = m >>= λ _. n

module _ {F T : Type 0} where
  unfoldable pub modify_gateway : (Gateway → Gateway) → Exec F T (Unit {0})
  modify_gateway f s = (ok tt, record s { gateway = f s.gateway })

  -- The request that is about to be handed to the package.
  unfoldable pub note : Event F → Exec F T (Unit {0})
  note e s = (ok tt, record s { journal = s.journal ++ e ∷ [] })

  -- The statements of one transaction once SQLite has answered.
  abbrev pub commit : {A : Type 0} → (Database F → A × Database F) → Exec F T A
  commit op s = let (a, db') = op s.db in (ok a, record s { db = db' })

module _ {F T : Type 0} ⦃host : Host T⦄ where
  unfoldable pub utc_now : Exec F T ℕ
  unfolding ask
  utc_now = ask host.utc_now

  -- One locked transaction of `Database`, given the clock that it reads.
  unfoldable pub transaction : {A : Type 0} → (ℕ → Database F → A × Database F) → Exec F T A
  unfolding ask utc_now ◌>>=◌
  transaction op = ask host.storage >>= λ _. utc_now >>= λ now. commit (op now)

  -- A locked SELECT.
  unfoldable pub query : {A : Type 0} → (Database F → A) → Exec F T A
  unfolding ask gets ◌>>=◌
  query q = ask host.storage >>= λ _. gets λ s. q s.db
