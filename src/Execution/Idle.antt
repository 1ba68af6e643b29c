-- ===== src/Execution/Idle.antt =====
-- Actions that leave the database and the journal alone and end by a value or a failure: the
-- gateway's read-only calls and the connection.
pub mod Calls
use mt5_execution_bridge.Prelude.{
  ◌≡◌, refl, Bool, true, false, Option, none, some, arith, if◌then◌else◌,
}
use mt5_execution_bridge.Outside.{Failure, Call, Host}
use mt5_execution_bridge.Storage.{Database}
use mt5_execution_bridge.Exec.{
  Bridge, Outcome, ok, returned, raised, Exec, Gateway, pure, raise, gets, ask, or_raise, utc_now,
  query, modify_gateway, continue, ◌>>=◌,
}
use mt5_execution_bridge.Execution.Quiet.{Watch, IsKept, After, Quiet}

module _ {F T : Type 0} where
  abbrev pub Stays : {A : Type 0} → Bridge F T → Outcome A × Bridge F T → Type 0
  Stays s (ok a, s') = (s'.db ≡ s.db) × (s'.journal ≡ s.journal)
  Stays s (returned st, s') = ⊥
  Stays s (raised e, s') = (s'.db ≡ s.db) × (s'.journal ≡ s.journal)

  pub record Idle {A : Type 0} (m : Exec F T A) : Type 0 where
    pub at : (s : Bridge F T) → Stays s (m s)

  module _ {A : Type 0} where
    pub Idle-pure : (a : A) → Idle {A = A} (pure a)
    unfolding pure
    Idle-pure a = record { at = λ s. (refl, refl) }

    pub Idle-gets : (f : Bridge F T → A) → Idle (gets f)
    unfolding gets
    Idle-gets f = record { at = λ s. (refl, refl) }

    pub Idle-ask : (c : Call T A) → Idle (ask c)
    unfolding ask
    Idle-ask c = record { at = λ s. ground arith }

    pub Idle-or_raise : (e : Failure) (o : Option A) → Idle (or_raise e o)
    unfolding or_raise
    Idle-or_raise e none = record { at = λ s. (refl, refl) }
    Idle-or_raise e (some a) = record { at = λ s. (refl, refl) }

    pub Idle-if : (b : Bool) (m n : Exec F T A) → Idle m → Idle n → Idle (if b then m else n)
    Idle-if true m n hm hn = hm
    Idle-if false m n hm hn = hn

    -- Whatever it ends by, an idle action leaves the database and the journal as they are.
    pub Idle-same :
        (m : Exec F T A) (s : Bridge F T)
        → Idle m
        → ((m s).1.db ≡ s.db) × ((m s).1.journal ≡ s.journal)
    Idle-same m s idle = go (m s) (idle.at s)
      where
        go : (r : Outcome A × Bridge F T) → Stays s r → (r.1.db ≡ s.db) × (r.1.journal ≡ s.journal)
        go (ok a, s') h = h
        go (returned st, s') h = absurd h
        go (raised e, s') h = h

    -- An idle action is quiet for every run.
    pub Quiet-idle : {w : Watch F} {m : Exec F T A} → Idle m → Quiet w m (λ _. Unit {0})
    Quiet-idle {w} {m} idle = record { at = λ s k. go s (m s) (idle.at s) k }
      where
        go :
            (s : Bridge F T) (r : Outcome A × Bridge F T)
            → Stays s r
            → IsKept w s.db
            → After w s.journal (λ _. Unit {0}) r
        go s (ok a, s') (e, e') k = (tt, e', rw e k)
        go s (returned st, s') h k = absurd h
        go s (raised x, s') (e, e') k = (e', rw e k)

  pub Idle-bind :
      {A B : Type 0} {m : Exec F T A} {f : A → Exec F T B}
      → Idle m
      → ((a : A) → Idle (f a))
      → Idle (m >>= f)
  unfolding ◌>>=◌
  Idle-bind {A} {B} {m} {f} hm hf = record { at = λ s. go s (m s) (hm.at s) }
    where
      go : (s : Bridge F T) (r : Outcome A × Bridge F T) → Stays s r → Stays s (continue r.0 f r.1)
      go s (ok a, s') (e, e') = rw (← e, ← e') ((hf a).at s')
      go s (returned st, s') h = absurd h
      go s (raised x, s') h = h

module _ {F T : Type 0} ⦃host : Host T⦄ where
  pub Idle-utc_now : Idle {F = F} {T = T} utc_now
  unfolding utc_now
  Idle-utc_now = Idle-ask host.utc_now

  pub Idle-query : {A : Type 0} (q : Database F → A) → Idle {T = T} (query q)
  unfolding query
  Idle-query q = Idle-bind (Idle-ask host.storage) λ _. Idle-gets (λ s. q s.db)
