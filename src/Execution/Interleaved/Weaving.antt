-- ===== src/Execution/Interleaved/Weaving.antt =====
-- A woven action gives what the action alone gives, with the signals that arrived behind it.
use mathlib.Core.Path.{subst}
use mathlib.Core.List.{append_assoc}
use mt5_execution_bridge.Prelude.{String, ◌≡◌, refl, sym, ap, ◌∙◌, List, [], ◌∷◌, ◌++◌}
use mt5_execution_bridge.Storage.{Database}
use mt5_execution_bridge.Storage.Rows.{HasSignal}
use mt5_execution_bridge.Storage.Arrivals.{Arrival, arrive, arrive_all}
use mt5_execution_bridge.Storage.Arrivals.Writes.{arrive_all-HasSignal}
use mt5_execution_bridge.Outside.{Host}
use mt5_execution_bridge.Exec.{Bridge, Outcome, ok, returned, raised, Exec, continue, ◌>>=◌}
use mt5_execution_bridge.Execution.Interleaved.{
  arrived, Plan, next, rest, in_order, Program, aside, writes, reads, binds, Woven, resume, weave,
}
use mt5_execution_bridge.Execution.Interleaved.Moving.{
  before_arrivals, transaction-moves, query-moves, Program-HasSignal, Program-moves,
}

-- What an action in between others does: what the action does alone, and then the signals `new`,
-- which are the first of the plan, arrive.
pub record Linear {F T A : Type 0} (alone : Outcome A × Bridge F T) (plan : Plan F)
    (r : Woven F T A) : Type 0 where
  pub new : List (Arrival F)
  pub first : in_order plan ≡ new ++ in_order r.1
  pub same : r.0 ≡ before_arrivals new alone

pub arrive_all-append :
    {F : Type 0} (new later : List (Arrival F)) (db : Database F)
    → arrive_all (new ++ later) db ≡ arrive_all later (arrive_all new db)
arrive_all-append [] later db = refl
arrive_all-append (a ∷ new) later db = arrive_all-append new later (arrive a db)

in_order-next : {F : Type 0} (plan : Plan F) → in_order plan ≡ next plan ++ in_order (rest plan)
in_order-next [] = refl
in_order-next (new ∷ plan) = refl

module _ {F T A B : Type 0} (f : A → Exec F T B) (go : A → Plan F → Bridge F T → Woven F T B) where
  -- The rest of an action, behind a step that has ended.
  resumed-Linear :
      (i : String) (alone : Outcome A × Bridge F T) (plan plan' : Plan F) (new : List (Arrival F))
      → in_order plan ≡ new ++ in_order plan'
      → HasSignal i alone.1.db
      → ((a : A) (s : Bridge F T)
          → alone ≡ (ok a, s)
          → (f a (arrived new s) ≡ before_arrivals new (f a s))
            × (HasSignal i (arrived new s).db
                → Linear (f a (arrived new s)) plan' (go a plan' (arrived new s))))
      → Linear (continue alone.0 f alone.1) plan (resume (before_arrivals new alone, plan') go)
  resumed-Linear i (ok a, s) plan plan' new first h after =
      let (moves, on) = after a s refl in
      let l = on (arrive_all-HasSignal i new s.db h) in
      record {
        new = new ++ l.new;
        first = first ∙ ap (λ later. new ++ later) l.first ∙ sym (append_assoc new l.new _);
        same =
            l.same
            ∙ ap (before_arrivals l.new) moves
            ∙ ap (λ db. ((f a s).0, record (f a s).1 { db = db }))
                (sym (arrive_all-append new l.new (f a s).1.db));
      }
  resumed-Linear i (returned st, s) plan plan' new first h after = record {
    new = new;
    first = first;
    same = refl;
  }
  resumed-Linear i (raised e, s) plan plan' new first h after = record {
    new = new;
    first = first;
    same = refl;
  }

  pub resume-Linear :
      (i : String) (alone : Outcome A × Bridge F T) (plan : Plan F) (r : Woven F T A)
      → Linear alone plan r
      → HasSignal i alone.1.db
      → ((a : A) (s : Bridge F T) (new : List (Arrival F)) (plan' : Plan F)
          → alone ≡ (ok a, s)
          → (f a (arrived new s) ≡ before_arrivals new (f a s))
            × (HasSignal i (arrived new s).db
                → Linear (f a (arrived new s)) plan' (go a plan' (arrived new s))))
      → Linear (continue alone.0 f alone.1) plan (resume r go)
  resume-Linear i alone plan r l h after =
      subst
        (λ (x : Outcome A × Bridge F T).
          Linear (continue alone.0 f alone.1) plan (resume (x, r.1) go))
        (sym l.same) (resumed-Linear i alone plan r.1 l.new l.first h (λ a s. after a s l.new r.1))

module _ {F T : Type 0} ⦃host : Host T⦄ {i : String} where
  pub weave-Linear :
      {A : Type 0} {m : Exec F T A} (p : Program i A m) (plan : Plan F) (s : Bridge F T)
      → HasSignal i s.db
      → Linear (m s) plan (weave p plan s)
  unfolding weave ◌>>=◌
  weave-Linear (aside b) plan s h = record { new = []; first = refl; same = refl }
  weave-Linear (writes w) plan s h = record {
    new = next plan;
    first = in_order-next plan;
    same = transaction-moves w (next plan) s h;
  }
  weave-Linear (reads r) plan s h = record {
    new = next plan;
    first = in_order-next plan;
    same = query-moves r (next plan) s;
  }
  weave-Linear (binds {m = m} {f = f} p q) plan s h =
      resume-Linear f (λ a. weave (q a)) i (m s) plan (weave p plan s) (weave-Linear p plan s h)
        (Program-HasSignal p s h)
        (λ a s' new plan' e. (
          Program-moves (q a) new s' (
              subst (λ (r : Outcome _ × Bridge F T). HasSignal i r.1.db) e
                (Program-HasSignal p s h)),
          weave-Linear (q a) plan' (arrived new s'),
        ))
