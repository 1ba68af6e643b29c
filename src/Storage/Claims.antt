-- ===== src/Storage/Claims.antt =====
-- `claim_next_pending` and the oldest PENDING signal.
use mathlib.Core.Option
use mt5_execution_bridge.Prelude.{
  ℕ, zero, suc, ◌≤◌, String, str_eq, eq_iff, ◌≡◌, refl, sym, ap, ◌∙◌, ◌⊎◌, inl, inr, Bool, true,
  false, Option, none, some, List, [], ◌∷◌, arith, ltb, count_if, select, find, update_where, All,
  All-mono, if◌then◌else◌, Bool-cases, Option-cases,
}
use mt5_execution_bridge.Storage.Tables.{Signal, Database}
use mt5_execution_bridge.Storage.Signals.{
  has_signal_id, row_is_pending, get_signal, older, oldest, claimed, is_claimable, claim,
  claim_next_pending,
}
use mt5_execution_bridge.Storage.Rows.{find-holds}

module _ {A : Type 0} where
  abbrev pub IsIn : A → List A → Type 0
  IsIn x [] = ⊥
  IsIn x (y ∷ ys) = (y ≡ x) ⊎ IsIn x ys

  count_if-IsIn : (p : A → Bool) (x : A) (xs : List A) → IsIn x xs → p x ≡ true → 1 ≤ count_if p xs
  count_if-IsIn p x [] h hit = absurd h
  count_if-IsIn p x (y ∷ ys) (inl e) hit = ground (arith, ap p e, hit)
  count_if-IsIn p x (y ∷ ys) (inr h) hit = ground (arith, count_if-IsIn p x ys h hit)

  -- A row is found by a test that only it passes.
  pub find_unique :
      (p : A → Bool) (x : A) (xs : List A)
      → IsIn x xs
      → p x ≡ true
      → count_if p xs ≤ 1
      → find p xs ≡ some x
  find_unique p x [] h hit one = absurd h
  find_unique p x (y ∷ ys) (inl e) hit one = ground (arith, ap p e, hit, ap some e)
  find_unique p x (y ∷ ys) (inr h) hit one = elim (Bool-cases (p y)) [
    | inl also ↦ ground (arith, also, count_if-IsIn p x ys h hit, one)
    | inr miss ↦ ground (arith, miss, find_unique p x ys h hit, one)
  ]

  -- What a search finds after an update of other rows, and of the row that it found.
  pub find-update_where_any :
      (p q : A → Bool) (f : A → A) (xs : List A)
      → ((x : A) → p (f x) ≡ p x)
      → find p (update_where q f xs) ≡ Option.map (λ x. if q x then f x else x) (find p xs)
  find-update_where_any p q f [] keeps = refl
  find-update_where_any p q f (x ∷ xs) keeps =
      ground (arith, keeps x, find-update_where_any p q f xs keeps)

true-is_not_false : true ≡ false → ⊥
true-is_not_false h = cc

module _ {F : Type 0} where
  -- A waiting row that no waiting row is older than.
  pub record IsNext (q : Signal F) (rs : List (Signal F)) : Type 0 where
    pub listed : IsIn q rs
    pub waiting : row_is_pending q ≡ true
    pub first : All (λ (r : Signal F). row_is_pending r ≡ true → q.id ≤ r.id) rs

  -- What `ORDER BY id ASC LIMIT 1` gives.
  abbrev Picks : List (Signal F) → Option (Signal F) → Type 0
  Picks rs none = All (λ (r : Signal F). row_is_pending r ≡ false) rs
  Picks rs (some q) = IsNext q rs

  skip :
      (r : Signal F) (rs : List (Signal F)) (o : Option (Signal F))
      → row_is_pending r ≡ false
      → Picks rs o
      → Picks (r ∷ rs) o
  skip r rs none off h = (off, h)
  skip r rs (some q) off h = record {
    listed = inr h.listed;
    waiting = h.waiting;
    first = (λ on. absurd (true-is_not_false (sym on ∙ off)), h.first);
  }

  take :
      (r : Signal F) (rs : List (Signal F)) (o : Option (Signal F))
      → row_is_pending r ≡ true
      → Picks rs o
      → Picks (r ∷ rs) (older r o)
  take r rs none on h = record {
    listed = inl refl;
    waiting = on;
    first = (
      λ _. omega arith,
      All-mono (λ q off here. absurd (true-is_not_false (sym here ∙ off))) rs h,
    );
  }
  take r rs (some q) on h = elim (Bool-cases (ltb q.id r.id)) [
    | inl less ↦ rw less (record {
      listed = inr h.listed;
      waiting = h.waiting;
      first = (λ _. ground (arith, less), h.first);
    })
    | inr more ↦ rw more (record {
      listed = inl refl;
      waiting = on;
      first = (λ _. omega arith, All-mono (λ p le here. ground (arith, more, le here)) rs h.first);
    })
  ]

  oldest-Picks : (rs : List (Signal F)) → Picks rs (oldest (select row_is_pending rs))
  oldest-Picks [] = tt
  oldest-Picks (r ∷ rs) = elim (Bool-cases (row_is_pending r)) [
    | inl on ↦ rw on (take r rs _ on (oldest-Picks rs))
    | inr off ↦ rw off (skip r rs _ off (oldest-Picks rs))
  ]

  own : (q : Signal F) → row_is_pending q ≡ true → is_claimable q.signal_id q ≡ true
  own q on = ground (arith, on, (eq_iff q.signal_id q.signal_id).1 refl)

  claimed_row :
      (q : Signal F) (now : ℕ) (db : Database F)
      → IsNext q db.signals
      → count_if (has_signal_id q.signal_id) db.signals ≤ 1
      → find
          (has_signal_id q.signal_id)
          (update_where (is_claimable q.signal_id) (claimed now) db.signals)
        ≡ some (claimed now q)
  claimed_row q now db next one =
      rw
        (
          find-update_where_any (has_signal_id q.signal_id) (is_claimable q.signal_id) (claimed now)
              db.signals (λ r. refl),
          find_unique (has_signal_id q.signal_id) q db.signals next.listed ((eq_iff _ _).1 refl)
              one,
        )
        (rw (own q next.waiting) refl)

  other_row :
      (q : Signal F) (now : ℕ) (db : Database F) (i : String)
      → str_eq q.signal_id i ≡ false
      → find (has_signal_id i) (update_where (is_claimable q.signal_id) (claimed now) db.signals)
        ≡ find (has_signal_id i) db.signals
  other_row q now db i apart =
      find-update_where_any (has_signal_id i) (is_claimable q.signal_id) (claimed now) db.signals
        (λ r. refl)
      ∙ elim (Option-cases (find (has_signal_id i) db.signals)) [
        | inl missing ↦ rw missing refl
        | inr (r, found) ↦
            rw found (ap some (kept r (find-holds (has_signal_id i) db.signals r found)))
      ]
    where
      kept :
          (r : Signal F)
          → has_signal_id i r ≡ true
          → (if is_claimable q.signal_id r then claimed now r else r) ≡ r
      kept r here = elim (Bool-cases (is_claimable q.signal_id r)) [
        | inl hit ↦ absurd (
            true-is_not_false (
              sym (
                (eq_iff q.signal_id i).1 (
                  sym ((eq_iff r.signal_id q.signal_id).0 (ground (arith, hit)))
                  ∙ (eq_iff r.signal_id i).0 here))
              ∙ apart))
        | inr miss ↦ rw miss refl
      ]

  -- The claim of the waiting row `q`, in a table with unique ids.
  claim-found :
      (q : Signal F) (now : ℕ) (db : Database F)
      → IsNext q db.signals
      → count_if (has_signal_id q.signal_id) db.signals ≤ 1
      → claim q now db ≡ (
        some (claimed now q),
        record db { signals = update_where (is_claimable q.signal_id) (claimed now) db.signals },
      )
  unfolding claim get_signal
  claim-found q now db next one =
      counted _
        (count_if-IsIn (is_claimable q.signal_id) q db.signals next.listed (own q next.waiting))
    where
      after : Database F
      after = record db {
        signals = update_where (is_claimable q.signal_id) (claimed now) db.signals;
      }

      counted :
          (n : ℕ)
          → 1 ≤ n
          → ◌≡◌ {A = Option (Signal F) × Database F}
              (elim n [ zero ↦ (none, after) | suc _ ↦ (get_signal q.signal_id after, after) ])
              (some (claimed now q), after)
      counted zero le = absurd (omega (arith, le))
      counted (suc n) le = rw (claimed_row q now db next one) refl

  -- What holds after a claim of the oldest signal; `db` is the database before.
  abbrev pub ClaimedNext : ℕ → Database F → Option (Signal F) × Database F → Type 0
  ClaimedNext now db (none, db') =
      All (λ (r : Signal F). row_is_pending r ≡ false) db.signals × (db' ≡ db)
  ClaimedNext now db (some r, db') =
      (q : Signal F) × IsNext q db.signals
      × (r ≡ claimed now q)
      × (get_signal q.signal_id db' ≡ some r)
      × ((i : String) → str_eq q.signal_id i ≡ false → get_signal i db' ≡ get_signal i db)

  pub claim_next_pending-ClaimedNext :
      (now : ℕ) (db : Database F)
      → ((i : String) → count_if (has_signal_id i) db.signals ≤ 1)
      → ClaimedNext now db (claim_next_pending now db)
  unfolding claim_next_pending get_signal
  claim_next_pending-ClaimedNext now db unique = chosen _ (oldest-Picks db.signals)
    where
      chosen :
          (o : Option (Signal F))
          → Picks db.signals o
          → ClaimedNext now db (elim o [ none ↦ (none, db) | some r ↦ claim r now db ])
      chosen none h = (h, refl)
      chosen (some q) h = rw (claim-found q now db h (unique q.signal_id)) (
        q,
        h,
        refl,
        claimed_row q now db h (unique q.signal_id),
        λ i apart. other_row q now db i apart,
      )
