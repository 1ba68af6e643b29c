-- ===== src/Storage/Rows.antt =====
-- What the UPDATEs do to the rows that the SELECTs find.
use mathlib.Core.Option
use mt5_execution_bridge.Prelude.{
  Bool-cases, inl, inr, ℕ, ◌≤◌, String, ◌≡◌, refl, sym, ap, ◌∙◌, str_eq, eq_iff, Bool, true, false,
  Option, some, List, [], ◌∷◌, ◌++◌, arith, is_none, count_if, find, update_where, map,
}
use mt5_execution_bridge.Models.{ExecutionStatus, Message}
use mt5_execution_bridge.Storage.Tables.{Signal, Execution, Database}
use mt5_execution_bridge.Storage.Signals.{
  has_signal_id, get_signal, with_status, update_signal_status,
}
use mt5_execution_bridge.Storage.Executions.{Field, assign, assign_all, has_id, update_execution}

module _ {ℓ} {A : Type ℓ} where
  -- An update that keeps what the search looks at is found where the row was.
  pub find-update_where :
      (p : A → Bool) (f : A → A) (xs : List A)
      → ((x : A) → p (f x) ≡ p x)
      → find p (update_where p f xs) ≡ Option.map f (find p xs)
  find-update_where p f [] keeps = refl
  find-update_where p f (x ∷ xs) keeps = ground (arith, keeps x, find-update_where p f xs keeps)

  -- A row that is found stays found when rows are added.
  pub find-append :
      (p : A → Bool) (xs ys : List A) → is_none (find p xs) ≡ false → find p (xs ++ ys) ≡ find p xs
  find-append p [] ys h = cc
  find-append p (x ∷ xs) ys h = ground (arith, find-append p xs ys)

  pub find-append_last :
      (p : A → Bool) (xs : List A) (x : A) → p x ≡ true → is_none (find p (xs ++ x ∷ [])) ≡ false
  find-append_last p [] x h = ground arith
  find-append_last p (y ∷ xs) x h = ground (arith, find-append_last p xs x h)

  -- A row behind rows that fail the test is the one that is found.
  pub find-append_new :
      (p : A → Bool) (xs : List A) (x : A)
      → is_none (find p xs) ≡ true
      → p x ≡ true
      → find p (xs ++ x ∷ []) ≡ some x
  find-append_new p [] x h hit = rw hit refl
  find-append_new p (y ∷ xs) x h hit = elim (Bool-cases (p y)) [
    | inl here ↦ ground (arith, here, h)
    | inr miss ↦ rw miss (find-append_new p xs x (ground (arith, miss, h)) hit)
  ]

  pub find-append_other :
      (p : A → Bool) (xs : List A) (x : A) → p x ≡ false → find p (xs ++ x ∷ []) ≡ find p xs
  find-append_other p [] x miss = rw miss refl
  find-append_other p (y ∷ xs) x miss = ground (arith, find-append_other p xs x miss)

  -- An update that never makes a row fail a test loses none from the count.
  pub count_if-update_where :
      (p q : A → Bool) (f : A → A) (xs : List A)
      → ((x : A) → p x ≡ true → p (f x) ≡ true)
      → count_if p xs ≤ count_if p (update_where q f xs)
  count_if-update_where p q f [] keeps = omega arith
  count_if-update_where p q f (x ∷ xs) keeps =
      ground (arith, keeps x, count_if-update_where p q f xs keeps)

  pub find-holds : (p : A → Bool) (xs : List A) (x : A) → find p xs ≡ some x → p x ≡ true
  find-holds p [] x h = cc
  find-holds p (y ∷ xs) x h = elim (Bool-cases (p y)) [
    | inl hit ↦ ground (arith, hit, h)
    | inr miss ↦ find-holds p xs x (ground (arith, miss, h))
  ]

  pub find-none_count :
      (p : A → Bool) (xs : List A) → is_none (find p xs) ≡ true → count_if p xs ≡ 0
  find-none_count p [] h = refl
  find-none_count p (x ∷ xs) h = ground (arith, find-none_count p xs)

  pub count_if-map {κ} :
      {B : Type κ} (p : B → Bool) (f : A → B) (xs : List A)
      → count_if p (map f xs) ≡ count_if (λ x. p (f x)) xs
  count_if-map p f [] = refl
  count_if-map p f (x ∷ xs) = rw (count_if-map p f xs) refl

  -- An update keeps a column that it does not write.
  pub map-update_where {κ} :
      {B : Type κ} (g : A → B) (p : A → Bool) (f : A → A) (xs : List A)
      → ((x : A) → g (f x) ≡ g x)
      → map g (update_where p f xs) ≡ map g xs
  map-update_where g p f [] keeps = refl
  map-update_where g p f (x ∷ xs) keeps = ground (arith, keeps x, map-update_where g p f xs keeps)

  -- An update of other rows does not touch the row that is found.
  pub find-update_where_apart :
      (p q : A → Bool) (f : A → A) (xs : List A)
      → ((x : A) → p (f x) ≡ p x)
      → ((x : A) → p x ≡ true → q x ≡ false)
      → find p (update_where q f xs) ≡ find p xs
  find-update_where_apart p q f [] keeps apart = refl
  find-update_where_apart p q f (x ∷ xs) keeps apart = elim (Bool-cases (p x)) [
    | inl here ↦
        ground (arith, here, apart x here, keeps x, find-update_where_apart p q f xs keeps apart)
    | inr other ↦ ground (arith, other, keeps x, find-update_where_apart p q f xs keeps apart)
  ]

module _ {F : Type 0} where
  -- `SELECT * FROM executions WHERE id = ?`, which no method of `Database` runs.
  abbrev pub get_execution : ℕ → Database F → Option (Execution F)
  get_execution n db = find (has_id n) db.executions

  abbrev pub HasSignal : String → Database F → Type 0
  HasSignal i db = is_none (get_signal i db) ≡ false

  abbrev pub HasExecution : ℕ → Database F → Type 0
  HasExecution n db = is_none (get_execution n db) ≡ false

  -- The status of a signal, and that of an execution.
  abbrev pub status_of : String → Database F → Option ExecutionStatus
  status_of i db = Option.map (λ (r : Signal F). r.status) (get_signal i db)

  abbrev pub HasStatus : String → ExecutionStatus → Database F → Type 0
  HasStatus i st db = Option.map (λ (r : Signal F). r.status) (get_signal i db) ≡ some st

  abbrev pub HasExecutionStatus : ℕ → ExecutionStatus → Database F → Type 0
  HasExecutionStatus n st db =
      Option.map (λ (e : Execution F). e.status) (get_execution n db) ≡ some st

  pub assign-id : (f : Field F) (e : Execution F) → (assign f e).id ≡ e.id
  unfolding assign
  assign-id (Field.account_key k) e = refl
  assign-id _ e = refl

  pub assign_all-id : (fs : List (Field F)) (e : Execution F) → (assign_all fs e).id ≡ e.id
  assign_all-id [] e = refl
  assign_all-id (f ∷ fs) e = cc (assign_all-id fs (assign f e), assign-id f e)

  pub executions-update_execution :
      (n : ℕ) (fs : List (Field F)) (db : Database F)
      → get_execution n (update_execution n fs db).1
        ≡ Option.map (assign_all fs) (get_execution n db)
  unfolding update_execution
  executions-update_execution n [] db = ground arith
  executions-update_execution n (f ∷ fs) db =
      find-update_where (has_id n) (assign_all (f ∷ fs)) db.executions
        (λ e. rw (assign_all-id (f ∷ fs) e))

  pub signals-update_execution :
      (n : ℕ) (fs : List (Field F)) (db : Database F)
      → (update_execution n fs db).1.signals ≡ db.signals
  unfolding update_execution
  signals-update_execution n [] db = refl
  signals-update_execution n (f ∷ fs) db = refl

  -- A status update gives the signal's row that status.
  pub update_signal_status-HasStatus :
      (i : String) (st : ExecutionStatus) (reason : Option (Message F)) (symbol : Option String)
      (now : ℕ) (db : Database F)
      → HasSignal i db
      → HasStatus i st (update_signal_status i st reason symbol now db).1
  unfolding update_signal_status get_signal
  update_signal_status-HasStatus i st reason symbol now db h =
      rw
        (find-update_where (has_signal_id i) (with_status st reason symbol now) db.signals
          (λ r. refl))
        (ground arith)

  -- An update that writes no status, and one of another signal.
  pub status_of-update_where :
      (i : String) (q : Signal F → Bool) (f : Signal F → Signal F) (db : Database F)
      → ((r : Signal F) → (f r).signal_id ≡ r.signal_id)
      → ((r : Signal F) → (f r).status ≡ r.status)
      → status_of i (record db { signals = update_where q f db.signals }) ≡ status_of i db
  unfolding get_signal
  status_of-update_where i q f db same_id same_status = go db.signals
    where
      go :
          (rs : List (Signal F))
          → Option.map (λ (r : Signal F). r.status) (find (has_signal_id i) (update_where q f rs))
            ≡ Option.map (λ (r : Signal F). r.status) (find (has_signal_id i) rs)
      go [] = refl
      go (r ∷ rs) = ground (arith, same_id r, same_status r, go rs)

  pub has_signal_id-apart :
      (i j : String) (r : Signal F)
      → str_eq j i ≡ false
      → has_signal_id i r ≡ true
      → has_signal_id j r ≡ false
  has_signal_id-apart i j r apart here = elim (Bool-cases (has_signal_id j r)) [
    | inl both ↦
        let same : j ≡ i = sym ((eq_iff r.signal_id j).0 both) ∙ (eq_iff r.signal_id i).0 here in
        let hit : str_eq j i ≡ true = (eq_iff j i).1 same in cc
    | inr miss ↦ miss
  ]

  pub update_signal_status-other :
      (j i : String) (st : ExecutionStatus) (reason : Option (Message F)) (symbol : Option String)
      (now : ℕ) (db : Database F)
      → str_eq j i ≡ false
      → status_of i (update_signal_status j st reason symbol now db).1 ≡ status_of i db
  unfolding update_signal_status get_signal
  update_signal_status-other j i st reason symbol now db apart =
      ap (Option.map (λ (r : Signal F). r.status)) (
        find-update_where_apart (has_signal_id i) (has_signal_id j)
          (with_status st reason symbol now) db.signals (λ r. refl)
          (λ r here. has_signal_id-apart i j r apart here))
