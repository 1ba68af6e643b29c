-- ===== src/Worker/Claiming.antt =====
-- `claim_next_pending` and the count of the signals that are taken.
use mt5_execution_bridge.Prelude.{
  ℕ, zero, suc, ◌+◌, ◌≤◌, String, eq_iff, ◌≡◌, refl, inl, inr, Bool, true, false, Option, none,
  some, List, [], ◌∷◌, arith, count_if, update_where, select, if◌then◌else◌, Bool-cases,
}
use mt5_execution_bridge.Storage.{Signal, Database}
use mt5_execution_bridge.Storage.Signals.{
  has_signal_id, row_is_pending, get_signal, oldest, claimed, is_claimable, claim,
  claim_next_pending,
}
use mt5_execution_bridge.Storage.Rows.{find-holds, count_if-update_where, map-update_where}
use mt5_execution_bridge.Execution.Quiet.{is_taken, taken, ids}
use mt5_execution_bridge.Worker.Steady.{Holds}

module _ {ℓ} {A : Type ℓ} where
  -- An update that makes its rows pass a test that they failed adds them to the count.
  count_if-update_where_gain :
      (p q : A → Bool) (f : A → A) (xs : List A)
      → ((x : A) → q x ≡ true → (p x ≡ false) × (p (f x) ≡ true))
      → count_if p (update_where q f xs) ≡ count_if p xs + count_if q xs
  count_if-update_where_gain p q f [] gains = refl
  count_if-update_where_gain p q f (x ∷ xs) gains = elim (Bool-cases (q x)) [
    | inl hit ↦ ground (arith, gains x hit, count_if-update_where_gain p q f xs gains)
    | inr miss ↦ ground (arith, miss, count_if-update_where_gain p q f xs gains)
  ]

module _ {F : Type 0} (mark : String → Bool) where
  -- 1 where the signal's id is marked.
  abbrev pub share : Signal F → ℕ
  share r = if mark r.signal_id then 1 else 0

  -- What holds after the claim; `db` is the database before.
  abbrev pub Claims : Database F → Option (Signal F) × Database F → Type 0
  Claims db (none, db') = Holds mark db db'
  Claims db (some r, db') = (taken mark db + share r ≤ taken mark db') × (ids db' ≡ ids db)

  update-Holds :
      (i : String) (now : ℕ) (db : Database F)
      → Holds mark db
          (record db { signals = update_where (is_claimable i) (claimed now) db.signals })
  update-Holds i now db = (
    count_if-update_where (is_taken mark) (is_claimable i) (claimed now) db.signals
        (λ r h. ground (arith, h)),
    map-update_where (λ r. r.signal_id) (is_claimable i) (claimed now) db.signals (λ r. refl),
  )

  gains :
      (i : String) (now : ℕ) (x : Signal F)
      → mark i ≡ true
      → is_claimable i x ≡ true
      → (is_taken mark x ≡ false) × (is_taken mark (claimed now x) ≡ true)
  gains i now x same h =
      let id : x.signal_id ≡ i = (eq_iff x.signal_id i).0 (ground (arith, h)) in
      ground (arith, h, id, same)

  claim-Claims : (q : Signal F) (now : ℕ) (db : Database F) → Claims db (claim q now db)
  unfolding claim get_signal
  claim-Claims q now db = counted _ refl
    where
      after : Database F
      after = record db {
        signals = update_where (is_claimable q.signal_id) (claimed now) db.signals;
      }

      found :
          (o : Option (Signal F))
          → get_signal q.signal_id after ≡ o
          → 1 ≤ count_if (is_claimable q.signal_id) db.signals
          → Claims db (o, after)
      found none e some_row = update-Holds q.signal_id now db
      found (some r) e some_row =
          let id : r.signal_id ≡ q.signal_id =
            (eq_iff r.signal_id q.signal_id).0
              (find-holds (has_signal_id q.signal_id) after.signals r e) in
          let held = update-Holds q.signal_id now db in
          (
            elim (Bool-cases (mark q.signal_id)) [
              | inl same ↦ ground (
                arith,
                id,
                same,
                some_row,
                count_if-update_where_gain (is_taken mark) (is_claimable q.signal_id) (claimed now)
                    db.signals (λ x h. gains q.signal_id now x same h),
              )
              | inr other ↦ ground (arith, id, other, held.0)
            ],
            held.1,
          )

      counted :
          (n : ℕ)
          → count_if (is_claimable q.signal_id) db.signals ≡ n
          → Claims db
              (elim n [ zero ↦ (none, after) | suc _ ↦ (get_signal q.signal_id after, after) ])
      counted zero e = update-Holds q.signal_id now db
      counted (suc n) e = found _ refl (omega (arith, e))

  pub claim_next_pending-Claims :
      (now : ℕ) (db : Database F) → Claims db (claim_next_pending now db)
  unfolding claim_next_pending
  claim_next_pending-Claims now db = chosen (oldest (select row_is_pending db.signals))
    where
      chosen :
          (o : Option (Signal F))
          → Claims db (elim o [ none ↦ (none, db) | some r ↦ claim r now db ])
      chosen none = (omega arith, refl)
      chosen (some r) = claim-Claims r now db
