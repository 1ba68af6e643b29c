-- ===== src/Api/Shown.antt =====
-- What the handlers of app/api/account.py show.
use mt5_execution_bridge.Prelude.{
  String, str_eq, eq_iff, not, ◌&&◌, ◌||◌, arith, ◌≢◌, ◌≡◌, refl, ap, Bool, true, false, Option,
  none, some, List, [], ◌∷◌, map, All, if◌then◌else◌,
}
use mt5_execution_bridge.Config.{Settings}
use mt5_execution_bridge.Outside.{Attribute, AccountInfo, Position, Order, Sdk}
use mt5_execution_bridge.Exec.{Bridge, Outcome, ok, returned, raised, Exec, pure, continue, ◌>>=◌}
use mt5_execution_bridge.Gateway.{account_info, positions_get, orders_get}
use mt5_execution_bridge.Execution.Common.{ensure_connected}
use mt5_execution_bridge.Api.Response.{Response, success, http_error}
use mt5_execution_bridge.Api.Snapshots.{
  account_fields, position_fields, order_fields, Snapshot, snapshot_of, account_shown,
  positions_shown, orders_shown, connected_or_503, account_snapshot, positions_snapshot,
  orders_snapshot, account, positions, orders,
}

module _ {F T A : Type 0} where
  -- A value that an action ends by has the property `P`.
  abbrev pub Ends : (A → Type 0) → Outcome A × Bridge F T → Type 0
  Ends P (ok a, s) = P a
  Ends P _ = Unit

  pub record Gives (m : Exec F T A) (P : A → Type 0) : Type 0 where
    pub at : (s : Bridge F T) → Ends P (m s)

  Gives-pure : {P : A → Type 0} (a : A) → P a → Gives (pure a) P
  unfolding pure
  Gives-pure a h = record { at = λ s. h }

  Gives-if :
      {P : A → Type 0} (b : Bool) (m n : Exec F T A)
      → Gives m P
      → Gives n P
      → Gives (if b then m else n) P
  Gives-if true m n hm hn = hm
  Gives-if false m n hm hn = hn

  Gives-any : (m : Exec F T A) → Gives m (λ _. Unit)
  Gives-any m = record { at = λ s. go (m s) }
    where
      go : (r : Outcome A × Bridge F T) → Ends (λ _. Unit) r
      go (ok a, s) = tt
      go (returned st, s) = tt
      go (raised e, s) = tt

module _ {F T A B : Type 0} {Q : A → Type 0} {P : B → Type 0} {m : Exec F T A}
    {f : A → Exec F T B} where
  Gives-bind : Gives m Q → ((a : A) → Q a → Gives (f a) P) → Gives (m >>= f) P
  unfolding ◌>>=◌
  Gives-bind hm hf = record { at = λ s. go (m s) (hm.at s) }
    where
      go : (r : Outcome A × Bridge F T) → Ends Q r → Ends P (continue r.0 f r.1)
      go (ok a, s) h = (hf a h).at s
      go (returned st, s) h = tt
      go (raised e, s) h = tt

-- A key that tells nothing of how to log in.
abbrev pub IsPublic : String → Type 0
IsPublic key = (key ≢ "login") × (key ≢ "server") × (key ≢ "password")

distinct : (j k : String) → str_eq j k ≡ false → j ≢ k
distinct j k other same = let equal : str_eq j k ≡ true = (eq_iff j k).1 same in cc

is_private : String → Bool
is_private key = str_eq key "login" || str_eq key "server" || str_eq key "password"

none_private : List String → Bool
unfolding is_private
none_private [] = true
none_private (key ∷ rest) = not (is_private key) && none_private rest

All-IsPublic : (fields : List String) → none_private fields ≡ true → All IsPublic fields
unfolding none_private is_private
All-IsPublic [] h = tt
All-IsPublic (key ∷ fields) h = (
  (
    distinct key "login" (ground (arith, h)),
    distinct key "server" (ground (arith, h)),
    distinct key "password" (ground (arith, h)),
  ),
  All-IsPublic fields (ground (arith, h)),
)

module _ {F : Type 0} where
  -- The keys of a snapshot.
  abbrev pub keys : Snapshot F → List String
  keys snapshot = map (λ entry. entry.0) snapshot

  keys-snapshot_of :
      (fields : List String) (attribute : String → Option (Attribute F))
      → keys (snapshot_of fields attribute) ≡ fields
  keys-snapshot_of [] attribute = refl
  keys-snapshot_of (field ∷ fields) attribute =
      ap (λ (xs : List String). field ∷ xs) (keys-snapshot_of fields attribute)

  -- These keys and no others.
  abbrev pub IsShown : List String → Snapshot F → Type 0
  IsShown fields snapshot = (keys snapshot ≡ fields) × All IsPublic (keys snapshot)

  -- A response with these keys and no others, or the error 503.
  abbrev pub Shows : List String → Response (Snapshot F) → Type 0
  Shows fields (success snapshot) = IsShown fields snapshot
  Shows fields (http_error code) = code ≡ 503

  abbrev pub ShowsEach : List String → Response (List (Snapshot F)) → Type 0
  ShowsEach fields (success snapshots) = All (IsShown fields) snapshots
  ShowsEach fields (http_error code) = code ≡ 503

  snapshot_of-IsShown :
      (fields : List String) (attribute : String → Option (Attribute F))
      → none_private fields ≡ true
      → IsShown fields (snapshot_of fields attribute)
  snapshot_of-IsShown fields attribute h =
      let same = keys-snapshot_of fields attribute in (same, rw same (All-IsPublic fields h))

  account_shown-Shows :
      (found : Option (AccountInfo F))
      → Shows account_fields (connected_or_503 (account_shown found))
  unfolding none_private is_private
  account_shown-Shows none = refl
  account_shown-Shows (some info) = snapshot_of-IsShown account_fields info.attribute refl

  each-keys :
      {A : Type 0} (fields : List String) (attribute : A → String → Option (Attribute F))
      (items : List A)
      → none_private fields ≡ true
      → All (IsShown fields) (map (λ item. snapshot_of fields (attribute item)) items)
  each-keys fields attribute [] h = tt
  each-keys fields attribute (item ∷ items) h =
      (snapshot_of-IsShown fields (attribute item) h, each-keys fields attribute items h)

  positions_shown-ShowsEach :
      (found : Option (List (Position F)))
      → ShowsEach position_fields (connected_or_503 (positions_shown found))
  unfolding none_private is_private
  positions_shown-ShowsEach none = refl
  positions_shown-ShowsEach (some items) =
      each-keys position_fields (λ (item : Position F). item.attribute) items refl

  orders_shown-ShowsEach :
      (found : Option (List (Order F)))
      → ShowsEach order_fields (connected_or_503 (orders_shown found))
  unfolding none_private is_private
  orders_shown-ShowsEach none = refl
  orders_shown-ShowsEach (some items) =
      each-keys order_fields (λ (item : Order F). item.attribute) items refl

module _ {F T : Type 0} ⦃sdk : Sdk F T⦄ where
  -- The shape that the three endpoints share.
  Gives-when_connected :
      {A B : Type 0} {P : Response B → Type 0} (settings : Settings F) (query : Exec F T A)
      (shown : A → Option B)
      → P (http_error 503)
      → ((found : A) → P (connected_or_503 (shown found)))
      → Gives
          ((ensure_connected settings >>= λ up.
              if up then (query >>= λ found. pure (shown found)) else pure none)
            >>= λ snapshot. pure (connected_or_503 snapshot))
          P
  Gives-when_connected {P} settings query shown down up =
      Gives-bind {Q = λ o. P (connected_or_503 o)}
        (Gives-bind (Gives-any (ensure_connected settings)) λ here _.
          Gives-if here (query >>= λ found. pure (shown found)) (pure none)
            (Gives-bind (Gives-any query) λ found _. Gives-pure (shown found) (up found))
            (Gives-pure none down))
        (λ snapshot h. Gives-pure (connected_or_503 snapshot) h)

  -- Where the endpoints for the account, the positions and the pending orders answer, they answer 503,
  -- or with exactly the fields that are listed for each item, and no key of an item is `login`,
  -- `server` or `password`, whatever attributes the terminal's objects have.
  pub endpoints-Gives :
      (settings : Settings F)
      → Gives {T = T} (account settings) (Shows account_fields)
        × Gives {T = T} (positions settings) (ShowsEach position_fields)
        × Gives {T = T} (orders settings) (ShowsEach order_fields)
  unfolding account account_snapshot positions positions_snapshot orders orders_snapshot
  endpoints-Gives settings = (
    Gives-when_connected settings account_info account_shown refl account_shown-Shows,
    Gives-when_connected settings positions_get positions_shown refl positions_shown-ShowsEach,
    Gives-when_connected settings orders_get orders_shown refl orders_shown-ShowsEach,
  )
