-- ===== src/Config/Accepted.antt =====
-- What accepted settings give to the rest of the program.
use mt5_execution_bridge.Prelude.{
  ℕ, ◌+◌, ◌-◌, ◌*◌, ◌≤◌, ◌<◌, ◌≡◌, refl, ◌⊎◌, inl, inr, Bool, true, false, not, ◌&&◌, ◌||◌, none,
  some, List, [], ◌∷◌, arith, ◌==◌, All, Bool-cases, length, count_if, ltb, is_none,
}
use mt5_execution_bridge.Int.{ℤ, pos, negsuc, pos_part}
use mt5_execution_bridge.Float.{Float}
use mt5_execution_bridge.Config.{Settings, live_execution_allowed}
use mt5_execution_bridge.Config.Validation.{
  Fields, Validated, valid, invalid, all_digits, isdigit, is_empty, is_loopback, is_at_least,
  settings_of, enforce_local_binding, validate_live_execution_config, in_bounds, validate_settings,
  Invalid, field_out_of_bounds, remote_binding, server_missing, login_missing, login_not_numeric,
}
use mt5_execution_bridge.Services.Text.{
  codes, strip, int, read_int, read_digits, is_digit, max_str_digits,
}

abbrev pub IsAscii : ℕ → Type 0
IsAscii c = c < 128

module _ (other_digit : ℕ → Bool) where
  read_digits-some :
      (acc : ℕ) (cs : List ℕ)
      → all_digits other_digit cs ≡ true
      → All IsAscii cs
      → (n : ℕ) × (read_digits acc true cs ≡ some n)
  unfolding read_digits
  read_digits-some acc [] h a = (acc, refl)
  read_digits-some acc (c ∷ cs) h (small, a) =
      let digit : is_digit c ≡ true = ground (arith, h, small) in
      let (n, e) = read_digits-some (acc * 10 + (c - b'0')) cs (ground (arith, h)) a in
      (n, rw digit e)

  -- A text of digits is the text of a number.
  read_int-isdigit :
      (cs : List ℕ)
      → isdigit other_digit cs ≡ true
      → All IsAscii cs
      → (n : ℕ) × (read_int cs ≡ some (pos n))
  unfolding read_int read_digits
  read_int-isdigit [] h a = cc
  read_int-isdigit (c ∷ cs) h (small, a) =
      let digit : is_digit c ≡ true = ground (arith, h, small) in
      let minus : (c == b'-') ≡ false = ground (arith, digit) in
      let plus : (c == b'+') ≡ false = ground (arith, digit) in
      let (n, e) = read_digits-some (0 * 10 + (c - b'0')) cs (ground (arith, h)) a in
      (n, rw (minus, plus, digit, e) refl)

-- An integer that is a natural number of at least `n`.
abbrev pub AtLeast : ℕ → ℤ → Type 0
AtLeast n z = (m : ℕ) × (z ≡ pos m) × (n ≤ m)

is_at_least-AtLeast : (n : ℕ) (z : ℤ) → is_at_least n z ≡ true → AtLeast n z
is_at_least-AtLeast n (pos m) h = (m, refl, ground (arith, h))
is_at_least-AtLeast n (negsuc m) h = cc

AtLeast-is_at_least : (n : ℕ) (z : ℤ) → AtLeast n z → is_at_least n z ≡ true
AtLeast-is_at_least n z (m, e, le) = rw e (ground (arith, le))

count_if-length : (p : ℕ → Bool) (cs : List ℕ) → count_if p cs ≤ length cs
count_if-length p [] = omega arith
count_if-length p (c ∷ cs) = let rest = count_if-length p cs in ground (arith, rest)

is_empty-nil : (cs : List ℕ) → is_empty cs ≡ true → cs ≡ []
is_empty-nil [] h = refl
is_empty-nil (c ∷ cs) h = cc

all_digits-holds :
    (other_digit : ℕ → Bool) (cs : List ℕ)
    → All (λ c. is_digit c ≡ true) cs
    → all_digits other_digit cs ≡ true
all_digits-holds other_digit [] h = refl
all_digits-holds other_digit (c ∷ cs) (digit, h) =
    let rest = all_digits-holds other_digit cs h in
    let small : ltb c 128 ≡ true = ground (arith, digit) in rw (small, digit) rest

isdigit-holds :
    (other_digit : ℕ → Bool) (cs : List ℕ)
    → is_empty cs ≡ false
    → All (λ c. is_digit c ≡ true) cs
    → isdigit other_digit cs ≡ true
isdigit-holds other_digit [] h digits = cc
isdigit-holds other_digit (c ∷ cs) h digits = all_digits-holds other_digit (c ∷ cs) digits

positive : (z : ℤ) → is_at_least 1 z ≡ true → 1 ≤ pos_part z
positive (pos n) h = ground (arith, h)
positive (negsuc n) h = cc

module _ {F : Type 0} where
  -- Live execution has a server, and a login that `int` reads unless it is too long for it.
  pub record IsLive (s : Settings F) : Type 0 where
    pub server : is_empty (strip (codes s.mt5_server)) ≡ false
    pub login :
        All IsAscii (strip (codes s.mt5_login))
        → length (strip (codes s.mt5_login)) ≤ 4300
        → (n : ℕ) × (int s.mt5_login ≡ some (pos n))

  -- The settings that the services may rely on.
  pub record IsSound (s : Settings F) : Type 0 where
    pub port : (1 ≤ s.port) × (s.port ≤ 65535)
    pub max_open_positions : 1 ≤ s.max_open_positions
    pub max_trades_per_day : 1 ≤ s.max_trades_per_day
    pub max_spread_points : 1 ≤ s.max_spread_points
    pub max_signal_age_seconds : 1 ≤ s.max_signal_age_seconds
    pub local : is_loopback s.host || s.allow_remote_binding ≡ true
    pub live : live_execution_allowed s ≡ true → IsLive s

  validate_live_execution_config-IsLive :
      (other_digit : ℕ → Bool) (s : Settings F)
      → validate_live_execution_config other_digit s ≡ none
      → live_execution_allowed s ≡ true
      → IsLive s
  unfolding validate_live_execution_config live_execution_allowed int
  validate_live_execution_config-IsLive other_digit s ok live = record {
    server = ground (arith, ok, live);
    login = λ ascii few.
        let bound = count_if-length is_digit (strip (codes s.mt5_login)) in
        let read : ltb max_str_digits (count_if is_digit (strip (codes s.mt5_login))) ≡ false =
          ground (arith, few, bound) in
        rw read (
          read_int-isdigit other_digit (strip (codes s.mt5_login)) (ground (arith, ok, live))
            ascii);
  }

module _ {F : Type 0} ⦃float : Float F⦄ where
  -- A float over zero and at most 100, neither infinite nor NaN.
  abbrev pub IsPercent : F → Type 0
  IsPercent x =
      (float.lt (float.decimal 0 0) x ≡ true)
      × (float.le x (float.decimal 100 0) ≡ true)
      × (is_none (float.floor x) ≡ false)

  -- What the fields' declarations ask for.
  pub record InBounds (f : Fields F) : Type 0 where
    pub port : AtLeast 1 f.port × (pos_part f.port ≤ 65535)
    pub magic_number : AtLeast 0 f.magic_number
    pub max_risk_percent : IsPercent f.max_risk_percent
    pub max_daily_loss_percent : IsPercent f.max_daily_loss_percent
    pub max_open_positions : AtLeast 1 f.max_open_positions
    pub max_trades_per_day : AtLeast 1 f.max_trades_per_day
    pub max_spread_points : AtLeast 1 f.max_spread_points
    pub max_signal_age_seconds : AtLeast 1 f.max_signal_age_seconds

  in_bounds-InBounds : (f : Fields F) → in_bounds f ≡ true → InBounds f
  unfolding in_bounds
  in_bounds-InBounds f h = record {
    port = (is_at_least-AtLeast 1 f.port (ground (arith, h)), ground (arith, h));
    magic_number = is_at_least-AtLeast 0 f.magic_number (ground (arith, h));
    max_risk_percent = ground (arith, h);
    max_daily_loss_percent = ground (arith, h);
    max_open_positions = is_at_least-AtLeast 1 f.max_open_positions (ground (arith, h));
    max_trades_per_day = is_at_least-AtLeast 1 f.max_trades_per_day (ground (arith, h));
    max_spread_points = is_at_least-AtLeast 1 f.max_spread_points (ground (arith, h));
    max_signal_age_seconds = is_at_least-AtLeast 1 f.max_signal_age_seconds (ground (arith, h));
  }

  InBounds-in_bounds : (f : Fields F) → InBounds f → in_bounds f ≡ true
  unfolding in_bounds
  InBounds-in_bounds f h =
      let port = AtLeast-is_at_least 1 f.port h.port.0 in
      let magic = AtLeast-is_at_least 0 f.magic_number h.magic_number in
      let positions = AtLeast-is_at_least 1 f.max_open_positions h.max_open_positions in
      let trades = AtLeast-is_at_least 1 f.max_trades_per_day h.max_trades_per_day in
      let spread = AtLeast-is_at_least 1 f.max_spread_points h.max_spread_points in
      let age = AtLeast-is_at_least 1 f.max_signal_age_seconds h.max_signal_age_seconds in
      ground (
        arith, port, magic, positions, trades, spread, age, h.port.1, h.max_risk_percent,
        h.max_daily_loss_percent,
      )

module _ {F : Type 0} ⦃float : Float F⦄ (other_digit : ℕ → Bool) (f : Fields F) where
  -- The outcome of the validation and what it tells of the fields.
  abbrev pub Verdict : Validated F → Type 0
  Verdict (valid s) = (s ≡ settings_of f) × InBounds f × IsSound s
  Verdict (invalid field_out_of_bounds) = ¬ InBounds f
  Verdict (invalid remote_binding) = (is_loopback f.host ≡ false) × (f.allow_remote_binding ≡ false)
  Verdict (invalid server_missing) =
      (live_execution_allowed (settings_of f) ≡ true) × (strip (codes f.mt5_server) ≡ [])
  Verdict (invalid login_missing) =
      (live_execution_allowed (settings_of f) ≡ true) × (strip (codes f.mt5_login) ≡ [])
  Verdict (invalid login_not_numeric) =
      (live_execution_allowed (settings_of f) ≡ true)
      × ¬ All (λ c. is_digit c ≡ true) (strip (codes f.mt5_login))

  in_bounds-IsSound :
      in_bounds f ≡ true
      → enforce_local_binding (settings_of f) ≡ none
      → validate_live_execution_config other_digit (settings_of f) ≡ none
      → IsSound (settings_of f)
  unfolding in_bounds enforce_local_binding
  in_bounds-IsSound bounds local live = record {
    port = (positive f.port (ground (arith, bounds)), ground (arith, bounds));
    max_open_positions = positive f.max_open_positions (ground (arith, bounds));
    max_trades_per_day = positive f.max_trades_per_day (ground (arith, bounds));
    max_spread_points = positive f.max_spread_points (ground (arith, bounds));
    max_signal_age_seconds = positive f.max_signal_age_seconds (ground (arith, bounds));
    local = ground (arith, local);
    live = validate_live_execution_config-IsLive other_digit (settings_of f) live;
  }

  local-Verdict :
      (enforce_local_binding (settings_of f) ≡ none)
      ⊎ ((enforce_local_binding (settings_of f) ≡ some remote_binding)
          × Verdict (invalid remote_binding))
  unfolding enforce_local_binding
  local-Verdict = elim (Bool-cases (not (is_loopback f.host) && not f.allow_remote_binding)) [
    | inl remote ↦ inr (rw remote refl, ground (arith, remote))
    | inr local ↦ inl (rw local refl)
  ]

  live-Verdict :
      (validate_live_execution_config other_digit (settings_of f) ≡ none)
      ⊎ ((why : Invalid) × (validate_live_execution_config other_digit (settings_of f) ≡ some why)
          × Verdict (invalid why))
  unfolding validate_live_execution_config live_execution_allowed
  live-Verdict = elim (Bool-cases (f.dry_run || not f.live_execution_enabled)) [
    | inl off ↦ inl (rw off refl)
    | inr on ↦ elim (Bool-cases (is_empty (strip (codes f.mt5_server)))) [
      | inl blank ↦
          inr (server_missing, rw (on, blank) refl, (ground (arith, on), is_empty-nil _ blank))
      | inr server ↦ elim (Bool-cases (is_empty (strip (codes f.mt5_login)))) [
        | inl blank ↦
            inr (
              login_missing,
              rw (on, server, blank) refl,
              (ground (arith, on), is_empty-nil _ blank),
            )
        | inr login ↦ elim (Bool-cases (isdigit other_digit (strip (codes f.mt5_login)))) [
          | inl digits ↦ inl (rw (on, server, login, digits) refl)
          | inr odd ↦ inr (
            login_not_numeric,
            rw (on, server, login, odd) refl,
            (
              ground (arith, on),
              λ digits. let reads = isdigit-holds other_digit _ login digits in cc,
            ),
          )
        ]
      ]
    ]
  ]

  -- Settings that are accepted have the values of the fields, limits of 1 or more, percentages over 0
  -- and at most 100 that are neither infinite nor NaN, a magic number of 0 or more, a port of 1 to 65535,
  -- and a loopback host unless remote binding is allowed. Where they allow live execution, the server
  -- is not blank, and the login, stripped, is a number that `int` reads, where it is of at most 4300
  -- ASCII characters. Fields are refused for their bounds only where one is out of these bounds, for the
  -- host only where it is not loopback and remote binding is off, and for the server or the login only
  -- where they allow live execution and the server is blank, the login is blank, or the stripped login is
  -- not all of ASCII digits.
  pub validate_settings-Verdict : Verdict (validate_settings other_digit f)
  unfolding validate_settings
  validate_settings-Verdict = elim (Bool-cases (in_bounds f)) [
    | inr out ↦ rw out λ h. let good = InBounds-in_bounds f h in cc
    | inl bounds ↦ rw bounds (elim local-Verdict [
      | inr (refused, why) ↦ rw refused why
      | inl local ↦ rw local (elim live-Verdict [
        | inr (why, refused, verdict) ↦ rw refused verdict
        | inl live ↦
            rw live (refl, in_bounds-InBounds f bounds, in_bounds-IsSound bounds local live)
      ])
    ])
  ]
