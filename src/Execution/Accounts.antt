-- ===== src/Execution/Accounts.antt =====
-- `account_key_for`: the key and the account that it stands for.
use Prim.Native.Char.{code}
use Prim.Native.String
use text.Mathlib.TextEquality.{Char-path}
use text.Mathlib.TextLemmas.{nil-append, cons-append}
use mt5_execution_bridge.Prelude.{
  ℕ, String, ◌≡◌, refl, sym, ap, ◌∙◌, inl, inr, false, ◌||◌, Option, none, some, List, [], ◌∷◌,
  ◌++◌, arith, get_or, All, ◌==◌, Bool-cases,
}
use mt5_execution_bridge.Int.{pos, pos_part}
use mt5_execution_bridge.Services.Text.{codes, strip, read_int, decimal}
use mt5_execution_bridge.Services.Text.Decimals.{IsDigit, codes-decimal, read_int-decimal}
use mt5_execution_bridge.Outside.{AccountInfo}
use mt5_execution_bridge.Execution.Common.{is_blank, key_of, account_key_for}

codes-append : (s t : String) → codes (String.◌++◌ s t) ≡ codes s ++ codes t
codes-append String.[] t = ap codes (nil-append t)
codes-append (String.◌∷◌ c s) t =
    ap codes (cons-append c s t) ∙ ap (λ (cs : List ℕ). code c ∷ cs) (codes-append s t)

head_of : List ℕ → ℕ
head_of [] = 0
head_of (c ∷ cs) = c

tail_of : List ℕ → List ℕ
tail_of [] = []
tail_of (c ∷ cs) = cs

codes_injective : (s t : String) → codes s ≡ codes t → s ≡ t
unfolding head_of tail_of
codes_injective String.[] String.[] e = refl
codes_injective String.[] (String.◌∷◌ d t) e = cc
codes_injective (String.◌∷◌ c s) String.[] e = cc
codes_injective (String.◌∷◌ c s) (String.◌∷◌ d t) e =
    rw (Char-path c d (ap head_of e), codes_injective s t (ap tail_of e)) refl

-- A digit is no separator.
All-middle : (xs ys : List ℕ) → All IsDigit (xs ++ b'|' ∷ ys) → ⊥
All-middle [] ys (h, hs) = cc
All-middle (x ∷ xs) ys (h, hs) = All-middle xs ys hs

-- A text ends in one way by a separator and digits.
last_part :
    (xs ys ds es : List ℕ)
    → All IsDigit ds
    → All IsDigit es
    → xs ++ b'|' ∷ ds ≡ ys ++ b'|' ∷ es
    → (xs ≡ ys) × (ds ≡ es)
unfolding tail_of head_of
last_part [] [] ds es hd he e = (refl, ap tail_of e)
last_part [] (y ∷ ys) ds es hd he e = absurd (All-middle ys es (rw (← ap tail_of e) hd))
last_part (x ∷ xs) [] ds es hd he e = absurd (All-middle xs ds (rw (ap tail_of e) he))
last_part (x ∷ xs) (y ∷ ys) ds es hd he e =
    let (same, same') = last_part xs ys ds es hd he (ap tail_of e) in
    (rw (ap head_of e, same) refl, same')

-- The key's text.
abbrev written : String → ℕ → String
written server login = String.◌++◌ server (String.◌++◌ "|" (decimal login))

codes-written :
    (server : String) (login : ℕ)
    → codes (written server login) ≡ codes server ++ b'|' ∷ codes (decimal login)
codes-written server login =
    codes-append server (String.◌++◌ "|" (decimal login))
    ∙ ap (λ (cs : List ℕ). codes server ++ cs) (codes-append "|" (decimal login))

written-injective : (s t : String) (m n : ℕ) → written s m ≡ written t n → (s ≡ t) × (m ≡ n)
written-injective s t m n e =
    let (same, digits) =
      last_part (codes s) (codes t) (codes (decimal m)) (codes (decimal n)) (codes-decimal m)
        (codes-decimal n) (sym (codes-written s m) ∙ ap codes e ∙ codes-written t n) in
    let read : some (pos m) ≡ some (pos n) =
      sym (read_int-decimal m)
      ∙ ap (λ (s : String). read_int (strip (codes s))) (codes_injective _ _ digits)
      ∙ read_int-decimal n in
    (codes_injective s t same, ap (λ o. pos_part (get_or o (pos 0))) read)

-- What an account with a key is.
key_of-written :
    (server : Option String) (login : Option ℕ) (k : String)
    → key_of server login ≡ some k
    → (s : String) × (n : ℕ) × (server ≡ some s)
      × (login ≡ some n)
      × (written s n ≡ k)
      × (is_blank s ≡ false)
unfolding decimal
key_of-written none login k e = cc
key_of-written (some s) none k e = cc
key_of-written (some s) (some n) k e = elim (Bool-cases (is_blank s || n == 0)) [
  | inl anonymous ↦ ground (arith, anonymous, e)
  | inr known ↦ (s, n, refl, refl, ap (λ o. get_or o "") (rw known at e), ground (arith, known))
]

-- Two accounts with the same key have the same server and the same login: the daily baseline and the
-- daily trade count, which are kept under the key, are never shared between two accounts. The
-- server of an account with a key is not blank.
pub account_key_for_injective :
    {F : Type 0} (a b : AccountInfo F) (k : String)
    → account_key_for a ≡ some k
    → account_key_for b ≡ some k
    → (a.server ≡ b.server)
      × (a.login ≡ b.login)
      × ((s : String) → a.server ≡ some s → is_blank s ≡ false)
unfolding account_key_for
account_key_for_injective a b k ea eb =
    let (s, m, has_s, has_m, ks, solid) = key_of-written a.server a.login k ea in
    let (t, n, has_t, has_n, kt, _) = key_of-written b.server b.login k eb in
    let (same, same') = written-injective s t m n (ks ∙ sym kt) in
    (
      has_s ∙ ap some same ∙ sym has_t,
      has_m ∙ ap some same' ∙ sym has_n,
      λ u has_u. rw (ap (λ o. get_or o s) (sym has_u ∙ has_s)) solid,
    )
