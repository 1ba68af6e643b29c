-- ===== src/Api/Client/BaseUrl.antt =====
-- The base URL of client/bridge_client.py, to which the paths of the requests are appended.
use Prim.Native.Char.{Char, code}
use mt5_execution_bridge.Prelude.{
  ℕ, zero, suc, String, ◌≡◌, ◌≢◌, refl, ap, inl, inr, false, List, [], ◌∷◌, ◌++◌, ◌==◌, arith,
  Bool-cases,
}
use mt5_execution_bridge.Services.Text.{codes}
use mt5_execution_bridge.Api.Client.{unless_slash, rstrip_slash}

abbrev pub slashes : ℕ → List ℕ
slashes zero = []
slashes (suc n) = b'/' ∷ slashes n

-- A text is this one with some slashes behind it, and this one does not end in a slash.
abbrev pub Stripped : String → String → Type 0
Stripped s r =
    ((n : ℕ) × (codes s ≡ codes r ++ slashes n)) × ((l : List ℕ) → codes r ≢ l ++ b'/' ∷ [])

no_slash : (l : List ℕ) → [] ≢ l ++ b'/' ∷ []
no_slash [] h = cc
no_slash (x ∷ l) h = cc

cons-Stripped :
    (c : Char) (s r : String) → Stripped s r → Stripped (String.◌∷◌ c s) (unless_slash c r)
cons-Stripped c s String.[] ((n, e), ends) = elim (Bool-cases (code c == b'/')) [
  | inl slash ↦
      let same : code c ≡ b'/' = ground (arith, slash) in
      rw slash ((suc n, rw (e, same) refl), no_slash)
  | inr other ↦ rw other ((n, ap (λ l. code c ∷ l) e), one other)
]
  where
    one : code c == b'/' ≡ false → (l : List ℕ) → code c ∷ [] ≢ l ++ b'/' ∷ []
    one other [] h = let same : code c ≡ b'/' = cc in ground (arith, other, same)
    one other (x ∷ l) h = no_slash l cc
cons-Stripped c s (String.◌∷◌ d r) ((n, e), ends) = ((n, ap (λ l. code c ∷ l) e), longer)
  where
    longer : (l : List ℕ) → code c ∷ code d ∷ codes r ≢ l ++ b'/' ∷ []
    longer [] h = cc
    longer (x ∷ l) h = ends l cc

-- The client's base URL is the text that it was given without the slashes at its end, all of them: the
-- text is the base URL and slashes behind it, and the base URL does not end in a slash.
pub rstrip_slash-Stripped : (s : String) → Stripped s (rstrip_slash s)
unfolding rstrip_slash
rstrip_slash-Stripped String.[] = ((0, refl), no_slash)
rstrip_slash-Stripped (String.◌∷◌ c s) =
    cons-Stripped c s (rstrip_slash s) (rstrip_slash-Stripped s)
