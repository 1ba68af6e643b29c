-- ===== src/Services/Text/Decimals.antt =====
-- `int` of the text that `str` gives of a natural number.
use native.Mathlib.Omega.{pow_step}
use mathlib.Core.List.{reverse, reverse_aux, reverse-reverse}
use Prim.Native.Char.{code}
use mt5_execution_bridge.Prelude.{
  length, count_if, ltb, ◌≤◌, ◌^◌, ℕ, zero, suc, ◌+◌, ◌-◌, ◌*◌, ◌/◌, ◌%◌, ◌<◌, String, ◌≡◌, refl,
  ap, inl, inr, Bool, true, false, none, some, List, [], ◌∷◌, arith, ◌==◌, All, Bool-cases,
}
use mt5_execution_bridge.Float.{pos}
use mt5_execution_bridge.Services.Text.{
  codes, is_space, lstrip, strip, is_digit, read_digits, read_int, int, max_str_digits, digit,
  decimal_from, decimal,
}

abbrev pub IsDigit : ℕ → Type 0
IsDigit c = is_digit c ≡ true

digit-code : (n : ℕ) → n < 10 → code (digit n) ≡ b'0' + n
digit-code zero h = refl
digit-code (suc zero) h = refl
digit-code (suc (suc zero)) h = refl
digit-code (suc (suc (suc zero))) h = refl
digit-code (suc (suc (suc (suc zero)))) h = refl
digit-code (suc (suc (suc (suc (suc zero))))) h = refl
digit-code (suc (suc (suc (suc (suc (suc zero)))))) h = refl
digit-code (suc (suc (suc (suc (suc (suc (suc zero))))))) h = refl
digit-code (suc (suc (suc (suc (suc (suc (suc (suc zero)))))))) h = refl
digit-code (suc (suc (suc (suc (suc (suc (suc (suc (suc zero))))))))) h = refl
digit-code (suc (suc (suc (suc (suc (suc (suc (suc (suc (suc n)))))))))) h =
    absurd (omega (arith, h))

digit_byte : (n : ℕ) → n < 10 → is_digit (b'0' + n) ≡ true
digit_byte n h = ground (arith, h)

-- From a value `n`, reading goes on after the digits of `n`.
pub read_digits-decimal_from :
    (f n : ℕ) (b : Bool) (acc : String)
    → n < f
    → read_digits 0 b (codes (decimal_from f n acc)) ≡ read_digits n true (codes acc)
unfolding decimal_from read_digits
read_digits-decimal_from zero n b acc h = absurd (omega (arith, h))
read_digits-decimal_from (suc f) n b acc h = elim (Bool-cases (ltb n 10)) [
  | inl small ↦
      let value : code (digit n) ≡ b'0' + n = digit-code n (ground (arith, small)) in
      let hit : is_digit (b'0' + n) ≡ true = digit_byte n (ground (arith, small)) in
      let back : b'0' + n - b'0' ≡ n = omega arith in
      rw (small, value, hit, back) (ap (λ k. read_digits k true (codes acc)) (omega arith))
  | inr large ↦
      let value : code (digit (n % 10)) ≡ b'0' + n % 10 = digit-code (n % 10) (omega arith) in
      let hit : is_digit (b'0' + n % 10) ≡ true = digit_byte (n % 10) (omega arith) in
      let back : n / 10 * 10 + (b'0' + n % 10 - b'0') ≡ n = omega arith in
      rw
        (
          large,
          read_digits-decimal_from f (n / 10) b (String.◌∷◌ (digit (n % 10)) acc)
              (ground (arith, h, large)),
          value,
          hit,
          back,
        )
        refl
]

All-reverse_aux :
    {A : Type 0} (P : A → Type 0) (xs ys : List A) → All P xs → All P ys → All P (reverse_aux xs ys)
All-reverse_aux P [] ys h k = k
All-reverse_aux P (x ∷ xs) ys (h, hs) k = All-reverse_aux P xs (x ∷ ys) hs (h, k)

digit_no_space : (c : ℕ) → is_digit c ≡ true → is_space c ≡ false
unfolding is_space
digit_no_space c h = ground (arith, h)

lstrip-digits : (cs : List ℕ) → All IsDigit cs → lstrip cs ≡ cs
unfolding lstrip is_space
lstrip-digits [] h = refl
lstrip-digits (c ∷ cs) (h, hs) = rw (digit_no_space c h) (refl)

strip-digits : (cs : List ℕ) → All IsDigit cs → strip cs ≡ cs
unfolding strip
strip-digits cs h =
    rw (lstrip-digits cs h, lstrip-digits (reverse cs) (All-reverse_aux IsDigit cs [] h tt))
      (reverse-reverse cs)

IsDigit-digit : (n : ℕ) → n < 10 → IsDigit (code (digit n))
IsDigit-digit n h = rw (digit-code n h) (digit_byte n h)

pub codes-decimal_from :
    (f n : ℕ) (acc : String)
    → n < f
    → All IsDigit (codes acc)
    → All IsDigit (codes (decimal_from f n acc))
unfolding decimal_from
codes-decimal_from zero n acc h k = k
codes-decimal_from (suc f) n acc h k = elim (Bool-cases (ltb n 10)) [
  | inl small ↦ rw small (IsDigit-digit n (ground (arith, small)), k)
  | inr large ↦ rw large (
      codes-decimal_from f (n / 10) (String.◌∷◌ (digit (n % 10)) acc) (ground (arith, h, large))
        (IsDigit-digit (n % 10) (omega arith), k))
]

read_int-read_digits :
    (n : ℕ) (cs : List ℕ)
    → All IsDigit cs
    → read_digits 0 false cs ≡ some n
    → read_int cs ≡ some (pos n)
unfolding read_int read_digits
read_int-read_digits n [] h e = let bad : none ≡ some n = e in cc
read_int-read_digits n (c ∷ cs) (h, hs) e =
    let minus : (c == b'-') ≡ false = ground (arith, h) in
    let plus : (c == b'+') ≡ false = ground (arith, h) in rw (minus, plus, e) refl

pub codes-decimal : (n : ℕ) → All IsDigit (codes (decimal n))
unfolding decimal
codes-decimal n = codes-decimal_from (n + 1) n "" (omega arith) tt

-- The digits of a natural number are read as that number.
pub read_int-decimal : (n : ℕ) → read_int (strip (codes (decimal n))) ≡ some (pos n)
unfolding decimal read_digits
read_int-decimal n =
    let digits = codes-decimal_from (n + 1) n "" (omega arith) tt in
    rw (strip-digits (codes (decimal_from (n + 1) n "")) digits)
      (read_int-read_digits n _ digits (read_digits-decimal_from (n + 1) n false "" (omega arith)))

count_if-digits : (cs : List ℕ) → All IsDigit cs → count_if is_digit cs ≡ length cs
count_if-digits [] h = refl
count_if-digits (c ∷ cs) (h, hs) = let rest = count_if-digits cs hs in ground (arith, h, rest)

-- `int(str(n)) == n` for a natural number `n`, unless it has more digits than `int` reads.
pub int-decimal :
    (n : ℕ) → length (codes (decimal n)) ≤ max_str_digits → int (decimal n) ≡ some (pos n)
unfolding int
int-decimal n le =
    let few : ltb max_str_digits (count_if is_digit (strip (codes (decimal n)))) ≡ false =
      rw (strip-digits _ (codes-decimal n), count_if-digits _ (codes-decimal n))
        (ground (arith, le)) in
    rw few (read_int-decimal n)

pub int-too_long : (n : ℕ) → max_str_digits < length (codes (decimal n)) → int (decimal n) ≡ none
unfolding int
int-too_long n lt =
    let many : ltb max_str_digits (count_if is_digit (strip (codes (decimal n)))) ≡ true =
      rw (strip-digits _ (codes-decimal n), count_if-digits _ (codes-decimal n))
        (ground (arith, lt)) in
    rw many refl

-- A number under a power of ten has no more digits than the power's exponent.
length-decimal_from :
    (k f n : ℕ) (acc : String)
    → n < 10 ^ suc k
    → n < f
    → length (codes (decimal_from f n acc)) ≤ suc k + length (codes acc)
unfolding decimal_from
length-decimal_from k zero n acc small h = absurd (omega (arith, h))
length-decimal_from zero (suc f) n acc small h =
    let one : ltb n 10 ≡ true = ground (arith, small) in rw one (omega arith)
length-decimal_from (suc k) (suc f) n acc small h = elim (Bool-cases (ltb n 10)) [
  | inl one ↦ rw one (omega arith)
  | inr more ↦
      let tenfold : 10 ^ suc (suc k) ≡ 10 * 10 ^ suc k = pow_step 10 (suc k) in
      let rest =
        length-decimal_from k f (n / 10) (String.◌∷◌ (digit (n % 10)) acc)
          (omega (arith, tenfold, small)) (ground (arith, h, more)) in
      rw more (omega (arith, rest))
]

pub length-decimal : (k n : ℕ) → n < 10 ^ suc k → length (codes (decimal n)) ≤ suc k
unfolding decimal
length-decimal k n small =
    let bound = length-decimal_from k (n + 1) n "" small (omega arith) in omega (arith, bound)
