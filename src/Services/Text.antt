-- ===== src/Services/Text.antt =====
-- The Python text functions that the services call: `strip`, `int`, and the decimal of a number.
-- Texts are walked as their code points; `int` is that of ASCII digits.
pub mod Decimals
use mathlib.Core.List.{reverse}
use Prim.Native.Char.{Char, code}
use mt5_execution_bridge.Prelude.{
  ℕ, zero, suc, ◌+◌, ◌-◌, ◌*◌, ◌/◌, ◌%◌, String, Bool, false, ◌&&◌, ◌||◌, Option, none, some, List,
  [], ◌∷◌, ltb, leb, ◌==◌, count_if, if◌then◌else◌,
}
use mt5_execution_bridge.Float.{ℤ, pos, negsuc}

abbrev pub codes : String → List ℕ
codes String.[] = []
codes (String.◌∷◌ c s) = code c ∷ codes s

-- `str.isspace` of one character
unfoldable pub is_space : ℕ → Bool
is_space c =
    (leb 9 c && leb c 13)
    || (leb 28 c && leb c 32)
    || c == 133
    || c == 160
    || c == 5760
    || (leb 8192 c && leb c 8202)
    || c == 8232
    || c == 8233
    || c == 8239
    || c == 8287
    || c == 12288

unfoldable pub lstrip : List ℕ → List ℕ
unfolding is_space
lstrip [] = []
lstrip (c ∷ cs) = let rest = lstrip cs in if is_space c then rest else c ∷ cs

unfoldable pub strip : List ℕ → List ℕ
unfolding lstrip
strip cs = reverse (lstrip (reverse (lstrip cs)))

abbrev pub is_digit : ℕ → Bool
is_digit c = leb b'0' c && leb c b'9'

-- Digits with single underscores between them, after the value `acc` of those before; `after`
-- tells whether a digit stood last.
unfoldable pub read_digits : ℕ → Bool → List ℕ → Option ℕ
read_digits acc after [] = if after then some acc else none
read_digits acc after (c ∷ cs) =
    let rest = read_digits (if is_digit c then acc * 10 + (c - b'0') else acc) (is_digit c) cs in
    if is_digit c || (c == b'_' && after) then rest else none

abbrev pub negate : ℕ → ℤ
negate zero = pos 0
negate (suc n) = negsuc n

abbrev pub signed : (ℕ → ℤ) → Option ℕ → Option ℤ
signed f none = none
signed f (some n) = some (f n)

unfoldable pub read_int : List ℕ → Option ℤ
unfolding read_digits
read_int [] = none
read_int (c ∷ cs) =
    if c == b'-'
    then signed negate (read_digits 0 false cs)
    else if c == b'+'
    then signed pos (read_digits 0 false cs)
    else signed pos (read_digits 0 false (c ∷ cs))

-- `sys.int_info.default_max_str_digits`
abbrev pub max_str_digits : ℕ
max_str_digits = 4300

-- `int(text)`; `none` is its ValueError.
unfoldable pub int : String → Option ℤ
unfolding read_int strip
int s =
    let cs = strip (codes s) in
    if ltb max_str_digits (count_if is_digit cs) then none else read_int cs

-- `text or None`
abbrev pub or_none : String → Option String
or_none String.[] = none
or_none (String.◌∷◌ c s) = some (String.◌∷◌ c s)

abbrev pub digit : ℕ → Char
digit n =
    if n == 0
    then "0"
    else if n == 1
    then "1"
    else if n == 2
    then "2"
    else if n == 3
    then "3"
    else if n == 4
    then "4"
    else if n == 5
    then "5"
    else if n == 6
    then "6"
    else if n == 7
    then "7"
    else if n == 8
    then "8"
    else "9"

-- The digits of `n` before `acc`; the fuel is a number above `n`.
unfoldable pub decimal_from : ℕ → ℕ → String → String
decimal_from zero n acc = acc
decimal_from (suc f) n acc =
    let rest = decimal_from f (n / 10) (String.◌∷◌ (digit (n % 10)) acc) in
    if ltb n 10 then String.◌∷◌ (digit n) acc else rest

-- `str(n)`
unfoldable pub decimal : ℕ → String
unfolding decimal_from
decimal n = decimal_from (n + 1) n ""
