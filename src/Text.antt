-- ===== src/Text.antt =====
-- Python's texts as sim/run_golden.py and firmware&local/ use them: str.strip, str.split, str.lower,
-- str.startswith, the lines of a file opened as text, int of a text, and the formats %x and %d. A
-- text is the list of its character codes, of ASCII; a line ends with its newline.
pub mod Hex
pub mod Words
use Prim.Native.Char.{code}
use Prim.Native.String.{String}
use axi_dma_engine.Base.{
  ℕ, zero, suc, ◌+◌, ◌-◌, ◌*◌, ◌/◌, ◌%◌, ◌^◌, ◌≡◌, Bool, true, false, ◌&&◌, ◌||◌, not, Option, none,
  some, List, [], ◌∷◌, ◌++◌, map, length, replicate, ltb, leb, ◌==◌, if◌then◌else◌, Result, ok, err,
  value_error, negative_number,
}

abbrev pub Chars : Type 0
Chars = List ℕ

abbrev pub codes : String → Chars
codes String.[] = []
codes (String.◌∷◌ c s) = code c ∷ codes s

abbrev is_space : ℕ → Bool
is_space c = leb 9 c && leb c 13 || leb 28 c && leb c 32

-- `str.strip`
unfoldable pub lstrip : Chars → Chars
lstrip [] = []
lstrip (c ∷ s) = if is_space c then lstrip s else c ∷ s

abbrev pub keep : ℕ → Chars → Chars
keep c [] = if is_space c then [] else c ∷ []
keep c (d ∷ s) = c ∷ d ∷ s

unfoldable pub rstrip : Chars → Chars
rstrip [] = []
rstrip (c ∷ s) = keep c (rstrip s)

abbrev pub strip : Chars → Chars
strip s = lstrip (rstrip s)

-- `str.split()`, with the word read so far
abbrev pub flush : Chars → List Chars → List Chars
flush [] ws = ws
flush (c ∷ w) ws = (c ∷ w) ∷ ws

unfoldable pub split_onto : Chars → Chars → List Chars
split_onto word [] = flush word []
split_onto word (c ∷ s) = elim (is_space c) [
  | true ↦ flush word (split_onto [] s)
  | false ↦ split_onto (word ++ c ∷ []) s
]

abbrev pub split : Chars → List Chars
split = split_onto []

-- `str.lower`
abbrev pub lower : Chars → Chars
lower = map (λ c. if leb b'A' c && leb c b'Z' then c + 32 else c)

infix 50 ◌is◌
abbrev pub ◌is◌ : Chars → Chars → Bool
[] is [] = true
(c ∷ s) is (d ∷ t) = c == d && s is t
_ is _ = false

-- `str.startswith("#")`
abbrev pub is_comment : Chars → Bool
is_comment [] = false
is_comment (c ∷ s) = c == b'#'

-- The lines of a file, with the line read so far.
abbrev last_line : Chars → List Chars
last_line [] = []
last_line (c ∷ l) = (c ∷ l) ∷ []

unfoldable pub lines_onto : Chars → Chars → List Chars
lines_onto line [] = last_line line
lines_onto line (c ∷ s) = elim (c == b'\n') [
  | true ↦ (line ++ c ∷ []) ∷ lines_onto [] s
  | false ↦ lines_onto (line ++ c ∷ []) s
]

abbrev pub lines_of : Chars → List Chars
lines_of = lines_onto []

-- The file that is written line by line.
abbrev pub write_lines {ℓ} : {A : Type ℓ} → (A → Chars) → List A → Chars
write_lines print [] = []
write_lines print (x ∷ xs) = print x ++ b'\n' ∷ write_lines print xs

-- three words with a space between them
abbrev pub words : Chars → Chars → Chars → Chars
words u v w = u ++ b' ' ∷ (v ++ b' ' ∷ w)

-- The digits of a positive number in front of `out`; a number has fewer digits than itself.
abbrev pub digit_char : ℕ → ℕ
digit_char d = if ltb d 10 then b'0' + d else b'a' + d - 10

unfoldable pub to_base : ℕ → ℕ → ℕ → Chars → Chars
to_base base zero n out = out
to_base base (suc fuel) zero out = out
to_base base (suc fuel) (suc n) out =
    to_base base fuel (suc n / base) (digit_char (suc n % base) ∷ out)

abbrev pub number : ℕ → ℕ → Chars
number base zero = b'0' ∷ []
number base (suc n) = to_base base (suc n) (suc n) []

-- `"%0wx"`, and `"%d"`
abbrev pub hex : ℕ → ℕ → Chars
hex w n = replicate (w - length (number 16 n)) b'0' ++ number 16 n

abbrev pub decimal : ℕ → Chars
decimal = number 10

-- The value of a digit of any base up to 36, and 36 for all else.
abbrev pub digit_value : ℕ → ℕ
digit_value c =
    if leb b'0' c && leb c b'9'
    then c - b'0'
    else if leb b'a' c && leb c b'z'
    then c - b'a' + 10
    else if leb b'A' c && leb c b'Z'
    then c - b'A' + 10
    else 36

-- What `int` has read last: an underscore stands behind a digit or a prefix, and before a digit.
pub data Seen : Type 0 where
  nothing base_prefix digit underscore : Seen

abbrev underscore_after : Seen → Option Seen
underscore_after base_prefix = some underscore
underscore_after digit = some underscore
underscore_after _ = none

abbrev next_seen : ℕ → Seen → ℕ → Option Seen
next_seen base seen c =
    if c == b'_'
    then underscore_after seen
    else if ltb (digit_value c) base
    then some digit
    else none

abbrev at_end : Seen → ℕ → Result ℕ
at_end digit n = ok n
at_end _ n = err value_error

unfoldable pub scan : ℕ → Seen → ℕ → Chars → Result ℕ
scan base seen n [] = at_end seen n
scan base seen n (c ∷ s) = elim (next_seen base seen c) [
  | none ↦ err value_error
  | some s' ↦ scan base s' (if c == b'_' then n else n * base + digit_value c) s
]

-- The literals of `int(_, 10)`, `int(_, 16)` and `int(_, 0)`, without the sign.
abbrev pub dec_literal : Chars → Result ℕ
dec_literal = scan 10 nothing 0

abbrev pub hex_literal : Chars → Result ℕ
hex_literal [] = err value_error
hex_literal (c ∷ []) = scan 16 nothing 0 (c ∷ [])
hex_literal (c ∷ d ∷ s) =
    if c == b'0' && (d == b'x' || d == b'X')
    then scan 16 base_prefix 0 s
    else scan 16 nothing 0 (c ∷ d ∷ s)

-- A decimal literal that begins with 0 has to be 0.
abbrev only_zero : Result ℕ → Result ℕ
only_zero (ok (suc n)) = err value_error
only_zero r = r

abbrev pub any_literal : Chars → Result ℕ
any_literal [] = err value_error
any_literal (c ∷ []) = dec_literal (c ∷ [])
any_literal (c ∷ d ∷ s) =
    if not (c == b'0')
    then dec_literal (c ∷ d ∷ s)
    else if d == b'x' || d == b'X'
    then scan 16 base_prefix 0 s
    else if d == b'o' || d == b'O'
    then scan 8 base_prefix 0 s
    else if d == b'b' || d == b'B'
    then scan 2 base_prefix 0 s
    else only_zero (dec_literal (c ∷ d ∷ s))

-- Python's integers: `negsuc n` is the negative number n + 1 below 0.
pub data ℤ : Type 0 where
  pos negsuc : ℕ → ℤ

abbrev positive : Result ℕ → Result ℤ
positive (ok n) = ok (pos n)
positive (err e) = err e

abbrev negative : Result ℕ → Result ℤ
negative (ok zero) = ok (pos 0)
negative (ok (suc n)) = ok (negsuc n)
negative (err e) = err e

abbrev signed : (Chars → Result ℕ) → Chars → Result ℤ
signed literal [] = positive (literal [])
signed literal (c ∷ s) =
    if c == b'+'
    then positive (literal s)
    else if c == b'-'
    then negative (literal s)
    else positive (literal (c ∷ s))

-- `int(text, 16)`, and with the other two literals
abbrev pub int_of : (Chars → Result ℕ) → Chars → Result ℤ
int_of literal text = signed literal (strip text)

-- A number that the model has only from 0 on.
abbrev pub natural : ℤ → Result ℕ
natural (pos n) = ok n
natural (negsuc n) = err negative_number

-- `x & 0xFFFFFFFF`
abbrev pub mask_int : ℕ → ℤ → ℕ
mask_int w (pos n) = n % 2 ^ w
mask_int w (negsuc n) = 2 ^ w - 1 - n % 2 ^ w

module _ {A B : Type 0} where
  infixl 5 ◌on_ok◌
  abbrev pub ◌on_ok◌ : Result A → (A → Result B) → Result B
  ok a on_ok f = f a
  err e on_ok f = err e

-- Texts whose characters all pass a test.
abbrev pub AllOf : (ℕ → Bool) → Chars → Type 0
AllOf p [] = Unit {0}
AllOf p (c ∷ s) = (p c ≡ true) × AllOf p s

abbrev pub is_visible : ℕ → Bool
is_visible c = not (is_space c)

abbrev pub in_line : ℕ → Bool
in_line c = not (c == b'\n')
