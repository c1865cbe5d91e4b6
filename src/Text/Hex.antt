-- ===== src/Text/Hex.antt =====
-- `int(_, 16)` of what `"%0wx"` prints.
use axi_dma_engine.Base.{
  ℕ, zero, suc, ◌+◌, ◌-◌, ◌*◌, ◌/◌, ◌%◌, ◌≤◌, ◌<◌, ◌≡◌, ◌≢◌, refl, ◌∙◌, ap, Bool, true, ◌&&◌, ◌||◌,
  [], ◌∷◌, ◌++◌, replicate, length, leb, ok, arith,
}
use axi_dma_engine.Text.Words.{IsWord, append-ne_nil, strip-AllOf}
use axi_dma_engine.Text.{
  Chars, nothing, digit, digit_char, digit_value, to_base, number, hex, AllOf, is_visible, scan,
  hex_literal, int_of, pos,
}

-- the characters that `%x` prints
abbrev is_hex : ℕ → Bool
is_hex c = leb b'0' c && leb c b'9' || leb b'a' c && leb c b'f'

is_hex-is_visible : (s : Chars) → AllOf is_hex s → AllOf is_visible s
is_hex-is_visible [] h = tt
is_hex-is_visible (c ∷ s) h = (ground (arith, h.0), is_hex-is_visible s h.1)

is_hex-digit_char : (n : ℕ) → is_hex (digit_char (n % 16)) ≡ true
is_hex-digit_char n = ground arith

to_base-is_hex :
    (fuel n : ℕ) (out : Chars) → AllOf is_hex out → AllOf is_hex (to_base 16 fuel n out)
unfolding to_base
to_base-is_hex zero n out h = h
to_base-is_hex (suc fuel) zero out h = h
to_base-is_hex (suc fuel) (suc n) out h =
    to_base-is_hex fuel (suc n / 16) _ (is_hex-digit_char (suc n), h)

-- The number that a row of hexadecimal digits stands for, behind the number `n`.
value : ℕ → Chars → ℕ
value n [] = n
value n (c ∷ s) = value (n * 16 + digit_value c) s

digit_value-digit_char : (d : ℕ) → d < 16 → digit_value (digit_char d) ≡ d
digit_value-digit_char d h = ground arith

value-to_base :
    (fuel n : ℕ) (out : Chars) → n ≤ fuel → value 0 (to_base 16 fuel n out) ≡ value n out
unfolding value to_base
value-to_base zero n out h = ap (λ k. value k out) (omega arith)
value-to_base (suc fuel) zero out h = refl
value-to_base (suc fuel) (suc n) out h =
    value-to_base fuel (suc n / 16) _ (omega (arith, h))
    ∙ ap (λ k. value k out) (omega (arith, digit_value-digit_char (suc n % 16) (omega arith)))

number-is_hex : (n : ℕ) → AllOf is_hex (number 16 n)
number-is_hex zero = (refl, tt)
number-is_hex (suc n) = to_base-is_hex (suc n) (suc n) [] tt

value-number : (n : ℕ) → value 0 (number 16 n) ≡ n
unfolding value to_base
value-number zero = refl
value-number (suc n) = value-to_base (suc n) (suc n) [] (omega arith)

hex-is_hex : (w n : ℕ) → AllOf is_hex (hex w n)
hex-is_hex w n = padded (w - length (number 16 n))
  where
    padded : (k : ℕ) → AllOf is_hex (replicate k b'0' ++ number 16 n)
    padded zero = number-is_hex n
    padded (suc k) = (refl, padded k)

value-hex : (w n : ℕ) → value 0 (hex w n) ≡ n
unfolding value
value-hex w n = padded (w - length (number 16 n))
  where
    padded : (k : ℕ) → value 0 (replicate k b'0' ++ number 16 n) ≡ n
    padded zero = value-number n
    padded (suc k) = padded k

scan-value : (s : Chars) (n : ℕ) → AllOf is_hex s → scan 16 digit n s ≡ ok (value n s)
unfolding scan value
scan-value [] n h = refl
scan-value (c ∷ s) n h = ground (arith, h.0, scan-value s (n * 16 + digit_value c) h.1)

-- The first digit may stand behind nothing.
scan-nothing :
    (c : ℕ) (s : Chars) → AllOf is_hex (c ∷ s) → scan 16 nothing 0 (c ∷ s) ≡ ok (value 0 (c ∷ s))
unfolding scan value
scan-nothing c s h = ground (arith, h.0, scan-value s (digit_value c) h.1)

hex_literal-value :
    (c : ℕ) (s : Chars) → AllOf is_hex (c ∷ s) → hex_literal (c ∷ s) ≡ ok (value 0 (c ∷ s))
hex_literal-value c [] h = scan-nothing c [] h
hex_literal-value c (d ∷ s) h = ground (arith, h.1.0, scan-nothing c (d ∷ s) h)

int_of-value : (s : Chars) → s ≢ [] → AllOf is_hex s → int_of hex_literal s ≡ ok (pos (value 0 s))
int_of-value [] ne h = absurd (ne refl)
int_of-value (c ∷ s) ne h =
    let e = strip-AllOf (c ∷ s) (is_hex-is_visible (c ∷ s) h) in
    let l = hex_literal-value c s h in rw e (ground (arith, h.0, l))

number-ne_nil : (n : ℕ) → number 16 n ≢ []
unfolding value
number-ne_nil zero e = cc
number-ne_nil (suc n) e = omega (arith, value-number (suc n), ap (value 0) e)

hex-ne_nil : (w n : ℕ) → hex w n ≢ []
hex-ne_nil w n =
    append-ne_nil (replicate (w - length (number 16 n)) b'0') (number 16 n) (number-ne_nil n)

-- What is printed is a word, and is in one line.
pub hex-IsWord : (w n : ℕ) → IsWord (hex w n)
hex-IsWord w n = (hex-ne_nil w n, is_hex-is_visible (hex w n) (hex-is_hex w n))

-- A number of 0 and above is read back from what `%x` prints, padded to any width.
pub int_of-hex : (w n : ℕ) → int_of hex_literal (hex w n) ≡ ok (pos n)
int_of-hex w n =
    int_of-value (hex w n) (hex-ne_nil w n) (hex-is_hex w n) ∙ ap (λ k. ok (pos k)) (value-hex w n)
