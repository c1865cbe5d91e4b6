-- ===== src/Text/Words.antt =====
-- The words of a stripped line, and the lines of a file, behind what wrote them.
use mathlib.Core.List.{append-nil, append_assoc}
use axi_dma_engine.Base.{
  ℕ, ◌≡◌, ◌≢◌, refl, sym, ap, ◌∙◌, Bool, true, ◌&&◌, List, [], ◌∷◌, ◌++◌, map, arith,
}
use axi_dma_engine.Text.{
  Chars, keep, flush, lstrip, rstrip, strip, split_onto, split, lines_onto, lines_of, words,
  write_lines, AllOf, is_visible, in_line,
}

-- a word is not empty and has no space in it
abbrev pub IsWord : Chars → Type 0
IsWord w = (w ≢ []) × AllOf is_visible w

rstrip-AllOf : (s : Chars) → AllOf is_visible s → rstrip s ≡ s
unfolding rstrip
rstrip-AllOf [] h = refl
rstrip-AllOf (c ∷ []) h = ground (arith, h.0)
rstrip-AllOf (c ∷ d ∷ s) h = rw (rstrip-AllOf (d ∷ s) h.1) refl

keep_front : (c : ℕ) (s : Chars) → s ≢ [] → keep c s ≡ c ∷ s
keep_front c [] h = absurd (h refl)
keep_front c (d ∷ s) h = refl

pub append-ne_nil : (s t : Chars) → t ≢ [] → s ++ t ≢ []
append-ne_nil [] t h e = h e
append-ne_nil (c ∷ s) t h e = cc

rstrip-append : (s t : Chars) → rstrip t ≢ [] → rstrip (s ++ t) ≡ s ++ rstrip t
unfolding rstrip
rstrip-append [] t h = refl
rstrip-append (c ∷ s) t h =
    rw (rstrip-append s t h) (keep_front c (s ++ rstrip t) (append-ne_nil s (rstrip t) h))

-- A word at the end of a line is what the line's newline is stripped from.
rstrip-word : (w : Chars) → IsWord w → rstrip (w ++ b'\n' ∷ []) ≡ w
unfolding rstrip
rstrip-word [] h = absurd (h.0 refl)
rstrip-word (c ∷ []) h = ground (arith, h.1.0)
rstrip-word (c ∷ d ∷ w) h = rw (rstrip-word (d ∷ w) ((λ e. cc), h.1.1)) refl

pub strip-word : (w : Chars) → IsWord w → strip (w ++ b'\n' ∷ []) ≡ w
unfolding lstrip
strip-word [] h = absurd (h.0 refl)
strip-word (c ∷ w) h = rw (rstrip-word (c ∷ w) h) (ground (arith, h.1.0))

pub strip-AllOf : (w : Chars) → AllOf is_visible w → strip w ≡ w
unfolding lstrip rstrip
strip-AllOf [] h = refl
strip-AllOf (c ∷ w) h = rw (rstrip-AllOf (c ∷ w) h) (ground (arith, h.0))

-- Only the newline is stripped from a line that begins and ends with words.
strip-line :
    (c : ℕ) (s w : Chars)
    → is_visible c ≡ true
    → IsWord w
    → strip (c ∷ s ++ (w ++ b'\n' ∷ [])) ≡ c ∷ s ++ w
unfolding lstrip
strip-line c s w h k =
    let e = rstrip-word w k in
    rw (rstrip-append (c ∷ s) (w ++ b'\n' ∷ []) (λ z. k.0 (sym e ∙ z)), e) (ground (arith, h))

split_onto-append :
    (word w s : Chars) → AllOf is_visible w → split_onto word (w ++ s) ≡ split_onto (word ++ w) s
unfolding split_onto
split_onto-append word [] s h = rw append-nil refl
split_onto-append word (c ∷ w) s h =
    let ih = split_onto-append (word ++ c ∷ []) w s h.1 in
    ground (arith, h.0, ih, append_assoc word (c ∷ []) w)

flush_word : (w : Chars) (ws : List Chars) → w ≢ [] → flush w ws ≡ w ∷ ws
flush_word [] ws h = absurd (h refl)
flush_word (c ∷ w) ws h = refl

split_word : (w s : Chars) → IsWord w → split (w ++ b' ' ∷ s) ≡ w ∷ split s
unfolding split_onto
split_word w s h = split_onto-append [] w (b' ' ∷ s) h.1 ∙ flush_word w (split_onto [] s) h.0

split_last : (w : Chars) → IsWord w → split w ≡ w ∷ []
unfolding split_onto
split_last w h = ap split (sym (append-nil w)) ∙ split_onto-append [] w [] h.1 ∙ flush_word w [] h.0

split_three :
    (u v w : Chars)
    → IsWord u
    → IsWord v
    → IsWord w
    → split (u ++ b' ' ∷ (v ++ b' ' ∷ w)) ≡ u ∷ v ∷ w ∷ []
split_three u v w h k l = rw (split_word u (v ++ b' ' ∷ w) h, split_word v w k, split_last w l) refl

lines_onto-append :
    (line l s : Chars) → AllOf in_line l → lines_onto line (l ++ s) ≡ lines_onto (line ++ l) s
unfolding lines_onto
lines_onto-append line [] s h = rw append-nil refl
lines_onto-append line (c ∷ l) s h =
    let ih = lines_onto-append (line ++ c ∷ []) l s h.1 in
    ground (arith, h.0, ih, append_assoc line (c ∷ []) l)

pub lines_of-line :
    (l s : Chars) → AllOf in_line l → lines_of (l ++ b'\n' ∷ s) ≡ (l ++ b'\n' ∷ []) ∷ lines_of s
unfolding lines_onto
lines_of-line l s h = lines_onto-append [] l (b'\n' ∷ s) h

-- A file written line by line is read line by line.
pub lines_of-write_lines :
    {A : Type 0} (print : A → Chars) (xs : List A)
    → ((x : A) → AllOf in_line (print x))
    → lines_of (write_lines print xs) ≡ map (λ x. print x ++ b'\n' ∷ []) xs
unfolding lines_onto
lines_of-write_lines print [] h = refl
lines_of-write_lines print (x ∷ xs) h =
    lines_of-line (print x) (write_lines print xs) (h x)
    ∙ ap (◌∷◌ (print x ++ b'\n' ∷ [])) (lines_of-write_lines print xs h)

strip-words :
    (u v w : Chars) → IsWord u → IsWord w → strip (words u v w ++ b'\n' ∷ []) ≡ words u v w
strip-words [] v w h k = absurd (h.0 refl)
strip-words (c ∷ u) v w h k =
    let s = u ++ b' ' ∷ (v ++ b' ' ∷ []) in
    let out : words (c ∷ u) v w ++ b'\n' ∷ [] ≡ c ∷ s ++ (w ++ b'\n' ∷ []) = simp append_assoc in
    let back : c ∷ s ++ w ≡ words (c ∷ u) v w = simp append_assoc in
    ap strip out ∙ strip-line c s w h.1.0 k ∙ back

-- Three words of a line are read back from it.
pub split-strip-words :
    (u v w : Chars)
    → IsWord u
    → IsWord v
    → IsWord w
    → (strip (words u v w ++ b'\n' ∷ []) ≡ words u v w) × (split (words u v w) ≡ u ∷ v ∷ w ∷ [])
split-strip-words u v w h k l = (strip-words u v w h l, split_three u v w h k l)

pub AllOf-append : (p : ℕ → Bool) (s t : Chars) → AllOf p s → AllOf p t → AllOf p (s ++ t)
AllOf-append p [] t h k = k
AllOf-append p (c ∷ s) t h k = (h.0, AllOf-append p s t h.1 k)

pub is_visible-in_line : (s : Chars) → AllOf is_visible s → AllOf in_line s
is_visible-in_line [] h = tt
is_visible-in_line (c ∷ s) h = (ground (arith, h.0), is_visible-in_line s h.1)

pub words-in_line : (u v w : Chars) → IsWord u → IsWord v → IsWord w → AllOf in_line (words u v w)
words-in_line u v w h k l =
    AllOf-append in_line u (b' ' ∷ (v ++ b' ' ∷ w)) (is_visible-in_line u h.1) (
      refl,
      AllOf-append in_line v (b' ' ∷ w) (is_visible-in_line v k.1) (refl, is_visible-in_line w l.1),
    )

unfoldable pub all_of : (ℕ → Bool) → Chars → Bool
all_of p [] = true
all_of p (c ∷ s) = p c && all_of p s

pub all_of-AllOf : (p : ℕ → Bool) (s : Chars) → all_of p s ≡ true → AllOf p s
unfolding all_of
all_of-AllOf p [] h = tt
all_of-AllOf p (c ∷ s) h = ground (arith, h, all_of-AllOf p s)

keep_first : (c : ℕ) (s : Chars) → is_visible c ≡ true → (t : Chars) × (lstrip (keep c s) ≡ c ∷ t)
unfolding lstrip
keep_first c [] h = ([], ground (arith, h))
keep_first c (d ∷ s) h = (d ∷ s, ground (arith, h))

-- A line that begins with a character begins with it when it is stripped.
pub strip-first : (c : ℕ) (s : Chars) → is_visible c ≡ true → (t : Chars) × (strip (c ∷ s) ≡ c ∷ t)
unfolding rstrip
strip-first c s h = keep_first c (rstrip s) h
