-- ===== src/Common/Text.antt =====
-- Python's `str.strip`, `str.lower`, `in` and `replace` on texts whose letters and blanks are ASCII.
use Prim.Native.Nat.{ℕ, ◌+◌, ◌<◌, Ordering, compare}
use Prim.Native.Char.{Char, char, code, nul, IsScalar}
use Prim.Native.String.{String, ◌++◌}
use text.Mathlib.Text.{find?}
use mathlib.Core.Path.{◌≡◌, refl, ap, ap₂, ◌∙◌}
use mathlib.Core.Logic.{inl, inr}
use mathlib.Core.Bool.{Bool, false, ◌&&◌, ◌||◌}
use native.Mathlib.Omega.{arith}
use marketing_agentic_system.Common.Tests.{if◌then◌else◌, leb, ◌==◌, is_some, Bool-cases}

unfoldable pub below_surrogates : (n : ℕ) → compare n 55296 ≡ Ordering.lt → IsScalar n
below_surrogates n h = rw h tt

unfoldable pub char_of : (n : ℕ) (o : Ordering) → compare n 55296 ≡ o → Char
unfolding below_surrogates
char_of n Ordering.lt h = char n (below_surrogates n h)
char_of n Ordering.eq h = nul
char_of n Ordering.gt h = nul

-- The character of a code, for codes below the surrogates.
unfoldable pub of_code : ℕ → Char
unfolding char_of
of_code n = char_of n (compare n 55296) refl

char_of-code :
    (n : ℕ) (o : Ordering) (h : compare n 55296 ≡ o) → o ≡ Ordering.lt → code (char_of n o h) ≡ n
unfolding char_of
char_of-code n Ordering.lt h e = refl
char_of-code n Ordering.eq h e = cc
char_of-code n Ordering.gt h e = cc

code-of_code : (n : ℕ) → n < 55296 → code (of_code n) ≡ n
unfolding of_code
code-of_code n h = char_of-code n (compare n 55296) refl (ground arith)

unfoldable pub is_blank : Char → Bool
is_blank c = (leb 9 (code c) && leb (code c) 13) || (leb 28 (code c) && leb (code c) 32)

unfoldable pub is_upper : Char → Bool
is_upper c = leb 65 (code c) && leb (code c) 90

unfoldable pub lower_char : Char → Char
unfolding is_upper
lower_char c = if is_upper c then of_code (code c + 32) else c

unfoldable pub lower : String → String
lower String.[] = String.[]
lower (String.◌∷◌ c s) = String.◌∷◌ (lower_char c) (lower s)

unfoldable pub lstrip : String → String
lstrip String.[] = String.[]
lstrip (String.◌∷◌ c s) = if is_blank c then lstrip s else String.◌∷◌ c s

unfoldable pub before_stripped : Char → String → String
before_stripped c String.[] = if is_blank c then String.[] else String.◌∷◌ c String.[]
before_stripped c (String.◌∷◌ d s) = String.◌∷◌ c (String.◌∷◌ d s)

unfoldable pub rstrip : String → String
rstrip String.[] = String.[]
rstrip (String.◌∷◌ c s) = before_stripped c (rstrip s)

unfoldable pub strip : String → String
strip s = rstrip (lstrip s)

-- text.strip().lower()
unfoldable pub clean : String → String
clean s = lower (strip s)

-- `part in text`
unfoldable pub contains : String → String → Bool
contains text part = is_some (find? text part)

-- text.replace("\n", line_break)
unfoldable pub replace_newline : String → String → String
replace_newline line_break String.[] = String.[]
replace_newline line_break (String.◌∷◌ c s) =
    (if code c == 10 then line_break else String.◌∷◌ c String.[]) ++ replace_newline line_break s

lower_char_idem : (c : Char) → lower_char (lower_char c) ≡ lower_char c
unfolding lower_char is_upper
lower_char_idem c = elim (Bool-cases (is_upper c)) [
  | inl t ↦
      let e = code-of_code (code c + 32) (ground arith) in
      let f : is_upper (of_code (code c + 32)) ≡ false = ground arith in rw (t, f) refl
  | inr f ↦ rw (f, f) refl
]

lower_char-is_blank : (c : Char) → is_blank (lower_char c) ≡ is_blank c
unfolding lower_char is_upper is_blank
lower_char-is_blank c = elim (Bool-cases (is_upper c)) [
  | inl t ↦ let e = code-of_code (code c + 32) (ground arith) in ground arith
  | inr f ↦ rw f refl
]

pub lower_idem : (s : String) → lower (lower s) ≡ lower s
unfolding lower
lower_idem String.[] = refl
lower_idem (String.◌∷◌ c s) = ap₂ String.◌∷◌ (lower_char_idem c) (lower_idem s)

abbrev begins_blank : String → Bool
begins_blank String.[] = false
begins_blank (String.◌∷◌ c s) = is_blank c

lstrip-begins_blank : (s : String) → begins_blank (lstrip s) ≡ false
unfolding lstrip
lstrip-begins_blank String.[] = refl
lstrip-begins_blank (String.◌∷◌ c s) = elim (Bool-cases (is_blank c)) [
  | inl t ↦ rw t (lstrip-begins_blank s)
  | inr f ↦ rw f f
]

lstrip_same : (s : String) → begins_blank s ≡ false → lstrip s ≡ s
unfolding lstrip
lstrip_same String.[] h = refl
lstrip_same (String.◌∷◌ c s) h = rw h refl

before_stripped-begins_blank :
    (c : Char) (s : String) → is_blank c ≡ false → begins_blank (before_stripped c s) ≡ false
unfolding before_stripped
before_stripped-begins_blank c String.[] h = rw h h
before_stripped-begins_blank c (String.◌∷◌ d s) h = h

rstrip-begins_blank : (s : String) → begins_blank s ≡ false → begins_blank (rstrip s) ≡ false
unfolding rstrip
rstrip-begins_blank String.[] h = refl
rstrip-begins_blank (String.◌∷◌ c s) h = before_stripped-begins_blank c (rstrip s) h

rstrip-before_stripped :
    (c : Char) (s : String) → rstrip s ≡ s → rstrip (before_stripped c s) ≡ before_stripped c s
unfolding rstrip before_stripped
rstrip-before_stripped c String.[] h = elim (Bool-cases (is_blank c)) [
  | inl t ↦ rw t refl
  | inr f ↦ rw (f, f) refl
]
rstrip-before_stripped c (String.◌∷◌ d s) h = ap (before_stripped c) h

rstrip_idem : (s : String) → rstrip (rstrip s) ≡ rstrip s
unfolding rstrip
rstrip_idem String.[] = refl
rstrip_idem (String.◌∷◌ c s) = rstrip-before_stripped c (rstrip s) (rstrip_idem s)

strip_idem : (s : String) → strip (strip s) ≡ strip s
unfolding strip
strip_idem s =
    ap rstrip (lstrip_same (rstrip (lstrip s)) (rstrip-begins_blank _ (lstrip-begins_blank s)))
    ∙ rstrip_idem (lstrip s)

lstrip-lower : (s : String) → lstrip (lower s) ≡ lower (lstrip s)
unfolding lstrip lower
lstrip-lower String.[] = refl
lstrip-lower (String.◌∷◌ c s) = elim (Bool-cases (is_blank c)) [
  | inl t ↦ rw (t, lower_char-is_blank c, t) (lstrip-lower s)
  | inr f ↦ rw (f, lower_char-is_blank c, f) refl
]

before_stripped-lower :
    (c : Char) (s : String) → before_stripped (lower_char c) (lower s) ≡ lower (before_stripped c s)
unfolding before_stripped lower
before_stripped-lower c String.[] = elim (Bool-cases (is_blank c)) [
  | inl t ↦ rw (lower_char-is_blank c, t) refl
  | inr f ↦ rw (lower_char-is_blank c, f) refl
]
before_stripped-lower c (String.◌∷◌ d s) = refl

rstrip-lower : (s : String) → rstrip (lower s) ≡ lower (rstrip s)
unfolding rstrip lower
rstrip-lower String.[] = refl
rstrip-lower (String.◌∷◌ c s) =
    ap (before_stripped (lower_char c)) (rstrip-lower s) ∙ before_stripped-lower c (rstrip s)

strip-lower : (s : String) → strip (lower s) ≡ lower (strip s)
unfolding strip
strip-lower s = ap rstrip (lstrip-lower s) ∙ rstrip-lower (lstrip s)

pub lower-clean : (s : String) → lower (clean s) ≡ clean s
unfolding clean
lower-clean s = lower_idem (strip s)

pub clean_idem : (s : String) → clean (clean s) ≡ clean s
unfolding clean
clean_idem s =
    ap lower (strip-lower (strip s)) ∙ lower_idem (strip (strip s)) ∙ ap lower (strip_idem s)
