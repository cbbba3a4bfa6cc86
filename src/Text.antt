-- ===== src/Text.antt =====
-- Python's `str.strip`, `str.isspace` and `str.lower` on the texts that the services look into.
use Prim.Native.Char.{Char, code}
use text.Mathlib.Text.{◌==◌ as str_eq}
use text.Mathlib.TextEquality.{eq_iff}
use society_agent.Prelude.{
  ℕ, zero, suc, ◌-◌, String, ◌≡◌, refl, ◌⊎◌, inl, inr, Bool-cases, arith, Bool, true, false, ◌&&◌,
  ◌||◌, List, [], ◌∷◌, leb, ◌==◌, if◌then◌else◌,
}

-- The code points that Python counts as white space.
is_space : ℕ → Bool
is_space c =
    (leb 9 c && leb c 13)
    || (leb 28 c && leb c 32)
    || c == 133
    || c == 160
    || c == 5760
    || (leb 8192 c && leb c 8202)
    || c == 8232
    || c == 8233
    || c == 8239
    || c == 8287
    || c == 12288

-- `not s.strip()`
unfoldable pub is_blank : String → Bool
unfolding is_space
is_blank String.[] = true
is_blank (String.◌∷◌ c s) = is_space (code c) && is_blank s

lstrip : String → String
unfolding is_space
lstrip String.[] = ""
lstrip (String.◌∷◌ c s) = if is_space (code c) then lstrip s else String.◌∷◌ c s

rstrip : String → String
unfolding is_space
rstrip String.[] = ""
rstrip (String.◌∷◌ c s) =
    let r = rstrip s in if str_eq r "" && is_space (code c) then "" else String.◌∷◌ c r

unfoldable pub strip : String → String
unfolding lstrip rstrip
strip s = rstrip (lstrip s)

letter : ℕ → String → Char → Char
letter n String.[] d = d
letter zero (String.◌∷◌ c s) d = c
letter (suc n) (String.◌∷◌ c s) d = letter n s d

lower_char : Char → Char
unfolding letter
lower_char c = if leb 65 (code c) then letter (code c - 65) "abcdefghijklmnopqrstuvwxyz" c else c

-- `str.lower` on ASCII letters; every other character is kept.
unfoldable pub lower : String → String
unfolding lower_char
lower String.[] = ""
lower (String.◌∷◌ c s) = String.◌∷◌ (lower_char c) (lower s)

upper_char : Char → Char
unfolding letter
upper_char c = if leb 97 (code c) then letter (code c - 97) "ABCDEFGHIJKLMNOPQRSTUVWXYZ" c else c

-- `str.upper` on ASCII letters; every other character is kept.
unfoldable pub upper : String → String
unfolding upper_char
upper String.[] = ""
upper (String.◌∷◌ c s) = String.◌∷◌ (upper_char c) (upper s)

-- `len(s)`
unfoldable pub text_length : String → ℕ
text_length String.[] = 0
text_length (String.◌∷◌ c s) = suc (text_length s)

-- `x in {…}` for a set of texts.
unfoldable pub contains : String → List String → Bool
contains x [] = false
contains x (y ∷ ys) = str_eq x y || contains x ys

lower-strip_test : lower (strip "  Chairman ") ≡ "chairman"
unfolding lower strip
lower-strip_test = refl

-- What is left of a text by `strip` is blank only when it is empty.
lstrip-cases : (s : String) → (is_blank (lstrip s) ≡ false) ⊎ (lstrip s ≡ "")
unfolding lstrip is_blank
lstrip-cases String.[] = inr refl
lstrip-cases (String.◌∷◌ c s) = elim (Bool-cases (is_space (code c))) [
  | inl space ↦ rw space (lstrip-cases s)
  | inr letter ↦ inl (ground (arith, letter))
]

is_empty : (s : String) → str_eq s "" ≡ true → s ≡ ""
is_empty s h = ground (arith, eq_iff s "")

rstrip-blank : (s : String) → is_blank s ≡ false → is_blank (rstrip s) ≡ false
unfolding rstrip is_blank
rstrip-blank String.[] h = cc
rstrip-blank (String.◌∷◌ c s) h = elim (Bool-cases (is_space (code c))) [
  | inr letter ↦ ground (arith, letter)
  | inl space ↦
      let inside = rstrip-blank s (ground (arith, h, space)) in
      elim (Bool-cases (str_eq (rstrip s) "")) [
        | inl empty ↦ absurd (ground (arith, rw (is_empty (rstrip s) empty) at inside))
        | inr more ↦ ground (arith, space, more, inside)
      ]
]

pub strip-blank : (s : String) → str_eq (strip s) "" ≡ false → is_blank (strip s) ≡ false
unfolding strip
strip-blank s h = elim (lstrip-cases s) [
  | inl text ↦ rstrip-blank (lstrip s) text
  | inr empty ↦ absurd (ground (arith, rw empty at h))
]
