-- ===== src/Prelude/Text.antt =====
-- Python's `str` as the native text: its length in characters, slices from the left, `strip` and
-- equality, which is a Boolean test.
use Prim.Native.Nat.{ℕ, zero, suc, ◌≤◌}
use Prim.Native.Char.{code}
use Prim.Native.String.{String}
use mathlib.Core.Path.{◌≡◌, refl, ap}
use mathlib.Core.Bool.{Bool, true, false, ◌&&◌, ◌||◌}
use mathlib.Core.Option.{Option, none, some}
use native.Mathlib.Omega.{arith}
use text.Mathlib.Text.{◌==◌ as str_eq}
use text.Mathlib.TextEquality.{eq_iff}
use pulse_crm.Prelude.Tests.{leb, ◌==◌, if◌then◌else◌}

-- SQL's `column = text` for a nullable column.
abbrev pub is_text : Option String → String → Bool
is_text none b = false
is_text (some a) b = str_eq a b

pub is_text→eq : (o : Option String) (s : String) → is_text o s ≡ true → o ≡ some s
is_text→eq none s h = cc
is_text→eq (some t) s h = ap some ((eq_iff t s).0 h)

pub is_text_refl : (s : String) → is_text (some s) s ≡ true
is_text_refl s = (eq_iff s s).1 refl

-- `len(text)`.
unfoldable pub text_length : String → ℕ
text_length String.[] = 0
text_length (String.◌∷◌ c s) = suc (text_length s)

-- `text[:n]`.
unfoldable pub text_take : ℕ → String → String
text_take zero s = ""
text_take (suc n) String.[] = ""
text_take (suc n) (String.◌∷◌ c s) = String.◌∷◌ c (text_take n s)

pub text_length-text_take_le : (n : ℕ) (s : String) → text_length (text_take n s) ≤ n
unfolding text_length text_take
text_length-text_take_le zero s = omega arith
text_length-text_take_le (suc n) String.[] = omega arith
text_length-text_take_le (suc n) (String.◌∷◌ c s) = omega (arith, text_length-text_take_le n s)

-- The code points that `str.strip` removes.
is_space_code : ℕ → Bool
is_space_code n =
    (leb 9 n && leb n 13)
    || (leb 28 n && leb n 32)
    || n == 133
    || n == 160
    || n == 5760
    || (leb 8192 n && leb n 8202)
    || n == 8232
    || n == 8233
    || n == 8239
    || n == 8287
    || n == 12288

is_empty : String → Bool
is_empty String.[] = true
is_empty (String.◌∷◌ c s) = false

left_strip : String → String
left_strip String.[] = ""
left_strip (String.◌∷◌ c s) =
    let rest = left_strip s in if is_space_code (code c) then rest else String.◌∷◌ c s

right_strip : String → String
right_strip String.[] = ""
right_strip (String.◌∷◌ c s) =
    let rest = right_strip s in
    if is_space_code (code c) && is_empty rest then "" else String.◌∷◌ c rest

-- `text.strip()`.
unfoldable pub strip : String → String
unfolding is_space_code is_empty left_strip right_strip
strip s = right_strip (left_strip s)

-- `not text`.
unfoldable pub is_blank : String → Bool
is_blank s = str_eq s ""

strip_example : strip " \t jobs.run  " ≡ "jobs.run"
unfolding strip
strip_example = refl
