-- ===== src/Text.antt =====
-- Python texts: lists of code points, compared as `str` compares them. Dates and times are such
-- texts in the source ("2026-05-08", "2026-05-08 10:15:00") and are ordered by `<` on `str`.
-- `strip` and `upper` cover ASCII.
pub mod Order
pub mod Symbol
use Prim.Native.Char.{code}
use Prim.Native.String.{String}
use qmt_trading.Base.{
  ℕ, zero, suc, ◌+◌, ◌-◌, Bool, true, false, not, ◌&&◌, ◌||◌, List, [], ◌∷◌, ◌++◌, ltb, leb, ◌==◌,
  if◌then◌else◌, take, any_of,
}
use mathlib.Core.List.{reverse}

abbrev pub Text : Type 0
Text = List ℕ

abbrev pub codes : String → Text
codes String.[] = []
codes (String.◌∷◌ c s) = code c ∷ codes s

unfoldable pub text_eq : Text → Text → Bool
text_eq [] [] = true
text_eq [] (b ∷ t) = false
text_eq (a ∷ s) [] = false
text_eq (a ∷ s) (b ∷ t) = a == b && text_eq s t

unfoldable pub text_lt : Text → Text → Bool
text_lt [] [] = false
text_lt [] (b ∷ t) = true
text_lt (a ∷ s) [] = false
text_lt (a ∷ s) (b ∷ t) = if a == b then text_lt s t else ltb a b

-- `s <= t`
abbrev pub text_le : Text → Text → Bool
text_le s t = not (text_lt t s)

-- `s[:n]`
abbrev pub prefix : ℕ → Text → Text
prefix = take

abbrev pub is_empty : Text → Bool
is_empty [] = true
is_empty (c ∷ s) = false

-- `a or b` on texts.
abbrev pub or_text : Text → Text → Text
or_text s t = if is_empty s then t else s

unfoldable pub starts_with : Text → Text → Bool
starts_with [] s = true
starts_with (a ∷ p) [] = false
starts_with (a ∷ p) (b ∷ s) = a == b && starts_with p s

-- `p in s`
unfoldable pub contains : Text → Text → Bool
unfolding starts_with
contains p [] = is_empty p
contains p (b ∷ s) = starts_with p (b ∷ s) || contains p s

abbrev pub one_of : Text → List Text → Bool
one_of s = any_of (λ t. text_eq s t)

-- The zeros of the decimal digits above ASCII (Unicode 14, category Nd).
abbrev digit_zeros : List ℕ
digit_zeros =
    1632 ∷ 1776 ∷ 1984 ∷ 2406 ∷ 2534 ∷ 2662 ∷ 2790 ∷ 2918 ∷ 3046 ∷ 3174 ∷ 3302 ∷ 3430 ∷ 3558 ∷ 3664
    ∷ 3792 ∷ 3872 ∷ 4160 ∷ 4240 ∷ 6112 ∷ 6160 ∷ 6470 ∷ 6608 ∷ 6784 ∷ 6800 ∷ 6992 ∷ 7088 ∷ 7232
    ∷ 7248 ∷ 42528 ∷ 43216 ∷ 43264 ∷ 43472 ∷ 43504 ∷ 43600 ∷ 44016 ∷ 65296 ∷ 66720 ∷ 68912 ∷ 69734
    ∷ 69872 ∷ 69942 ∷ 70096 ∷ 70384 ∷ 70736 ∷ 70864 ∷ 71248 ∷ 71360 ∷ 71472 ∷ 71904 ∷ 72016 ∷ 72784
    ∷ 73040 ∷ 73120 ∷ 92768 ∷ 92864 ∷ 93008 ∷ 120782 ∷ 120792 ∷ 120802 ∷ 120812 ∷ 120822 ∷ 123200
    ∷ 123632 ∷ 125264 ∷ 130032 ∷ []

-- One of the ten digits that start at one of the zeros.
unfoldable pub in_digit_block : ℕ → Bool
in_digit_block c = any_of (λ zero_digit. leb zero_digit c && leb c (zero_digit + 9)) digit_zeros

-- `\d` of a regular expression on `str`.
unfoldable pub is_digit : ℕ → Bool
is_digit c = leb b'0' c && leb c b'9' || leb 1632 c && in_digit_block c

-- The characters that `str.isdigit` takes besides these, such as ² and ①, by their ranges.
abbrev other_digits : List (ℕ × ℕ)
other_digits =
    (178, 179)
    ∷ (185, 185)
    ∷ (4969, 4977)
    ∷ (6618, 6618)
    ∷ (8304, 8304)
    ∷ (8308, 8313)
    ∷ (8320, 8329)
    ∷ (9312, 9320)
    ∷ (9332, 9340)
    ∷ (9352, 9360)
    ∷ (9450, 9450)
    ∷ (9461, 9469)
    ∷ (9471, 9471)
    ∷ (10102, 10110)
    ∷ (10112, 10120)
    ∷ (10122, 10130)
    ∷ (68160, 68163)
    ∷ (69216, 69224)
    ∷ (69714, 69722)
    ∷ (127232, 127242)
    ∷ []

unfoldable pub in_other_digits : ℕ → Bool
in_other_digits c = any_of (λ range. leb range.0 c && leb c range.1) other_digits

-- `str.isdigit` on one character.
unfoldable pub is_digit_char : ℕ → Bool
unfolding is_digit
is_digit_char c = is_digit c || leb 178 c && in_other_digits c

unfoldable pub is_space : ℕ → Bool
is_space c = leb 9 c && leb c 13 || leb 28 c && leb c 32

unfoldable pub all_digits : Text → Bool
unfolding is_digit
all_digits [] = true
all_digits (c ∷ s) = is_digit c && all_digits s

-- `str.isdigit` on a text that is not empty.
unfoldable pub all_digit_chars : Text → Bool
unfolding is_digit_char
all_digit_chars [] = true
all_digit_chars (c ∷ s) = is_digit_char c && all_digit_chars s

unfoldable pub lstrip : Text → Text
unfolding is_space
lstrip [] = []
lstrip (c ∷ s) = if is_space c then lstrip s else c ∷ s

unfoldable pub strip : Text → Text
unfolding lstrip
strip s = reverse (lstrip (reverse (lstrip s)))

unfoldable pub upper : Text → Text
upper [] = []
upper (c ∷ s) = (if leb b'a' c && leb c b'z' then c - 32 else c) ∷ upper s

unfoldable pub lower : Text → Text
lower [] = []
lower (c ∷ s) = (if leb b'A' c && leb c b'Z' then c + 32 else c) ∷ lower s
