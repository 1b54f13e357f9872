-- ===== src/Data/Symbols/Standard.antt =====
-- Codes that are in the standard form.
use qmt_trading.Base.{
  ℕ, ◌≡◌, refl, ap, ◌∙◌, arith, Bool, true, false, ◌&&◌, ==_iff, [], ◌∷◌, inl, inr, Bool-cases,
}
use qmt_trading.Text.{
  Text, codes, strip, lstrip, is_space, is_digit, all_digits, upper, text_eq, one_of,
}
use qmt_trading.Text.Order.{text_eq→eq}
use qmt_trading.Text.Symbol.{is_symbol}
use qmt_trading.Float.{Float}
use qmt_trading.Value.{text, text_or}
use qmt_trading.Data.Fields.{str_or}
use qmt_trading.Data.Symbols.{symbol_of, normalize_symbol}

data Market : Type 0 where
  sh sz bj : Market

abbrev word : Market → Text
word sh = codes "SH"
word sz = codes "SZ"
word bj = codes "BJ"

-- A standard code, cell by cell.
data IsCode : Text → Type 0 where
  code :
      (a b c d e f : ℕ) (m : Market)
      → all_digits (a ∷ b ∷ c ∷ d ∷ e ∷ f ∷ []) ≡ true
      → IsCode (a ∷ b ∷ c ∷ d ∷ e ∷ f ∷ b'.' ∷ word m)

to_market :
    (t : Text)
    → one_of t (codes "SH" ∷ codes "SZ" ∷ codes "BJ" ∷ []) ≡ true
    → (m : Market) × (t ≡ word m)
to_market t h = elim (Bool-cases (text_eq t (codes "SH"))) [
  | inl e ↦ (sh, text_eq→eq t (word sh) e)
  | inr e ↦ elim (Bool-cases (text_eq t (codes "SZ"))) [
    | inl e' ↦ (sz, text_eq→eq t (word sz) e')
    | inr e' ↦ elim (Bool-cases (text_eq t (codes "BJ"))) [
      | inl e'' ↦ (bj, text_eq→eq t (word bj) e'')
      | inr e'' ↦ absurd (ground (arith, rw (e, e', e'') at h))
    ]
  ]
]

and_four :
    (a b c d : Bool) → (a && b && c && d) ≡ true → (a ≡ true) × (b ≡ true) × (c ≡ true) × (d ≡ true)
and_four a b c d h = ground arith

to_code : (t : Text) → is_symbol t ≡ true → IsCode t
unfolding is_symbol
to_code [] h = absurd (ground arith)
to_code (a ∷ []) h = absurd (ground arith)
to_code (a ∷ b ∷ []) h = absurd (ground arith)
to_code (a ∷ b ∷ c ∷ []) h = absurd (ground arith)
to_code (a ∷ b ∷ c ∷ d ∷ []) h = absurd (ground arith)
to_code (a ∷ b ∷ c ∷ d ∷ e ∷ []) h = absurd (ground arith)
to_code (a ∷ b ∷ c ∷ d ∷ e ∷ f ∷ []) h = absurd (ground arith)
to_code (a ∷ b ∷ c ∷ d ∷ e ∷ f ∷ g ∷ t) h =
    let (short, dot, digits, market) = and_four _ _ _ _ h in
    let (m, same) = to_market t market in
    rw ((==_iff g b'.').0 dot, same) (code a b c d e f m digits)

not_space : (c : ℕ) → is_digit c ≡ true → is_space c ≡ false
unfolding is_digit is_space
not_space c h = ground arith

upper_digit : (c : ℕ) (t : Text) → is_digit c ≡ true → upper (c ∷ t) ≡ c ∷ upper t
unfolding is_digit upper
upper_digit c t h = ground arith

upper_rest : (m : Market) → upper (b'.' ∷ word m) ≡ b'.' ∷ word m
unfolding upper
upper_rest sh = refl
upper_rest sz = refl
upper_rest bj = refl

upper_digits :
    (a b c d e f : ℕ) (t : Text)
    → all_digits (a ∷ b ∷ c ∷ d ∷ e ∷ f ∷ []) ≡ true
    → upper t ≡ t
    → upper (a ∷ b ∷ c ∷ d ∷ e ∷ f ∷ t) ≡ a ∷ b ∷ c ∷ d ∷ e ∷ f ∷ t
unfolding all_digits
upper_digits a b c d e f t h k =
    rw
      (
        upper_digit a (b ∷ c ∷ d ∷ e ∷ f ∷ t) (ground arith),
        upper_digit b (c ∷ d ∷ e ∷ f ∷ t) (ground arith),
        upper_digit c (d ∷ e ∷ f ∷ t) (ground arith),
        upper_digit d (e ∷ f ∷ t) (ground arith),
        upper_digit e (f ∷ t) (ground arith),
        upper_digit f t (ground arith),
        k,
      )
      refl

lstrip-cons : (c : ℕ) (t : Text) → is_space c ≡ false → lstrip (c ∷ t) ≡ c ∷ t
unfolding lstrip
lstrip-cons c t h = rw h refl

strip_code :
    (a b c d e f : ℕ) (m : Market)
    → is_digit a ≡ true
    → strip (a ∷ b ∷ c ∷ d ∷ e ∷ f ∷ b'.' ∷ word m) ≡ a ∷ b ∷ c ∷ d ∷ e ∷ f ∷ b'.' ∷ word m
unfolding strip is_space
strip_code a b c d e f sh h = rw (lstrip-cons a _ (not_space a h), lstrip-cons b'H' _ refl) refl
strip_code a b c d e f sz h = rw (lstrip-cons a _ (not_space a h), lstrip-cons b'Z' _ refl) refl
strip_code a b c d e f bj h = rw (lstrip-cons a _ (not_space a h), lstrip-cons b'J' _ refl) refl

upper_code :
    (a b c d e f : ℕ) (m : Market)
    → all_digits (a ∷ b ∷ c ∷ d ∷ e ∷ f ∷ []) ≡ true
    → upper (a ∷ b ∷ c ∷ d ∷ e ∷ f ∷ b'.' ∷ word m) ≡ a ∷ b ∷ c ∷ d ∷ e ∷ f ∷ b'.' ∷ word m
upper_code a b c d e f m h = upper_digits a b c d e f (b'.' ∷ word m) h (upper_rest m)

clean_code : (t : Text) → IsCode t → upper (strip t) ≡ t
unfolding all_digits
clean_code t (code a b c d e f m h) =
    ap upper (strip_code a b c d e f m (ground arith)) ∙ upper_code a b c d e f m h

symbol_of-symbol : (t : Text) → is_symbol t ≡ true → symbol_of t ≡ t
unfolding symbol_of
symbol_of-symbol [] h = refl
symbol_of-symbol (c ∷ t) h = rw h refl

str_or-text : (R : Type 0) ⦃F : Float R⦄ (t : Text) → str_or {R = R} (text t) [] ≡ t
unfolding str_or text_or
str_or-text R [] = refl
str_or-text R (c ∷ t) = refl

-- A code in the standard form is kept as it is, so that rows of QMT and of the tables meet under one
-- code.
pub normalize_symbol-standard :
    (R : Type 0) ⦃F : Float R⦄ (t : Text)
    → is_symbol t ≡ true
    → normalize_symbol {R = R} (text t) ≡ t
unfolding normalize_symbol
normalize_symbol-standard R t h =
    ap (λ s. symbol_of (upper (strip s))) (str_or-text R t)
    ∙ ap symbol_of (clean_code t (to_code t h))
    ∙ symbol_of-symbol t h
