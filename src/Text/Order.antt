-- ===== src/Text/Order.antt =====
-- The order and the equality of texts: a strict total order, and its equality test.
use qmt_trading.Base.{◌≡◌, refl, inl, inr, ◌↔◌, true, false, [], ◌∷◌, arith, Bool-cases}
use qmt_trading.Text.{Text, text_eq, text_lt}

pub text_eq→eq : (s t : Text) → text_eq s t ≡ true → s ≡ t
unfolding text_eq
text_eq→eq [] [] h = refl
text_eq→eq [] (b ∷ t) h = cc
text_eq→eq (a ∷ s) [] h = cc
text_eq→eq (a ∷ s) (b ∷ t) h = ground (arith, text_eq→eq s t)

pub text_eq_refl : (s : Text) → text_eq s s ≡ true
unfolding text_eq
text_eq_refl [] = refl
text_eq_refl (a ∷ s) = ground (arith, text_eq_refl s)

pub text_eq_iff : (s t : Text) → (text_eq s t ≡ true) ↔ (s ≡ t)
text_eq_iff s t = (text_eq→eq s t, λ e. rw e (text_eq_refl t))

pub text_lt_irrefl : (s : Text) → text_lt s s ≡ false
unfolding text_lt
text_lt_irrefl [] = refl
text_lt_irrefl (a ∷ s) = ground (arith, text_lt_irrefl s)

pub text_lt_trans : (s t u : Text) → text_lt s t ≡ true → text_lt t u ≡ true → text_lt s u ≡ true
unfolding text_lt
text_lt_trans [] t [] p q = elim (Bool-cases (text_lt t [])) [
  | inl e ↦ absurd_head t q
  | inr e ↦ cc
]
  where
    absurd_head : (t : Text) → text_lt t [] ≡ true → false ≡ true
    absurd_head [] q = q
    absurd_head (b ∷ t) q = q
text_lt_trans [] t (c ∷ u) p q = refl
text_lt_trans (a ∷ s) [] u p q = cc
text_lt_trans (a ∷ s) (b ∷ t) [] p q = cc
text_lt_trans (a ∷ s) (b ∷ t) (c ∷ u) p q = ground (arith, text_lt_trans s t u)

pub text_lt_asymm : (s t : Text) → text_lt s t ≡ true → text_lt t s ≡ false
unfolding text_lt
text_lt_asymm [] [] p = refl
text_lt_asymm [] (b ∷ t) p = refl
text_lt_asymm (a ∷ s) [] p = cc
text_lt_asymm (a ∷ s) (b ∷ t) p = ground (arith, text_lt_asymm s t)

-- Two texts neither of which is smaller are the same.
pub eq_of_not_text_lt : (s t : Text) → text_lt s t ≡ false → text_lt t s ≡ false → s ≡ t
unfolding text_lt
eq_of_not_text_lt [] [] p q = refl
eq_of_not_text_lt [] (b ∷ t) p q = cc
eq_of_not_text_lt (a ∷ s) [] p q = cc
eq_of_not_text_lt (a ∷ s) (b ∷ t) p q = ground (arith, eq_of_not_text_lt s t)

-- `s <= t` and `t <= u` give `s <= u`.
pub text_le_trans : (s t u : Text) → text_lt t s ≡ false → text_lt u t ≡ false → text_lt u s ≡ false
unfolding text_lt
text_le_trans [] [] u p q = q
text_le_trans [] (b ∷ t) [] p q = refl
text_le_trans [] (b ∷ t) (c ∷ u) p q = refl
text_le_trans (a ∷ s) [] u p q = cc
text_le_trans (a ∷ s) (b ∷ t) [] p q = cc
text_le_trans (a ∷ s) (b ∷ t) (c ∷ u) p q = ground (arith, text_le_trans s t u)
