-- ===== src/Backtest/Context/Dates.antt =====
-- The last of a sorted set of dates, and the order of texts cut to a prefix.
use qmt_trading.Base.{
  All-last, ℕ, zero, suc, ◌≡◌, refl, inl, inr, true, false, none, some, List, [], ◌∷◌, All, last?,
  Bool-cases, arith,
}
use qmt_trading.Text.{Text, text_lt, text_le, text_eq, prefix}
use qmt_trading.Text.Order.{
  text_eq→eq, text_eq_iff, text_lt_irrefl, text_lt_trans, text_lt_asymm, text_le_trans,
  eq_of_not_text_lt,
}
use qmt_trading.Backtest.Exits.Rows.{insert_unique, sorted_set}

abbrev pub IsIncreasing : List Text → Type 0
IsIncreasing [] = Unit
IsIncreasing (d ∷ ds) = All (λ e. text_lt d e ≡ true) ds × IsIncreasing ds

All-insert_unique :
    (P : Text → Type 0) (d : Text) (es : List Text) → P d → All P es → All P (insert_unique d es)
unfolding insert_unique
All-insert_unique P d [] p h = (p, tt)
All-insert_unique P d (e ∷ es) p h = elim (Bool-cases (text_lt d e)) [
  | inl k ↦ rw k (p, h)
  | inr k ↦ elim (Bool-cases (text_eq d e)) [
    | inl k' ↦ rw (k, k') h
    | inr k' ↦ rw (k, k') (h.0, All-insert_unique P d es p h.1)
  ]
]

insert_unique-All :
    (P : Text → Type 0) (d : Text) (es : List Text) → All P (insert_unique d es) → P d × All P es
unfolding insert_unique
insert_unique-All P d [] h = h
insert_unique-All P d (e ∷ es) h = elim (Bool-cases (text_lt d e)) [
  | inl k ↦ rw k at h
  | inr k ↦ elim (Bool-cases (text_eq d e)) [
    | inl k' ↦ let h' : All P (e ∷ es) = rw (k, k') at h in (rw (text_eq→eq d e k') h'.0, h')
    | inr k' ↦
        let h' : P e × All P (insert_unique d es) = rw (k, k') at h in
        let (p, rest) = insert_unique-All P d es h'.1 in (p, (h'.0, rest))
  ]
]

All-later :
    (d e : Text) (es : List Text)
    → text_lt d e ≡ true
    → All (λ x. text_lt e x ≡ true) es
    → All (λ x. text_lt d x ≡ true) es
All-later d e [] k h = tt
All-later d e (x ∷ es) k h = (text_lt_trans d e x k h.0, All-later d e es k h.1)

insert_unique-IsIncreasing :
    (d : Text) (es : List Text) → IsIncreasing es → IsIncreasing (insert_unique d es)
unfolding insert_unique
insert_unique-IsIncreasing d [] h = (tt, tt)
insert_unique-IsIncreasing d (e ∷ es) h = elim (Bool-cases (text_lt d e)) [
  | inl k ↦ rw k ((k, All-later d e es k h.0), h)
  | inr k ↦ elim (Bool-cases (text_eq d e)) [
    | inl k' ↦ rw (k, k') h
    | inr k' ↦
        rw (k, k')
          (
            All-insert_unique (λ x. text_lt e x ≡ true) d es (above d e k k') h.0,
            insert_unique-IsIncreasing d es h.1,
          )
  ]
]
  where
    above : (d e : Text) → text_lt d e ≡ false → text_eq d e ≡ false → text_lt e d ≡ true
    above d e k k' = elim (Bool-cases (text_lt e d)) [
      | inl m ↦ m
      | inr m ↦ let same = eq_of_not_text_lt d e k m in absurd (ground (arith, text_eq_iff d e))
    ]

pub sorted_set-IsIncreasing : (ds : List Text) → IsIncreasing (sorted_set ds)
unfolding sorted_set
sorted_set-IsIncreasing [] = tt
sorted_set-IsIncreasing (d ∷ ds) =
    insert_unique-IsIncreasing d (sorted_set ds) (sorted_set-IsIncreasing ds)

-- None is after the last.
last-top :
    (xs : List Text) (m : Text)
    → IsIncreasing xs
    → last? xs ≡ some m
    → All (λ x. text_lt m x ≡ false) xs
last-top [] m h e = tt
last-top (x ∷ []) m h e = let same : x ≡ m = ground arith in (rw same (text_lt_irrefl m), tt)
last-top (x ∷ y ∷ ys) m h e =
    let rest = last-top (y ∷ ys) m h.1 e in
    (text_le_trans x y m (text_lt_asymm x y h.0.0) rest.0, rest)

sorted_set-All : (P : Text → Type 0) (ds : List Text) → All P (sorted_set ds) → All P ds
unfolding sorted_set
sorted_set-All P [] h = tt
sorted_set-All P (d ∷ ds) h =
    let (p, rest) = insert_unique-All P d (sorted_set ds) h in (p, sorted_set-All P ds rest)

All-sorted_set : (P : Text → Type 0) (ds : List Text) → All P ds → All P (sorted_set ds)
unfolding sorted_set
All-sorted_set P [] h = tt
All-sorted_set P (d ∷ ds) h = All-insert_unique P d (sorted_set ds) h.0 (All-sorted_set P ds h.1)

-- The last of a sorted set is one of its dates, and none of them is after it.
pub last-sorted_set :
    (P : Text → Type 0) (ds : List Text) (m : Text)
    → last? (sorted_set ds) ≡ some m
    → All P ds
    → P m × All (λ d. text_lt m d ≡ false) ds
last-sorted_set P ds m e h = (
  All-last P (sorted_set ds) m e (All-sorted_set P ds h),
  sorted_set-All _ ds (last-top (sorted_set ds) m (sorted_set-IsIncreasing ds) e),
)

last-none : (xs : List Text) → last? xs ≡ none → xs ≡ []
last-none [] e = refl
last-none (x ∷ []) e = absurd (ground arith)
last-none (x ∷ y ∷ ys) e = let rest = last-none (y ∷ ys) e in absurd (ground arith)

-- A sorted set without a last has no date.
pub sorted_set-none : (P : Text → Type 0) (ds : List Text) → last? (sorted_set ds) ≡ none → All P ds
sorted_set-none P ds e = sorted_set-All P ds (rw (last-none (sorted_set ds) e) tt)

prefix-lt : (n : ℕ) (s t : Text) → text_lt s t ≡ false → text_lt (prefix n s) (prefix n t) ≡ false
unfolding text_lt
prefix-lt zero s t h = refl
prefix-lt (suc n) [] [] h = refl
prefix-lt (suc n) [] (b ∷ t) h = h
prefix-lt (suc n) (a ∷ s) [] h = refl
prefix-lt (suc n) (a ∷ s) (b ∷ t) h = ground (arith, prefix-lt n s t)

-- A text between two with the same prefix has it too.
pub prefix-between :
    (n : ℕ) (s t u : Text)
    → text_le s t ≡ true
    → text_le t u ≡ true
    → prefix n s ≡ prefix n u
    → prefix n t ≡ prefix n s
prefix-between n s t u p q same =
    let low = prefix-lt n t s (ground arith) in
    let high = prefix-lt n u t (ground arith) in
    eq_of_not_text_lt (prefix n t) (prefix n s) low (rw same high)
