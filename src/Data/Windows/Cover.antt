-- ===== src/Data/Windows/Cover.antt =====
-- How the windows divide the days.
use qmt_trading.Base.{
  ℕ, ◌+◌, ◌≤◌, ◌≡◌, refl, ap, ◌∙◌, false, some, List, [], ◌∷◌, ◌++◌, map, All, All-append, inl, inr,
  Bool-cases, arith, length, length-append, leb,
}
use qmt_trading.Base.Int.{ℤ, pos, ltb_ℤ}
use qmt_trading.Text.{Text}
use qmt_trading.Data.Fields.{ok, ◌>>=◌}
use qmt_trading.Data.Requests.{clamp}
use qmt_trading.Data.Windows.{
  last_of, is_full, windows_from, minute_date_windows, or_days, windows_of,
}

-- The days of a window: the first, and the others.
abbrev pub Group : Type 0
Group = Text × List Text

abbrev pub ends : Group → Text × Text
ends (first, more) = (first, last_of first more)

abbrev pub joined : List Group → List Text
joined [] = []
joined ((first, more) ∷ groups) = first ∷ (more ++ joined groups)

-- At most so many days, none of them more than seven days after the first.
abbrev pub IsWindow : (Text → Text → ℤ) → ℕ → Group → Type 0
IsWindow between window_size (first, more) =
    (length more + 1 ≤ window_size) × All (λ d. ltb_ℤ (pos 7) (between first d) ≡ false) more

-- A division of the days that the loop has still to place, and of its current window.
abbrev Divided : (Text → Text → ℤ) → ℕ → List Text → Text → List Text → Type 0
Divided between window_size days first more =
    (groups : List Group) × (windows_from (λ a b. some (between a b)) window_size days first more
      ≡ ok (map ends groups))
    × (joined groups ≡ first ∷ (more ++ days))
    × All (IsWindow between window_size) groups

append_nil : {A : Type 0} (xs : List A) → xs ++ [] ≡ xs
append_nil [] = refl
append_nil (x ∷ xs) = ap (λ ys. x ∷ ys) (append_nil xs)

append_assoc : {A : Type 0} (x : A) (xs ys : List A) → (xs ++ (x ∷ [])) ++ ys ≡ xs ++ (x ∷ ys)
append_assoc x [] ys = refl
append_assoc x (z ∷ xs) ys = ap (λ zs. z ∷ zs) (append_assoc x xs ys)

one_day : (more : List Text) (size : ℕ) → length more + 1 ≤ size → length {A = Text} [] + 1 ≤ size
one_day more size h = omega (arith, h)

grown :
    (between : Text → Text → ℤ) (size : ℕ) (first : Text) (more : List Text) (day : Text)
    → IsWindow between size (first, more)
    → is_full size more (between first day) ≡ false
    → IsWindow between size (first, more ++ (day ∷ []))
unfolding is_full
grown between size first more day (short, near) e =
    let room : leb size (length more + 1) ≡ false = ground arith in
    let day_near : ltb_ℤ (pos 7) (between first day) ≡ false = ground arith in
    (
      rw (length-append more (day ∷ [])) (ground (arith, room)),
      All-append (λ d. ltb_ℤ (pos 7) (between first d) ≡ false) more (day ∷ []) near (day_near, tt),
    )

divided :
    (between : Text → Text → ℤ) (window_size : ℕ) (days : List Text) (first : Text)
    (more : List Text)
    → IsWindow between window_size (first, more)
    → Divided between window_size days first more
unfolding windows_from ◌>>=◌
divided between size [] first more h = ((first, more) ∷ [], refl, refl, (h, tt))
divided between size (day ∷ days) first more h =
    elim (Bool-cases (is_full size more (between first day))) [
      | inl e ↦
          let (groups, run, same, good) =
            divided between size days day [] (one_day more size h.0, tt) in
          (
            (first, more) ∷ groups,
            rw (e, run) refl,
            ap (λ ds. first ∷ (more ++ ds)) same,
            (h, good),
          )
      | inr e ↦
          let (groups, run, same, good) =
            divided between size days first (more ++ (day ∷ []))
              (grown between size first more day h e) in
          (groups, rw e run, same ∙ ap (λ ds. first ∷ ds) (append_assoc day more days), good)
    ]

clamp_positive : (n : ℕ) → 1 ≤ clamp 7 n
clamp_positive n = ground arith

-- The windows of the minute download divide the trading days, which are the stored ones or else the
-- business days: laid one after the other they are these days, none left out and none taken twice;
-- each has at most as many days as asked for, brought to 1 to 7, and no day more than seven days
-- after its first; and what is downloaded is the first and the last day of each. The condition is that
-- the days are dates, so that no difference of two of them raises.
pub minute_date_windows-cover :
    (between : Text → Text → ℤ) (stored business : List Text) (window_days : ℕ)
    → (groups : List Group) × (minute_date_windows
          (λ a b. some (between a b))
          stored
          business
          window_days
        ≡ ok (map ends groups))
      × (joined groups ≡ or_days stored business)
      × All (IsWindow between (clamp 7 window_days)) groups
unfolding minute_date_windows
minute_date_windows-cover between stored business window_days = from (or_days stored business)
  where
    from :
        (days : List Text)
        → (groups : List Group) × (windows_of (λ a b. some (between a b)) (clamp 7 window_days) days
            ≡ ok (map ends groups))
          × (joined groups ≡ days)
          × All (IsWindow between (clamp 7 window_days)) groups
    from [] = ([], refl, refl, tt)
    from (d ∷ ds) =
        divided between (clamp 7 window_days) ds d []
          (ground (arith, clamp_positive window_days), tt)
