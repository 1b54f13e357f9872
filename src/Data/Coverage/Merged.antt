-- ===== src/Data/Coverage/Merged.antt =====
-- The counts that a minute sync carries along, against the rows.
use qmt_trading.Base.{
  ◌+◌, ◌≡◌, refl, ap, ◌∙◌, inl, inr, Bool, false, not, ◌&&◌, ◌||◌, Option, none, some, List, [],
  ◌∷◌, any_of, keep, length, ltb, Bool-cases, if◌then◌else◌, arith,
}
use qmt_trading.Text.{Text, text_eq, prefix}
use qmt_trading.Text.Order.{text_eq→eq}
use qmt_trading.Dict.{Dict, lookup, insert, lookup-insert}
use qmt_trading.Data.Coverage.{
  Stats, Minute, has_day, all_of, has_symbol_day_coverage, counted, merged_into,
  merge_minute_rows_into_coverage,
}

-- A row of the stock with a whole date.
abbrev pub is_row_of : Text → Minute → Bool
is_row_of s r = text_eq r.symbol s && not (ltb (length r.datetime) 10)

abbrev pub is_row_on : Text → Text → Minute → Bool
is_row_on s d r = is_row_of s r && text_eq d (prefix 10 r.datetime)

abbrev bumped : Text → Minute → Stats → Stats
bumped s r st = if is_row_of s r then counted r st else st

abbrev map_option : (Stats → Stats) → Option Stats → Option Stats
map_option f none = none
map_option f (some st) = some (f st)

lookup-insert-some :
    (s : Text) (r : Minute) (coverage : Dict Stats) (st : Stats)
    → lookup r.symbol coverage ≡ some st
    → lookup s (insert r.symbol (counted r st) coverage)
      ≡ map_option (λ t. if text_eq r.symbol s then counted r t else t) (lookup s coverage)
lookup-insert-some s r coverage st h = elim (Bool-cases (text_eq r.symbol s)) [
  | inl e ↦
      let same = text_eq→eq r.symbol s e in
      let h' : lookup s coverage ≡ some st = rw (← same) h in
      rw (lookup-insert r.symbol s (counted r st) coverage, e, h') refl
  | inr e ↦ rw (lookup-insert r.symbol s (counted r st) coverage, e) (map_id (lookup s coverage))
]
  where
    map_id : (o : Option Stats) → o ≡ map_option (λ t. t) o
    map_id none = refl
    map_id (some st) = refl

kept_entry :
    (s : Text) (r : Minute) (o : Option Stats)
    → is_row_of s r ≡ false
    → o ≡ map_option (bumped s r) o
kept_entry s r none h = refl
kept_entry s r (some st) h = rw h refl

dated_entry :
    (s : Text) (r : Minute) (o : Option Stats)
    → ltb (length r.datetime) 10 ≡ false
    → map_option (λ t. if text_eq r.symbol s then counted r t else t) o ≡ map_option (bumped s r) o
dated_entry s r none h = refl
dated_entry s r (some st) h = elim (Bool-cases (text_eq r.symbol s)) [
  | inl e ↦ rw (h, e) refl
  | inr e ↦ rw e refl
]

absent-is_row_of :
    (s : Text) (r : Minute) (coverage : Dict Stats)
    → lookup r.symbol coverage ≡ none
    → lookup s coverage ≡ map_option (bumped s r) (lookup s coverage)
absent-is_row_of s r coverage h = elim (Bool-cases (text_eq r.symbol s)) [
  | inr e ↦ kept_entry s r (lookup s coverage) (rw e refl)
  | inl e ↦ let h' : lookup s coverage ≡ none = rw (← text_eq→eq r.symbol s e) h in rw h' refl
]

lookup-merged_entry :
    (s : Text) (r : Minute) (coverage : Dict Stats) (o : Option Stats)
    → lookup r.symbol coverage ≡ o
    → lookup s (merged_into r o coverage) ≡ map_option (bumped s r) (lookup s coverage)
lookup-merged_entry s r coverage none h = absent-is_row_of s r coverage h
lookup-merged_entry s r coverage (some st) h = elim (Bool-cases (ltb (length r.datetime) 10)) [
  | inl e ↦ rw e (kept_entry s r (lookup s coverage) (ground (arith, e)))
  | inr e ↦ rw e (lookup-insert-some s r coverage st h ∙ dated_entry s r (lookup s coverage) e)
]

lookup-merged_into :
    (s : Text) (r : Minute) (coverage : Dict Stats)
    → lookup s (merged_into r (lookup r.symbol coverage) coverage)
      ≡ map_option (bumped s r) (lookup s coverage)
lookup-merged_into s r coverage = lookup-merged_entry s r coverage (lookup r.symbol coverage) refl

abbrev all_bumped : Text → List Minute → Stats → Stats
all_bumped s [] st = st
all_bumped s (r ∷ rows) st = all_bumped s rows (bumped s r st)

lookup-merge :
    (s : Text) (rows : List Minute) (coverage : Dict Stats) (st : Stats)
    → lookup s coverage ≡ some st
    → lookup s (merge_minute_rows_into_coverage rows coverage) ≡ some (all_bumped s rows st)
unfolding merge_minute_rows_into_coverage
lookup-merge s [] coverage st h = h
lookup-merge s (r ∷ rows) coverage st h =
    lookup-merge s rows _ (bumped s r st)
      (lookup-merged_into s r coverage ∙ ap (map_option (bumped s r)) h)

rows-bumped :
    (s : Text) (rows : List Minute) (st : Stats)
    → (all_bumped s rows st).rows ≡ st.rows + length (keep (is_row_of s) rows)
rows-bumped s [] st = omega arith
rows-bumped s (r ∷ rows) st = rows-bumped s rows (bumped s r st) ∙ ground arith

has_day-counted :
    (d : Text) (r : Minute) (st : Stats)
    → has_day d (counted r st).days ≡ (text_eq d (prefix 10 r.datetime) || has_day d st.days)
has_day-counted d r st = elim (Bool-cases (has_day (prefix 10 r.datetime) st.days)) [
  | inr e ↦ rw e (ground arith)
  | inl e ↦ rw e (elim (Bool-cases (text_eq d (prefix 10 r.datetime))) [
    | inr k ↦ rw k refl
    | inl k ↦ let same = text_eq→eq d (prefix 10 r.datetime) k in rw (k, same, e) refl
  ])
]

has_day-bumped :
    (s d : Text) (r : Minute) (st : Stats)
    → has_day d (bumped s r st).days ≡ (has_day d st.days || is_row_on s d r)
has_day-bumped s d r st = elim (Bool-cases (is_row_of s r)) [
  | inl e ↦ rw e (ground (arith, has_day-counted d r st))
  | inr e ↦ rw e (ground arith)
]

days-bumped :
    (s d : Text) (rows : List Minute) (st : Stats)
    → has_day d (all_bumped s rows st).days ≡ (has_day d st.days || any_of (is_row_on s d) rows)
days-bumped s d [] st = ground arith
days-bumped s d (r ∷ rows) st =
    days-bumped s d rows (bumped s r st) ∙ ground (arith, has_day-bumped s d r st)

covered :
    (s : Text) (rows : List Minute) (st : Stats) (expected : List Text)
    → all_of (λ d. has_day d (all_bumped s rows st).days) expected
      ≡ all_of (λ d. has_day d st.days || any_of (is_row_on s d) rows) expected
covered s rows st [] = refl
covered s rows st (d ∷ ds) = rw (days-bumped s d rows st, covered s rows st ds) refl

-- The entry of a stock after the merge agrees with a count over the rows: it has one row more for each
-- row of the stock with a whole date, and the coverage test on it holds just when each expected day was
-- in the entry or is the date of such a row.
pub merge_minute_rows-counted :
    (s : Text) (rows : List Minute) (coverage : Dict Stats) (st : Stats)
    → lookup s coverage ≡ some st
    → (after : Stats) × (lookup s (merge_minute_rows_into_coverage rows coverage) ≡ some after)
      × (after.rows ≡ st.rows + length (keep (is_row_of s) rows))
      × ((expected : List Text)
          → has_symbol_day_coverage expected after
            ≡ all_of (λ d. has_day d st.days || any_of (is_row_on s d) rows) expected)
unfolding has_symbol_day_coverage
merge_minute_rows-counted s rows coverage st h = (
  all_bumped s rows st,
  lookup-merge s rows coverage st h,
  rows-bumped s rows st,
  covered s rows st,
)
