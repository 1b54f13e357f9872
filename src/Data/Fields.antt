-- ===== src/Data/Fields.antt =====
-- The readers of fields in backend/adapters/qmt/data_standardizer.py, on what `row.get` gives. `Formats`
-- is datetime.strptime and strftime; an integer that is too large for a float is not modelled.
use qmt_trading.Base.{
  ℕ, Bool, true, false, ◌||◌, Option, none, some, List, [], ◌∷◌, ◌++◌, map, if◌then◌else◌, ◌==◌,
  length,
}
use qmt_trading.Base.Int.{ℤ, pos}
use qmt_trading.Text.{Text, codes, strip, lower, is_empty, prefix, text_eq, one_of}
use qmt_trading.Dict.{Dict, get_or}
use qmt_trading.Float.{Float, whole, not_a_number, infinite, zero_f, lt, round, trunc}
use qmt_trading.Value.{Value, null, bool, text, truthy, to_text, text_or}
use qmt_trading.Value

-- `read_date fmt t` is strptime(t, fmt).strftime("%Y-%m-%d"), `read_time fmt t` the same with
-- "%Y-%m-%d %H:%M:%S"; none where strptime raises ValueError.
pub record Formats : Type 0 where
  pub read_date : Text → Text → Option Text
  pub read_time : Text → Text → Option Text

-- The exceptions that leave the readers.
pub data Fault : Type 0 where
  overflow value_error : Fault

pub data Result (A : Type 0) : Type 0 where
  ok : A → Result A
  raise : Fault → Result A

infixl 5 ◌>>=◌
unfoldable pub ◌>>=◌ : {A B : Type 0} → Result A → (A → Result B) → Result B
ok a >>= f = f a
raise e >>= f = raise e

abbrev or_read : Option Text → Text → Text
or_read none t = t
or_read (some s) t = s

abbrev pub first_format : (Text → Text → Option Text) → List Text → Text → Option Text
first_format read [] t = none
first_format read (fmt ∷ fmts) t = elim (read fmt t) [
  | some s ↦ some s
  | none ↦ first_format read fmts t
]

abbrev pub second : Option Text → Option Text → Option Text
second none o = o
second (some s) o = some s

-- normalize_date on a stripped text.
unfoldable pub date_of : Formats → Text → Text
date_of formats raw =
    if is_empty raw
    then []
    else or_read
        (second (formats.read_date (codes "%Y-%m-%d") (prefix 10 raw))
          (first_format formats.read_date (codes "%Y%m%d" ∷ codes "%Y/%m/%d" ∷ []) raw))
        (prefix 10 raw)

abbrev space_for_t : Text → Text
space_for_t = map (λ c. if c == b'T' then b' ' else c)

abbrev time_formats : List Text
time_formats =
    codes "%Y-%m-%d %H:%M:%S"
    ∷ codes "%Y-%m-%d %H:%M"
    ∷ codes "%Y%m%d %H:%M:%S"
    ∷ codes "%Y%m%d%H%M%S"
    ∷ codes "%Y/%m/%d %H:%M:%S"
    ∷ []

-- normalize_datetime on a stripped text with spaces for T.
unfoldable pub time_of : Formats → Text → Text
unfolding date_of strip
time_of formats raw =
    if is_empty raw
    then []
    else or_read (first_format formats.read_time time_formats raw) (
        if length raw == 10
        then date_of formats (strip raw) ++ codes " 00:00:00"
        else prefix 19 raw)

-- The alias of a period.
unfoldable pub period_of : Text → Text
unfolding text_eq
period_of raw =
    if text_eq raw (codes "1min") || text_eq raw (codes "1分钟")
    then codes "1m"
    else if text_eq raw (codes "5min") || text_eq raw (codes "5分钟")
    then codes "5m"
    else raw

abbrev yes_words : List Text
yes_words =
    codes "1"
    ∷ codes "true"
    ∷ codes "yes"
    ∷ codes "y"
    ∷ codes "是"
    ∷ codes "正常"
    ∷ codes "trading"
    ∷ []

abbrev no_words : List Text
no_words =
    codes "0" ∷ codes "false" ∷ codes "no" ∷ codes "n" ∷ codes "否" ∷ codes "停牌" ∷ codes "暂停" ∷ []

module _ {R : Type 0} where
  -- `row.get(key)`
  unfoldable pub get : Text → Dict (Value R) → Value R
  unfolding get_or
  get key row = get_or key null row

module _ {R : Type 0} ⦃F : Float R⦄ where
  -- `a or b`
  abbrev pub or_value : Value R → Value R → Value R
  or_value a b = if truthy a then a else b

  -- `row.get(k1) or row.get(k2) or ...`
  unfoldable pub get_first : Text → List Text → Dict (Value R) → Value R
  unfolding get
  get_first key [] row = get key row
  get_first key (k ∷ ks) row = or_value (get key row) (get_first k ks row)

  -- `str(value or default)`
  unfoldable pub str_or : Value R → Text → Text
  unfolding text_or
  str_or v t = text_or (some v) t

  unfoldable pub normalize_date : Formats → Value R → Text
  unfolding date_of strip str_or
  normalize_date formats v = date_of formats (strip (str_or v []))

  unfoldable pub normalize_datetime : Formats → Value R → Text
  unfolding time_of strip str_or
  normalize_datetime formats v = time_of formats (space_for_t (strip (str_or v [])))

  unfoldable pub normalize_period : Value R → Text
  unfolding period_of strip lower str_or
  normalize_period v = period_of (lower (strip (str_or v (codes "1m"))))

  -- `float(value or 0)`, where it does not raise.
  abbrev pub number_or_zero : Value R → Option R
  number_or_zero v = if truthy v then Value.to_float v else some zero_f

  abbrev pub rounded : ℕ → Option R → R
  rounded digits none = zero_f
  rounded digits (some x) = elim (trunc x) [
    | whole z ↦ round digits x
    | not_a_number ↦ zero_f
    | infinite ↦ zero_f
  ]

  unfoldable pub to_float : ℕ → Value R → R
  to_float digits v = rounded digits (number_or_zero v)

  abbrev pub truncated : Option R → Result ℤ
  truncated none = ok (pos 0)
  truncated (some x) = elim (trunc x) [
    | whole z ↦ ok z
    | not_a_number ↦ ok (pos 0)
    | infinite ↦ raise overflow
  ]

  -- `except (TypeError, ValueError)` does not catch the OverflowError of int(inf).
  unfoldable pub to_int : Value R → Result ℤ
  to_int v = truncated (number_or_zero v)

  unfoldable pub positive_or_zero : ℕ → Value R → R
  unfolding to_float
  positive_or_zero digits v = let x = to_float digits v in if lt zero_f x then x else zero_f

  abbrev word_bool : Value R → Text → Bool
  word_bool v raw =
      if one_of raw yes_words then true else if one_of raw no_words then false else truthy v

  unfoldable pub to_bool : Value R → Bool → Bool
  unfolding text_eq strip lower to_text
  to_bool null default = default
  to_bool (bool b) default = b
  to_bool (text t) default = if is_empty t then default else word_bool (text t) (lower (strip t))
  to_bool v default = word_bool v (lower (strip (to_text v)))
