-- ===== src/Data/Symbols.antt =====
-- normalize_symbol and is_standard_symbol of backend/adapters/qmt/data_standardizer.py.
pub mod Standard
use qmt_trading.Base.{
  ℕ, zero, suc, ◌-◌, Bool, true, false, ◌&&◌, ◌||◌, Option, none, some, List, [], ◌∷◌, ◌++◌,
  if◌then◌else◌, ◌==◌, length, get_elem?,
}
use qmt_trading.Text.{
  Text, codes, strip, upper, is_empty, prefix, text_eq, all_digit_chars, starts_with, one_of,
}
use qmt_trading.Text.Symbol.{is_symbol}
use qmt_trading.Float.{Float}
use qmt_trading.Value.{Value}
use qmt_trading.Data.Fields.{str_or}

-- `raw.split(".", 1)`, where there is a dot.
unfoldable pub split_dot : Text → Option (Text × Text)
split_dot [] = none
split_dot (c ∷ s) =
    let rest = split_dot s in
    if c == b'.'
    then some ([], s)
    else elim rest [ none ↦ none | some (code, market) ↦ some (c ∷ code, market) ]

abbrev zeros : ℕ → Text
zeros zero = []
zeros (suc n) = b'0' ∷ zeros n

-- `s.zfill(n)`: a sign stays in front.
unfoldable pub zfill : ℕ → Text → Text
zfill n [] = zeros n
zfill n (c ∷ s) =
    let fill = zeros (n - length (c ∷ s)) in
    if c == b'+' || c == b'-' then c ∷ (fill ++ s) else fill ++ (c ∷ s)

unfoldable pub market_of : Text → Text
unfolding text_eq
market_of market =
    if text_eq market (codes "XSHG")
    then codes "SH"
    else if text_eq market (codes "XSHE")
    then codes "SZ"
    else if text_eq market (codes "XBJ")
    then codes "BJ"
    else market

abbrev is_number : Text → Bool
is_number t = not_empty t && all_digit_chars t
  where
    not_empty : Text → Bool
    not_empty [] = false
    not_empty (c ∷ s) = true

-- A bare number of six digits, by its first digit.
unfoldable pub by_digit : Text → Text
unfolding starts_with
by_digit [] = []
by_digit (c ∷ s) =
    if c == b'6' || c == b'5' || c == b'9'
    then (c ∷ s) ++ codes ".SH"
    else if c == b'0' || c == b'1' || c == b'2' || c == b'3'
    then (c ∷ s) ++ codes ".SZ"
    else if c == b'4' || c == b'8'
    then (c ∷ s) ++ codes ".BJ"
    else c ∷ s

abbrev drop_two : Text → Text
drop_two (_ ∷ _ ∷ t) = t
drop_two _ = []

unfoldable pub without_dot : Text → Text
unfolding text_eq all_digit_chars zfill by_digit
without_dot raw =
    if one_of (prefix 2 raw) (codes "SH" ∷ codes "SZ" ∷ codes "BJ" ∷ []) && is_number (drop_two raw)
    then zfill 6 (drop_two raw) ++ codes "." ++ prefix 2 raw
    else if is_number raw && length raw == 6
    then by_digit raw
    else raw

-- normalize_symbol on a stripped text in upper case.
unfoldable pub symbol_of : Text → Text
unfolding is_symbol split_dot zfill market_of without_dot
symbol_of raw = if is_empty raw then [] else if is_symbol raw then raw else elim (split_dot raw) [
  | some (code, market) ↦ zfill 6 code ++ codes "." ++ market_of market
  | none ↦ without_dot raw
]

module _ {R : Type 0} ⦃F : Float R⦄ where
  unfoldable pub normalize_symbol : Value R → Text
  unfolding symbol_of strip upper str_or
  normalize_symbol v = symbol_of (upper (strip (str_or v [])))

unfoldable pub is_standard_symbol : Text → Bool
unfolding is_symbol strip upper
is_standard_symbol t = is_symbol (upper (strip t))
