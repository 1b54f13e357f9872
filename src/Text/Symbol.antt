-- ===== src/Text/Symbol.antt =====
-- The stock codes that are accepted, such as 600000.SH: `_validate_order` of
-- backend/services/trading_center/trading_service.py, and the regular expression of `_validate_signals` in
-- backend/services/backtest_center/backtest_engine.py.
use qmt_trading.Base.{Bool, false, ◌&&◌, ◌==◌, none, some, [], ◌∷◌, length, get_elem?, take}
use qmt_trading.Text.{Text, codes, all_digits, all_digit_chars, text_eq, one_of}

abbrev dot_at_six : Text → Bool
dot_at_six t = elim (get_elem? t 6) [ none ↦ false | some c ↦ c == b'.' ]

abbrev drop_seven : Text → Text
drop_seven (_ ∷ _ ∷ _ ∷ _ ∷ _ ∷ _ ∷ _ ∷ t) = t
drop_seven _ = []

-- `^\d{6}\.(SH|SZ|BJ)$`.
unfoldable pub is_symbol : Text → Bool
unfolding all_digits text_eq
is_symbol t =
    length t == 9
    && dot_at_six t
    && all_digits (take 6 t)
    && one_of (drop_seven t) (codes "SH" ∷ codes "SZ" ∷ codes "BJ" ∷ [])

-- The test of `_validate_order`, with `str.isdigit`.
unfoldable pub is_order_symbol : Text → Bool
unfolding all_digit_chars text_eq
is_order_symbol t =
    length t == 9
    && dot_at_six t
    && all_digit_chars (take 6 t)
    && one_of (drop_seven t) (codes "SH" ∷ codes "SZ" ∷ codes "BJ" ∷ [])
