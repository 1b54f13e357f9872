-- ===== src/Backtest/Context/Tests.antt =====
-- The theorems on what a strategy reads at one stock over three days, in a backtest on minutes.
use qmt_trading.Base.{ℕ, ◌*◌, ◌≡◌, refl, true, none, some, List, [], ◌∷◌, All, keep}
use qmt_trading.Base.Int.{pos}
use qmt_trading.Text.{Text, codes, text_lt}
use qmt_trading.Dict.{get_or}
use qmt_trading.Float.Fixed.{Fixed, units, fixed_float}
use qmt_trading.Backtest.Types.{MarketBar, minute_frequency}
use qmt_trading.Backtest.Exits.Rows.{MinuteRow}
use qmt_trading.Backtest.Context.{Context, no_day, get_daily_bars, get_minute_bars}
use qmt_trading.Backtest.Context.Visible.{is_visible, get_daily_bars-is_visible}
use qmt_trading.Backtest.Context.Triggers.{Request, Diagnostic, find_minute_amount_triggers}
use qmt_trading.Backtest.Context.Scanned.{find_minute_amount_triggers-current}
use qmt_trading.Backtest.Context.Minutes.{IsOfDay, get_minute_bars-IsOfDay}

abbrev yuan : ℕ → Fixed
yuan n = units (pos (n * 10000))

abbrev bank : Text
bank = codes "600000.SH"

abbrev day : Text → MarketBar Fixed
day date = record {
  symbol = bank;
  trade_date = date;
  open_price = yuan 10;
  high = yuan 12;
  low = yuan 9;
  close = yuan 11;
  volume = pos 1000;
  amount = yuan 11000;
  pre_close = yuan 10;
  suspend_flag = pos 0;
  name = codes "bank";
  bar_time = none;
}

abbrev minute : Text → MinuteRow Fixed
minute time = record {
  symbol = bank;
  datetime = time;
  period = codes "1m";
  open_price = yuan 10;
  high = yuan 12;
  low = yuan 9;
  close = yuan 11;
  pre_close = yuan 10;
  volume = yuan 1000;
  amount = yuan 11000;
  suspend_flag = pos 0;
}

abbrev context : Context Fixed
context = record {
  bars_by_symbol =
      (bank, day (codes "2024-01-02") ∷ day (codes "2024-01-03") ∷ day (codes "2024-01-04") ∷ [])
      ∷ [];
  current_date = codes "2024-01-03";
  data_frequency = minute_frequency;
  minute_mode = codes "minute_replay";
  logs = [];
}

late : text_lt no_day (codes "2024-01-03") ≡ true
unfolding text_lt
late = refl

get_daily_bars-is_visible_example :
    (get_daily_bars bank (some (codes "2024-01-01")) none context).0
    ≡ keep
        (is_visible context (some (codes "2024-01-01")) none)
        (get_or bank [] context.bars_by_symbol)
get_daily_bars-is_visible_example =
    get_daily_bars-is_visible context bank (some (codes "2024-01-01")) none late

abbrev minutes : List (MinuteRow Fixed)
minutes = minute (codes "2024-01-03 09:31:00") ∷ minute (codes "2024-01-04 09:31:00") ∷ []

get_minute_bars-IsOfDay_example :
    All
      (IsOfDay bank (codes "2024-01-03"))
      (get_minute_bars minutes bank none (some (codes "2024-01-05")) context)
get_minute_bars-IsOfDay_example =
    get_minute_bars-IsOfDay minutes bank none (some (codes "2024-01-05")) context

abbrev request : Request Fixed
request = record {
  symbols = bank ∷ [];
  start_time = codes "09:30:00";
  end_time = codes "10:30:00";
  min_amount = yuan 10000;
  consecutive_minutes = 1;
  limit = 20;
}

abbrev no_line : Diagnostic Fixed → Text
no_line d = []

find_minute_amount_triggers-current_example :
    All
      (λ t. t.trade_date ≡ codes "2024-01-03")
      (find_minute_amount_triggers no_line minutes request context).0
find_minute_amount_triggers-current_example =
    find_minute_amount_triggers-current no_line minutes request context refl
