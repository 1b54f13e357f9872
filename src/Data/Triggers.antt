-- ===== src/Data/Triggers.antt =====
-- DataCenterRepository.replay_minute_amount_triggers
-- (backend/repositories/data_center/data_center_repository.py): the stocks whose amounts stay high for some
-- minutes in a row, by one pass over the minute rows in chunks of 500 stocks. The progress callback only
-- observes, and is left out.
pub mod Sound
use qmt_trading.Base.{
  ℕ, zero, suc, ◌+◌, ◌-◌, ◌*◌, Bool, true, false, not, ◌&&◌, ◌||◌, Option, none, some, List, [],
  ◌∷◌, ◌++◌, map, if◌then◌else◌, ◌==◌, keep, any_of, ltb, leb, length, take, sort_by,
}
use qmt_trading.Text.{Text, codes, text_eq, text_lt, text_le, prefix, is_digit, one_of}
use qmt_trading.Dict.{Dict, lookup, insert}
use qmt_trading.Float.{Float, le}
use qmt_trading.Backtest.Exits.Rows.{is_minute, MinuteRow}
use qmt_trading.Data.Symbols.{is_standard_symbol}

-- The arguments, the dates with their defaults filled in.
pub record Query (R : Type 0) : Type 0 where
  pub start_date : Text
  pub end_date : Text
  pub start_time : Text
  pub end_time : Text
  pub min_amount : R
  pub consecutive_minutes : ℕ
  pub limit : ℕ

pub record Streak : Type 0 where
  pub trade_date : Text
  pub minute_index : ℕ
  pub count : ℕ

pub record Trigger (R : Type 0) : Type 0 where
  pub symbol : Text
  pub trade_date : Text
  pub trigger_time : Text
  pub trigger_price : R
  pub trigger_amount : R

pub record Scan (R : Type 0) : Type 0 where
  pub streak_by_symbol : Dict Streak
  pub triggers : List (Trigger R)
  pub minute_rows : ℕ
  pub first_minute : Option Text
  pub last_minute : Option Text
  pub symbols_with_rows : List Text

pub record Replay (R : Type 0) : Type 0 where
  pub found : List (Trigger R)
  pub candidate_symbols : ℕ
  pub symbols_with_minute_rows : ℕ
  pub rows_read : ℕ
  pub first_read : Option Text
  pub last_read : Option Text
  pub return_limit : ℕ
  pub limit_hit : Bool

-- `min(max(n, 1), bound)`
abbrev pub at_least_one : ℕ → ℕ → ℕ
at_least_one bound n = let up = if ltb n 1 then 1 else n in if ltb bound up then bound else up

abbrev drop : {A : Type 0} → ℕ → List A → List A
drop zero xs = xs
drop (suc n) [] = []
drop (suc n) (x ∷ xs) = drop n xs

-- `substr(t, from, n)` of SQL, which counts from one.
abbrev substr : Text → ℕ → ℕ → Text
substr t from n = take n (drop (from - 1) t)

-- `CAST(t AS INTEGER)` on a text that starts with digits.
unfoldable pub leading_number : ℕ → Text → ℕ
leading_number acc [] = acc
leading_number acc (c ∷ t) =
    let rest = leading_number (acc * 10 + (c - b'0')) t in if is_digit c then rest else acc

unfoldable pub minute_of : Text → ℕ
unfolding leading_number is_digit
minute_of datetime =
    leading_number 0 (substr datetime 12 2) * 60 + leading_number 0 (substr datetime 15 2)

-- The chunks of 500, with the current one.
abbrev pub chunks_from : List Text → List Text → List (List Text)
chunks_from [] [] = []
chunks_from [] (c ∷ current) = (c ∷ current) ∷ []
chunks_from (s ∷ ss) current = elim (length current == 500) [
  | true ↦ current ∷ chunks_from ss (s ∷ [])
  | false ↦ chunks_from ss (current ++ (s ∷ []))
]

abbrev pub hit_count : Option Streak → Text → ℕ → ℕ
hit_count none date minute = 1
hit_count (some st) date minute =
    if text_eq st.trade_date date && (st.minute_index + 1 == minute) then st.count + 1 else 1

abbrev min_time : Option Text → Text → Option Text
min_time none t = some t
min_time (some a) t = if text_lt t a then some t else some a

abbrev max_time : Option Text → Text → Option Text
max_time none t = some t
max_time (some a) t = if text_lt a t then some t else some a

module _ {R : Type 0} where
  -- `datetime BETWEEN ? AND ?`
  unfoldable pub in_dates : Query R → MinuteRow R → Bool
  unfolding text_lt
  in_dates q r =
      text_le (q.start_date ++ codes " 00:00:00") r.datetime
      && text_le r.datetime (q.end_date ++ codes " 23:59:59")

  unfoldable pub query_rows : Query R → List Text → List (MinuteRow R) → List (MinuteRow R)
  unfolding text_eq text_lt sort_by
  query_rows q chunk table =
      sort_by
        (λ (a : MinuteRow R) (b : MinuteRow R).
          text_lt a.datetime b.datetime
          || text_eq a.datetime b.datetime && text_lt a.symbol b.symbol)
        (keep
          (λ (r : MinuteRow R).
            is_minute r
            && one_of r.symbol chunk
            && in_dates q r
            && text_le q.start_time (substr r.datetime 12 8)
            && text_le (substr r.datetime 12 8) q.end_time)
          table)

  -- `(symbol, trade_date) in triggered_keys`: the keys are those of the triggers.
  abbrev pub is_triggered : Text → Text → List (Trigger R) → Bool
  is_triggered symbol date =
      any_of (λ (t : Trigger R). text_eq t.symbol symbol && text_eq t.trade_date date)

  abbrev pub day_of : MinuteRow R → Text
  day_of r = prefix 10 r.datetime

  abbrev pub trigger_of : MinuteRow R → Trigger R
  trigger_of r = record {
    symbol = r.symbol;
    trade_date = day_of r;
    trigger_time = r.datetime;
    trigger_price = r.close;
    trigger_amount = r.amount;
  }

  -- The count of the row's stock after the row; `high` says whether the amount is.
  abbrev pub streak_after : Bool → Scan R → MinuteRow R → Streak
  streak_after high s r = record {
    trade_date = day_of r;
    minute_index = minute_of r.datetime;
    count =
        if high
        then hit_count (lookup r.symbol s.streak_by_symbol) (day_of r) (minute_of r.datetime)
        else 0;
  }

  abbrev pub triggers_after : ℕ → Bool → ℕ → Scan R → MinuteRow R → List (Trigger R)
  triggers_after minutes high count s r =
      if high && leb minutes count && not (is_triggered r.symbol (day_of r) s.triggers)
      then s.triggers ++ (trigger_of r ∷ [])
      else s.triggers

  unfoldable pub on_row_by : Bool → ℕ → MinuteRow R → Scan R → Scan R
  unfolding lookup insert text_eq text_lt minute_of
  on_row_by high minutes r s =
      let streak = streak_after high s r in
      record {
        streak_by_symbol = insert r.symbol streak s.streak_by_symbol;
        triggers = triggers_after minutes high streak.count s r;
        minute_rows = s.minute_rows + 1;
        first_minute = min_time s.first_minute r.datetime;
        last_minute = max_time s.last_minute r.datetime;
        symbols_with_rows =
            if one_of r.symbol s.symbols_with_rows
            then s.symbols_with_rows
            else r.symbol ∷ s.symbols_with_rows;
      }

module _ {R : Type 0} ⦃F : Float R⦄ where
  abbrev pub on_row : Query R → MinuteRow R → Scan R → Scan R
  on_row q r s = on_row_by (le q.min_amount r.amount) (at_least_one 60 q.consecutive_minutes) r s

  -- Whether the loops break.
  abbrev pub is_full : Query R → Scan R → Bool
  is_full q s = leb (at_least_one 6000 q.limit) (length s.triggers)

  unfoldable pub scan_rows : Query R → List (MinuteRow R) → Scan R → Scan R
  unfolding on_row_by
  scan_rows q [] s = s
  scan_rows q (r ∷ rows) s =
      let after = on_row q r s in
      let rest = scan_rows q rows after in if is_full q after then after else rest

  unfoldable pub scan_chunks : Query R → List (MinuteRow R) → List (List Text) → Scan R → Scan R
  unfolding scan_rows query_rows
  scan_chunks q table [] s = s
  scan_chunks q table (chunk ∷ chunks) s =
      let after = scan_rows q (query_rows q chunk table) (record s { streak_by_symbol = [] }) in
      let rest = scan_chunks q table chunks after in if is_full q after then after else rest

  abbrev pub start : Scan R
  start = record {
    streak_by_symbol = [];
    triggers = [];
    minute_rows = 0;
    first_minute = none;
    last_minute = none;
    symbols_with_rows = [];
  }

  abbrev empty_replay : Replay R
  empty_replay = record {
    found = [];
    candidate_symbols = 0;
    symbols_with_minute_rows = 0;
    rows_read = 0;
    first_read = none;
    last_read = none;
    return_limit = 0;
    limit_hit = false;
  }

  abbrev trigger_before : Trigger R → Trigger R → Bool
  trigger_before a b =
      text_lt a.trigger_time b.trigger_time
      || text_eq a.trigger_time b.trigger_time && text_lt a.symbol b.symbol

  abbrev pub replay_clean : Query R → List (MinuteRow R) → List Text → Replay R
  replay_clean q table [] = empty_replay
  replay_clean q table (c ∷ clean) =
      let s = scan_chunks q table (chunks_from (c ∷ clean) []) start in
      record {
        found = take (at_least_one 6000 q.limit) (sort_by trigger_before s.triggers);
        candidate_symbols = length (c ∷ clean);
        symbols_with_minute_rows = length s.symbols_with_rows;
        rows_read = s.minute_rows;
        first_read = s.first_minute;
        last_read = s.last_minute;
        return_limit = at_least_one 6000 q.limit;
        limit_hit = is_full q s;
      }

  unfoldable pub replay_minute_amount_triggers : Query R → List (MinuteRow R) → List Text → Replay R
  unfolding scan_chunks sort_by is_standard_symbol text_eq text_lt
  replay_minute_amount_triggers q table symbols =
      replay_clean q table (keep is_standard_symbol symbols)
