-- ===== src/Data/Standard.antt =====
-- The functions standardize_... of backend/adapters/qmt/data_standardizer.py, on lists of dicts: what
-- goes into the tables. `json` is json.dumps.
pub mod Kline
pub mod Accounts
pub mod Usable
use qmt_trading.Base.{
  ℕ, Bool, true, false, not, Option, none, some, List, [], ◌∷◌, map, if◌then◌else◌, any_of, ◌==◌,
}
use qmt_trading.Base.Int.{ℤ}
use qmt_trading.Text.{Text, codes, strip, upper, is_empty, or_text}
use qmt_trading.Dict.{Dict, get_or}
use qmt_trading.Float.{Float, of_ℤ, zero_f, add, mul, eq, round}
use qmt_trading.Value.{Value, null, bool, num, truthy, text_or}
use qmt_trading.Data.Fields.{
  Formats, Result, ok, raise, value_error, ◌>>=◌, get, get_first, or_value, str_or, normalize_date,
  number_or_zero, to_float, to_int, to_bool,
}
use qmt_trading.Data.Symbols.{split_dot, market_of, normalize_symbol, is_standard_symbol}

pub record StockBasic : Type 0 where
  pub symbol : Text
  pub name : Text
  pub market : Text
  pub security_type : Text
  pub list_status : Text
  pub is_st : Bool

pub record InstrumentDetail (R : Type 0) : Type 0 where
  pub symbol : Text
  pub exchange_id : Text
  pub instrument_id : Text
  pub instrument_name : Text
  pub exchange_code : Text
  pub open_date : Text
  pub expire_date : Text
  pub pre_close : R
  pub up_stop_price : R
  pub down_stop_price : R
  pub is_trading : Bool
  pub instrument_status : Text
  pub total_volume : R
  pub float_volume : R
  pub trading_day : Text

pub record CalendarDay : Type 0 where
  pub market : Text
  pub trade_date : Text
  pub is_trading_day : Bool
  pub source : Text

-- `t.split(".")[-1]`
unfoldable pub last_part : Text → Text
last_part [] = []
last_part (c ∷ s) =
    let rest = last_part s in if any_of (λ d. d == b'.') (c ∷ s) then rest else c ∷ s

-- `t.split(".")[0]`
unfoldable pub first_part : Text → Text
first_part [] = []
first_part (c ∷ s) = if c == b'.' then [] else c ∷ first_part s

module _ {R : Type 0} ⦃F : Float R⦄ where
  abbrev stock_basic : Dict (Value R) → StockBasic
  stock_basic row =
      let symbol = normalize_symbol (get (codes "symbol") row) in
      record {
        symbol = symbol;
        name = str_or (get (codes "name") row) symbol;
        market =
            if is_standard_symbol symbol
            then last_part symbol
            else upper (str_or (get (codes "market") row) []);
        security_type = str_or (get (codes "security_type") row) (codes "股票");
        list_status = str_or (get (codes "list_status") row) (codes "上市");
        is_st = truthy (get (codes "is_st") row);
      }

  unfoldable pub standardize_stock_basic : List (Dict (Value R)) → List StockBasic
  unfolding get str_or normalize_symbol is_standard_symbol last_part upper
  standardize_stock_basic rows = map stock_basic rows

  abbrev instrument : Formats → Text → Dict (Value R) → InstrumentDetail R
  instrument formats symbol row = record {
    symbol = symbol;
    exchange_id =
        str_or (get_first (codes "exchange_id") (codes "ExchangeID" ∷ []) row) (last_part symbol);
    instrument_id =
        str_or (get_first (codes "instrument_id") (codes "InstrumentID" ∷ []) row)
          (first_part symbol);
    instrument_name =
        str_or
          (get_first (codes "instrument_name") (codes "InstrumentName" ∷ codes "name" ∷ []) row)
          symbol;
    exchange_code =
        str_or
          (get_first (codes "exchange_code") (codes "ExchangeCode" ∷ codes "exchange_id" ∷ []) row)
          (last_part symbol);
    open_date = normalize_date formats (get_first (codes "open_date") (codes "OpenDate" ∷ []) row);
    expire_date =
        normalize_date formats (get_first (codes "expire_date") (codes "ExpireDate" ∷ []) row);
    pre_close =
        to_float 4
          (get_first (codes "pre_close") (codes "PreClose" ∷ codes "PreClosePrice" ∷ []) row);
    up_stop_price = to_float 4 (
        get_first (codes "up_stop_price") (codes "UpStopPrice" ∷ codes "UpperLimitPrice" ∷ []) row);
    down_stop_price = to_float 4 (
        get_first (codes "down_stop_price") (codes "DownStopPrice" ∷ codes "LowerLimitPrice" ∷ [])
          row);
    is_trading =
        to_bool (get_or (codes "is_trading") (get_or (codes "IsTrading") (bool true) row) row) true;
    instrument_status =
        str_or
          (get_first (codes "instrument_status") (codes "InstrumentStatus" ∷ codes "status" ∷ [])
            row)
          [];
    total_volume =
        to_float 2
          (get_first (codes "total_volume") (codes "TotalVolume" ∷ codes "total_shares" ∷ []) row);
    float_volume =
        to_float 2
          (get_first (codes "float_volume") (codes "FloatVolume" ∷ codes "float_shares" ∷ []) row);
    trading_day =
        normalize_date formats (get_first (codes "trading_day") (codes "TradingDay" ∷ []) row);
  }

  unfoldable pub standardize_instrument_details :
      Formats → List (Dict (Value R)) → List (InstrumentDetail R)
  unfolding get get_first get_or str_or normalize_symbol normalize_date to_float to_bool first_part
      last_part
  standardize_instrument_details formats [] = []
  standardize_instrument_details formats (row ∷ rows) =
      let symbol = normalize_symbol (get (codes "symbol") row) in
      let rest = standardize_instrument_details formats rows in
      if is_empty symbol then rest else instrument formats symbol row ∷ rest

  abbrev calendar_day : Text → Dict (Value R) → CalendarDay
  calendar_day trade_date row = record {
    market =
        market_of
          (upper (str_or (get_first (codes "market") (codes "exchange" ∷ []) row) (codes "SH")));
    trade_date = trade_date;
    is_trading_day = to_bool (get_or (codes "is_trading_day") (bool true) row) true;
    source = str_or (get (codes "source") row) (codes "qmt");
  }

  unfoldable pub standardize_trading_calendar : Formats → List (Dict (Value R)) → List CalendarDay
  unfolding get get_first get_or str_or normalize_date to_bool market_of upper
  standardize_trading_calendar formats [] = []
  standardize_trading_calendar formats (row ∷ rows) =
      let trade_date =
        normalize_date formats
          (get_first (codes "trade_date") (codes "date" ∷ codes "trading_date" ∷ []) row) in
      let rest = standardize_trading_calendar formats rows in
      if is_empty trade_date then rest else calendar_day trade_date row ∷ rest
