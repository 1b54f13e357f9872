-- ===== src/Data/Standard/Accounts.antt =====
-- The account tables: standardize_account, standardize_positions, standardize_orders and
-- standardize_trades of backend/adapters/qmt/data_standardizer.py, and normalize_account_total of
-- backend/core/asset_math.py.
use qmt_trading.Base.{none, some, List, [], ◌∷◌, if◌then◌else◌}
use qmt_trading.Base.Int.{ℤ}
use qmt_trading.Text.{Text, codes, strip, upper, is_empty}
use qmt_trading.Dict.{Dict}
use qmt_trading.Float.{Float, of_ℤ, zero_f, add, mul, eq, round}
use qmt_trading.Value.{Value, num}
use qmt_trading.Data.Fields.{
  Result, ok, raise, value_error, ◌>>=◌, get, get_first, or_value, str_or, number_or_zero, to_float,
  to_int,
}
use qmt_trading.Data.Symbols.{normalize_symbol}

pub record Account (R : Type 0) : Type 0 where
  pub account_id : Text
  pub total_asset : R
  pub available_cash : R
  pub frozen_cash : R
  pub market_value : R
  pub today_pnl : R

pub record Position (R : Type 0) : Type 0 where
  pub account_id : Text
  pub symbol : Text
  pub name : Text
  pub quantity : ℤ
  pub available_quantity : ℤ
  pub cost_price : R
  pub last_price : R

-- `row` keeps the other keys.
pub record OrderRow (R : Type 0) : Type 0 where
  pub row : Dict (Value R)
  pub account_id : Text
  pub symbol : Text
  pub name : Text
  pub side : Text
  pub price : R
  pub quantity : ℤ
  pub filled_quantity : ℤ

pub record TradeRow (R : Type 0) : Type 0 where
  pub row : Dict (Value R)
  pub account_id : Text
  pub symbol : Text
  pub name : Text
  pub side : Text
  pub price : R
  pub quantity : ℤ
  pub amount : R
  pub fee : R

-- All results, or the first exception.
unfoldable pub each : {A B : Type 0} → (A → Result B) → List A → Result (List B)
unfolding ◌>>=◌
each f [] = ok []
each f (a ∷ rest) = do b ← f a; bs ← each f rest; ok (b ∷ bs)

module _ {R : Type 0} ⦃F : Float R⦄ where
  unfoldable pub required_account_id : Dict (Value R) → Result Text
  unfolding get_first str_or strip
  required_account_id row =
      let account_id = strip (
        str_or
          (get_first (codes "account_id")
            (codes "account"
              ∷ codes "accountId"
              ∷ codes "accountid"
              ∷ codes "fund_account"
              ∷ codes "fund_account_id"
              ∷ [])
            row)
          []) in
      if is_empty account_id then raise value_error else ok account_id

  -- `to_number` of normalize_account_total (backend/core/asset_math.py).
  abbrev to_number : Value R → R
  to_number v = elim (number_or_zero v) [ none ↦ zero_f | some x ↦ round 2 x ]

  unfoldable pub normalize_account_total : Value R → R → R → R → R
  normalize_account_total total_asset available_cash frozen_cash market_value =
      let derived = round 2 (
        add (add (to_number (num available_cash)) (to_number (num frozen_cash)))
          (to_number (num market_value))) in
      if eq derived zero_f then to_number total_asset else derived

  unfoldable pub standardize_account : Dict (Value R) → Result (Account R)
  unfolding get to_float required_account_id normalize_account_total ◌>>=◌
  standardize_account row = do
    let available_cash = to_float 2 (get (codes "available_cash") row)
    let frozen_cash = to_float 2 (get (codes "frozen_cash") row)
    let market_value = to_float 2 (get (codes "market_value") row)
    account_id ← required_account_id row
    ok record {
      account_id = account_id;
      total_asset =
          normalize_account_total (get (codes "total_asset") row) available_cash frozen_cash
            market_value;
      available_cash = available_cash;
      frozen_cash = frozen_cash;
      market_value = market_value;
      today_pnl = to_float 2 (get (codes "today_pnl") row);
    }

  abbrev name_of : Dict (Value R) → Text
  name_of row = str_or (get_first (codes "name") (codes "symbol" ∷ []) row) []

  abbrev pub position : Dict (Value R) → Result (Position R)
  position row = do
    account_id ← required_account_id row
    quantity ← to_int (get (codes "quantity") row)
    available_quantity ← to_int (get (codes "available_quantity") row)
    ok record {
      account_id = account_id;
      symbol = normalize_symbol (get (codes "symbol") row);
      name = name_of row;
      quantity = quantity;
      available_quantity = available_quantity;
      cost_price = to_float 4 (get (codes "cost_price") row);
      last_price = to_float 4 (get (codes "last_price") row);
    }

  unfoldable pub standardize_positions : List (Dict (Value R)) → Result (List (Position R))
  unfolding each get get_first str_or to_int to_float required_account_id normalize_symbol ◌>>=◌
  standardize_positions rows = each position rows

  abbrev pub order_row : Dict (Value R) → Result (OrderRow R)
  order_row row = do
    account_id ← required_account_id row
    quantity ← to_int (get (codes "quantity") row)
    filled_quantity ← to_int (get (codes "filled_quantity") row)
    ok record {
      row = row;
      account_id = account_id;
      symbol = normalize_symbol (get (codes "symbol") row);
      name = name_of row;
      side = upper (str_or (get (codes "side") row) []);
      price = to_float 4 (get (codes "price") row);
      quantity = quantity;
      filled_quantity = filled_quantity;
    }

  unfoldable pub standardize_orders : List (Dict (Value R)) → Result (List (OrderRow R))
  unfolding each get get_first str_or to_int to_float required_account_id normalize_symbol upper
      ◌>>=◌
  standardize_orders rows = each order_row rows

  -- `row.get("amount") or price * quantity`
  abbrev amount_of : Dict (Value R) → R → ℤ → R
  amount_of row price quantity =
      to_float 2 (or_value (get (codes "amount") row) (num (mul price (of_ℤ quantity))))

  abbrev pub trade_row : Dict (Value R) → Result (TradeRow R)
  trade_row row = do
    let price = to_float 4 (get (codes "price") row)
    quantity ← to_int (get (codes "quantity") row)
    account_id ← required_account_id row
    ok record {
      row = row;
      account_id = account_id;
      symbol = normalize_symbol (get (codes "symbol") row);
      name = name_of row;
      side = upper (str_or (get (codes "side") row) []);
      price = price;
      quantity = quantity;
      amount = amount_of row price quantity;
      fee = to_float 2 (get (codes "fee") row);
    }

  unfoldable pub standardize_trades : List (Dict (Value R)) → Result (List (TradeRow R))
  unfolding each get get_first str_or to_int to_float required_account_id normalize_symbol upper
      ◌>>=◌
  standardize_trades rows = each trade_row rows
