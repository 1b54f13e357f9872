-- ===== src/Backtest/Portfolio.antt =====
-- class Portfolio: cash, share counts, cost and the lots that each purchase opens.
pub mod Lots
pub mod Consistent
use qmt_trading.Base.{
  ℕ, ◌+◌, ◌-◌, ◌*◌, Bool, ◌&&◌, List, [], ◌∷◌, ◌++◌, ltb, ◌==◌, if◌then◌else◌, sum, map, min, keep,
}
use qmt_trading.Text.{Text, text_lt}
use qmt_trading.Dict.{Dict, lookup, insert, get_or}
use qmt_trading.Float.{Float, zero_f, of_ℕ, add, sub, mul, div, round, fmax}

pub record Lot (R : Type 0) : Type 0 where
  pub trade_date : Text
  pub quantity : ℕ
  pub cost : R

pub record Portfolio (R : Type 0) : Type 0 where
  pub cash : R
  pub positions : Dict ℕ
  pub position_cost : Dict R
  pub lots : Dict (List (Lot R))

module _ {R : Type 0} where
  unfoldable pub new_portfolio : R → Portfolio R
  new_portfolio initial_cash = record {
    cash = initial_cash;
    positions = [];
    position_cost = [];
    lots = [];
  }

  unfoldable pub position : Portfolio R → Text → ℕ
  position p symbol = get_or symbol 0 p.positions

  abbrev pub lots_of : Portfolio R → Text → List (Lot R)
  lots_of p symbol = get_or symbol [] p.lots

  -- The shares of the lots opened before the date.
  unfoldable pub sellable : Text → List (Lot R) → ℕ
  sellable date [] = 0
  sellable date (l ∷ lots) =
      if text_lt l.trade_date date then l.quantity + sellable date lots else sellable date lots

  unfoldable pub available_position : Portfolio R → Text → Text → ℕ
  unfolding sellable
  available_position p symbol date = sellable date (lots_of p symbol)

module _ {R : Type 0} ⦃F : Float R⦄ where
  unfoldable pub buy : Text → Text → R → ℕ → R → Portfolio R → Portfolio R
  unfolding position
  buy symbol date price quantity fee p =
      let total_cost = add (mul price (of_ℕ quantity)) fee in
      let lot : Lot R = record { trade_date = date; quantity = quantity; cost = total_cost } in
      record {
        cash = sub p.cash total_cost;
        positions = insert symbol (position p symbol + quantity) p.positions;
        position_cost =
            insert symbol (add (get_or symbol zero_f p.position_cost) total_cost) p.position_cost;
        lots = insert symbol (lots_of p symbol ++ lot ∷ []) p.lots;
      }

  -- The shares that a sale at the date takes from one lot.
  abbrev pub taken : Text → ℕ → Lot R → ℕ
  taken date remaining lot =
      if ltb 0 remaining && text_lt lot.trade_date date then min lot.quantity remaining else 0

  abbrev pub consumed_after : Text → ℕ → Lot R → R → R
  consumed_after date remaining lot consumed =
      if ltb 0 remaining && text_lt lot.trade_date date
      then add consumed (
          mul (if lot.quantity == 0 then zero_f else div lot.cost (of_ℕ lot.quantity))
            (of_ℕ (taken date remaining lot)))
      else consumed

  -- What is left of a lot, with its share of the cost.
  abbrev pub rest_of : Lot R → ℕ → Lot R
  rest_of lot left = record lot {
    quantity = left;
    cost = div (mul lot.cost (of_ℕ left)) (of_ℕ lot.quantity);
  }

  -- The loop of `_consume_lots`: the consumed cost, and the lots that stay.
  unfoldable pub consume : Text → ℕ → R → List (Lot R) → R × List (Lot R)
  consume date remaining consumed [] = (consumed, [])
  consume date remaining consumed (lot ∷ lots) =
      let used = taken date remaining lot in
      let left = lot.quantity - used in
      let (total, next) =
        consume date (remaining - used) (consumed_after date remaining lot consumed) lots in
      (total, if ltb 0 left then rest_of lot left ∷ next else next)

  unfoldable pub sell : Text → Text → R → ℕ → R → R → Portfolio R → Portfolio R × R
  unfolding position consume
  sell symbol date price quantity fee stamp_tax p =
      let (consumed_cost, next_lots) = consume date quantity zero_f (lots_of p symbol) in
      let gross = mul price (of_ℕ quantity) in
      let p' : Portfolio R = record {
        cash = add p.cash (sub (sub gross fee) stamp_tax);
        positions = insert symbol (position p symbol - quantity) p.positions;
        position_cost =
            insert symbol (fmax (sub (get_or symbol zero_f p.position_cost) consumed_cost) zero_f)
              p.position_cost;
        lots = insert symbol next_lots p.lots;
      } in
      (p', round 2 (sub (sub (sub gross consumed_cost) fee) stamp_tax))
