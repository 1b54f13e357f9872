-- ===== src/Backtest/Portfolio/Consistent.antt =====
-- The share counts of a portfolio and the sums of its lots.
use qmt_trading.Base.{
  ℕ, ◌+◌, ◌-◌, ◌≤◌, ◌<◌, ◌≡◌, refl, inl, inr, arith, All, All-append, Bool-cases, if◌then◌else◌,
}
use qmt_trading.Text.{Text, text_eq}
use qmt_trading.Dict.{get_or, get_or-insert}
use qmt_trading.Float.{Float, zero_f}
use qmt_trading.Backtest.Portfolio.{
  Portfolio, new_portfolio, position, lots_of, available_position, buy, sell,
}
use qmt_trading.Backtest.Portfolio.Lots.{
  shares, shares-append, sellable-le-shares, IsOpen, shares-consume, consume-IsOpen,
}

module _ {R : Type 0} where
  -- For every symbol the count is the sum of its lots, each of which holds shares.
  abbrev pub IsConsistent : Portfolio R → Type 0
  IsConsistent p =
      (symbol : Text)
      → (position p symbol ≡ shares (lots_of p symbol)) × All IsOpen (lots_of p symbol)

  pub new_portfolio-IsConsistent : (cash : R) → IsConsistent (new_portfolio cash)
  unfolding new_portfolio position get_or
  new_portfolio-IsConsistent cash symbol = (refl, tt)

  -- In a consistent portfolio no more can be sold than is held.
  pub available-le-position :
      (p : Portfolio R) (symbol date : Text)
      → IsConsistent p
      → available_position p symbol date ≤ position p symbol
  unfolding available_position
  available-le-position p symbol date h =
      omega (arith, (h symbol).0, sellable-le-shares date (lots_of p symbol))

module _ {R : Type 0} ⦃F : Float R⦄ where
  pub position-buy :
      (symbol other date : Text) (price : R) (quantity : ℕ) (fee : R) (p : Portfolio R)
      → position (buy symbol date price quantity fee p) other
        ≡ (if text_eq symbol other then position p symbol + quantity else position p other)
  unfolding buy position
  position-buy symbol other date price quantity fee p = rw get_or-insert

  -- A purchase of some shares keeps the counts and the lots in step.
  pub buy-IsConsistent :
      (symbol date : Text) (price : R) (quantity : ℕ) (fee : R) (p : Portfolio R)
      → 0 < quantity
      → IsConsistent p
      → IsConsistent (buy symbol date price quantity fee p)
  unfolding buy position
  buy-IsConsistent symbol date price quantity fee p q h other =
      simp get_or-insert (elim (Bool-cases (text_eq symbol other)) [
        | inl same ↦ rw same (
          omega (arith, (h symbol).0, shares-append (lots_of p symbol) _),
          All-append IsOpen (lots_of p symbol) _ (h symbol).1 (q, tt),
        )
        | inr different ↦ rw different (h other)
      ])

  pub position-sell :
      (symbol other date : Text) (price : R) (quantity : ℕ) (fee stamp_tax : R) (p : Portfolio R)
      → position (sell symbol date price quantity fee stamp_tax p).0 other
        ≡ (if text_eq symbol other then position p symbol - quantity else position p other)
  unfolding sell position
  position-sell symbol other date price quantity fee stamp_tax p = rw get_or-insert

  -- A sale of shares that are available keeps them in step: no count is cut off at zero.
  pub sell-IsConsistent :
      (symbol date : Text) (price : R) (quantity : ℕ) (fee stamp_tax : R) (p : Portfolio R)
      → quantity ≤ available_position p symbol date
      → IsConsistent p
      → IsConsistent (sell symbol date price quantity fee stamp_tax p).0
  unfolding sell position available_position
  sell-IsConsistent symbol date price quantity fee stamp_tax p q h other =
      let lots = lots_of p symbol in
      simp get_or-insert (elim (Bool-cases (text_eq symbol other)) [
        | inl same ↦ rw same (
          omega (arith, (h symbol).0, shares-consume date quantity zero_f lots),
          consume-IsOpen date quantity zero_f lots,
        )
        | inr different ↦ rw different (h other)
      ])
