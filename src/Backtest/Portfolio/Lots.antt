-- ===== src/Backtest/Portfolio/Lots.antt =====
-- What a sale does to the lots of a symbol.
use qmt_trading.Base.{ℕ, ◌+◌, ◌-◌, ◌≤◌, ◌<◌, ◌≡◌, refl, List, [], ◌∷◌, ◌++◌, arith, min, All}
use qmt_trading.Text.{Text}
use qmt_trading.Float.{Float}
use qmt_trading.Backtest.Portfolio.{Lot, sellable, taken, consumed_after, consume}

module _ {R : Type 0} where
  abbrev pub shares : List (Lot R) → ℕ
  shares [] = 0
  shares (l ∷ lots) = l.quantity + shares lots

  pub shares-append : (xs ys : List (Lot R)) → shares (xs ++ ys) ≡ shares xs + shares ys
  shares-append [] ys = omega arith
  shares-append (x ∷ xs) ys = omega (arith, shares-append xs ys)

  pub sellable-le-shares : (date : Text) (lots : List (Lot R)) → sellable date lots ≤ shares lots
  unfolding sellable
  sellable-le-shares date [] = omega arith
  sellable-le-shares date (l ∷ lots) = ground (arith, sellable-le-shares date lots)

-- A lot that holds shares.
abbrev pub IsOpen : {R : Type 0} → Lot R → Type 0
IsOpen l = 0 < l.quantity

module _ {R : Type 0} ⦃F : Float R⦄ where
  -- A sale takes what it asks for, or all that may be sold, and no more.
  pub shares-consume :
      (date : Text) (quantity : ℕ) (c : R) (lots : List (Lot R))
      → shares (consume date quantity c lots).1 + min quantity (sellable date lots) ≡ shares lots
  unfolding consume sellable
  shares-consume date quantity c [] = omega arith
  shares-consume date quantity c (l ∷ lots) = ground (
    arith,
    shares-consume date (quantity - taken date quantity l) (consumed_after date quantity l c) lots,
  )

  -- A sale lowers what may still be sold at the same date by what it took.
  pub sellable-consume :
      (date : Text) (quantity : ℕ) (c : R) (lots : List (Lot R))
      → sellable date (consume date quantity c lots).1 + min quantity (sellable date lots)
        ≡ sellable date lots
  unfolding consume sellable
  sellable-consume date quantity c [] = omega arith
  sellable-consume date quantity c (l ∷ lots) = ground (
    arith,
    sellable-consume date (quantity - taken date quantity l) (consumed_after date quantity l c)
        lots,
  )

  -- Every lot that a sale leaves holds shares.
  pub consume-IsOpen :
      (date : Text) (quantity : ℕ) (c : R) (lots : List (Lot R))
      → All IsOpen (consume date quantity c lots).1
  unfolding consume
  consume-IsOpen date quantity c [] = tt
  consume-IsOpen date quantity c (l ∷ lots) = ground (
    arith,
    consume-IsOpen date (quantity - taken date quantity l) (consumed_after date quantity l c) lots,
  )

  -- The date and the shares of each lot.
  abbrev pub holdings : List (Lot R) → List (Text × ℕ)
  holdings [] = []
  holdings (l ∷ lots) = (l.trade_date, l.quantity) ∷ holdings lots

  holdings-consume_zero :
      (date : Text) (c : R) (lots : List (Lot R))
      → All IsOpen lots
      → holdings (consume date 0 c lots).1 ≡ holdings lots
  unfolding consume
  holdings-consume_zero date c [] h = refl
  holdings-consume_zero date c (l ∷ lots) h = ground (arith, holdings-consume_zero date c lots h.1)

  -- A sale of no more than the early lots may give leaves the late lots, each of which holds shares,
  -- with their dates and shares: lots are used up in the order in which they were opened.
  pub consume_in_order :
      (date : Text) (quantity : ℕ) (c : R) (early late : List (Lot R))
      → All IsOpen late
      → quantity ≤ sellable date early
      → holdings (consume date quantity c (early ++ late)).1
        ≡ holdings (consume date quantity c early).1 ++ holdings late
  unfolding consume sellable
  consume_in_order date quantity c [] late h q =
      let z : quantity ≡ 0 = omega arith in rw z (holdings-consume_zero date c late h)
  consume_in_order date quantity c (l ∷ early) late h q = ground (
    arith,
    consume_in_order date (quantity - taken date quantity l) (consumed_after date quantity l c)
        early late,
  )
