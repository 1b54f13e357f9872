-- ===== src/Backtest/Signals/Accepted.antt =====
-- The signals that the validation lets through.
use qmt_trading.Base.{
  ◌≡◌, refl, ap, Bool, true, false, not, ◌||◌, Option, none, some, List, [], ◌∷◌, map, All,
}
use qmt_trading.Text.{Text, codes, strip, upper, is_empty, text_lt, prefix}
use qmt_trading.Text.Symbol.{is_symbol}
use qmt_trading.Dict.{Dict, lookup}
use qmt_trading.Float.{Float, zero_f, le}
use qmt_trading.Value.{Value, to_text, to_float}
use qmt_trading.Backtest.Types.{Signal, Fault, Result, ok, raise}
use qmt_trading.Backtest.Ensuring.{Ensures, Ensures-unit}
use qmt_trading.Backtest.Signals.{
  ◌>>=◌, Item, dict, other_item, Returned, listed, other_result, Period, demand, or_fault,
  validate_signal, validate_item, validate_items, validate_signals,
}

demand-true : (b : Bool) → (fault : Fault) → Ensures (λ u. b ≡ true) (demand b fault)
demand-true true fault = refl
demand-true false fault = tt

then-Ensures :
    {A B : Type 0} (P : A → Type 0) (Q : B → Type 0) (m : Result A) (f : A → Result B)
    → Ensures P m
    → ((a : A) → P a → Ensures Q (f a))
    → Ensures Q (m >>= f)
unfolding ◌>>=◌
then-Ensures P Q (ok a) f h k = k a h
then-Ensures P Q (raise e) f h k = tt

-- The steps that nothing is asked of.
skip :
    {A B : Type 0} (Q : B → Type 0) (m : Result A) (f : A → Result B)
    → ((a : A) → Ensures Q (f a))
    → Ensures Q (m >>= f)
skip Q m f k = then-Ensures (λ a. Unit {0}) Q m f (Ensures-unit m) (λ a u. k a)

check :
    {B : Type 0} (Q : B → Type 0) (b : Bool) (fault : Fault) (f : Unit {0} → Result B)
    → (b ≡ true → Ensures Q (f tt))
    → Ensures Q (demand b fault >>= f)
check Q b fault f k =
    then-Ensures (λ u. b ≡ true) Q (demand b fault) f (demand-true b fault) (λ u. k)

or_fault-some :
    {A : Type 0} (fault : Fault) (o : Option A) → Ensures (λ a. o ≡ some a) (or_fault fault o)
or_fault-some fault none = tt
or_fault-some fault (some a) = refl

present :
    {A B : Type 0} (Q : B → Type 0) (fault : Fault) (o : Option A) (f : A → Result B)
    → ((a : A) → o ≡ some a → Ensures Q (f a))
    → Ensures Q (or_fault fault o >>= f)
present Q fault o f k =
    then-Ensures (λ a. o ≡ some a) Q (or_fault fault o) f (or_fault-some fault o) k

module _ {R : Type 0} ⦃F : Float R⦄ where
  -- The symbol and the price are those of the signal's dict, the symbol a stock code and the price not
  -- at or below zero. There is a reason, and a date that is in the task's range and not after the
  -- current day.
  pub record Accepted (period : Period) (s : Signal R) : Type 0 where
    pub named :
        (v : Value R) × (lookup (codes "symbol") s.extra ≡ some v)
        × (s.symbol ≡ upper (strip (to_text v)))
    pub priced :
        (v : Value R) × (lookup (codes "price") s.extra ≡ some v) × (to_float v ≡ some s.price)
    pub code : is_symbol s.symbol ≡ true
    pub positive : not (le s.price zero_f) ≡ true
    pub reasoned : not (is_empty s.reason) ≡ true
    pub no_future : not (text_lt period.current_date (prefix 10 s.signal_time)) ≡ true
    pub in_range :
        not (
          text_lt (prefix 10 s.signal_time) period.start_date
          || text_lt period.end_date (prefix 10 s.signal_time))
        ≡ true

  -- A signal of the dict that passes.
  abbrev Validated : Period → Dict (Value R) → Signal R → Type 0
  Validated period d s = Accepted period s × (s.extra ≡ d)

  validate_signal-Validated :
      (read_time : Text → Option Text) (period : Period) (d : Dict (Value R))
      → Ensures (Validated period d) (validate_signal read_time period d)
  unfolding validate_signal
  validate_signal-Validated read_time period d =
      let Q = Validated period d in
      present Q _ _ _ λ symbol_value at_symbol. skip Q _ _ λ action_value.
        present Q _ _ _ λ price_value at_price. skip Q _ _ λ reason_value. skip Q _ _ λ action.
          check Q _ _ _ λ code. present Q _ _ _ λ price at_number. check Q _ _ _ λ positive.
            skip Q _ _ λ amount. check Q _ _ _ λ reasoned. skip Q _ _ λ signal_time.
              check Q _ _ _ λ no_future. check Q _ _ _ λ in_range. (
                record {
                  named = (symbol_value, at_symbol, refl);
                  priced = (price_value, at_price, at_number);
                  code = code;
                  positive = positive;
                  reasoned = reasoned;
                  no_future = no_future;
                  in_range = in_range;
                },
                refl,
              )

  -- The item that a signal comes from: its dict.
  abbrev pub item_of : Signal R → Item R
  item_of s = dict s.extra

  abbrev OfItem : Period → Item R → Signal R → Type 0
  OfItem period i s = Accepted period s × (item_of s ≡ i)

  of_dict :
      (period : Period) (d : Dict (Value R)) (r : Result (Signal R))
      → Ensures (Validated period d) r
      → Ensures (OfItem period (dict d)) r
  of_dict period d (ok s) h = (h.0, ap (λ e. dict e) h.1)
  of_dict period d (raise e) h = tt

  validate_item-OfItem :
      (read_time : Text → Option Text) (period : Period) (i : Item R)
      → Ensures (OfItem period i) (validate_item read_time period i)
  validate_item-OfItem read_time period other_item = tt
  validate_item-OfItem read_time period (dict d) =
      of_dict period d _ (validate_signal-Validated read_time period d)

  abbrev OfItems : Period → List (Item R) → List (Signal R) → Type 0
  OfItems period is signals = (map item_of signals ≡ is) × All (Accepted period) signals

  validate_items-OfItems :
      (read_time : Text → Option Text) (period : Period) (is : List (Item R))
      → Ensures (OfItems period is) (validate_items read_time period is)
  unfolding validate_items
  validate_items-OfItems read_time period [] = (refl, tt)
  validate_items-OfItems read_time period (i ∷ is) =
      then-Ensures (OfItem period i) _ (validate_item read_time period i) _
        (validate_item-OfItem read_time period i)
        λ s a.
          then-Ensures (OfItems period is) _ (validate_items read_time period is) _
            (validate_items-OfItems read_time period is)
            λ signals h. (rw (a.1, h.0) refl, (a.0, h.1))

  abbrev pub items_of : Returned R → List (Item R)
  items_of other_result = []
  items_of (listed is) = is

  -- Where the validation does not raise, each item that the strategy returned has become one signal, in
  -- the same order, and each signal has the symbol of its item in upper case, which is a stock code,
  -- the price of its item, which is not at or below zero, a reason, and a date that is in the range of
  -- the task and not after the current day.
  pub validate_signals-Accepted :
      (read_time : Text → Option Text) (period : Period) (returned : Returned R)
      → Ensures
          (λ signals. (map item_of signals ≡ items_of returned) × All (Accepted period) signals)
          (validate_signals read_time period returned)
  unfolding validate_signals
  validate_signals-Accepted read_time period other_result = tt
  validate_signals-Accepted read_time period (listed is) =
      validate_items-OfItems read_time period is
