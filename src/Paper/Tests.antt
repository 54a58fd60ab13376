-- ===== src/Paper/Tests.antt =====
-- The paper exchange on whole numbers.
use kairos_agent.Base.{ℕ, ◌≡◌, refl, false, Option, none, some, List, [], ◌∷◌}
use kairos_agent.Base.Int.{ℤ, pos, ◌+ℤ◌, ◌-ℤ◌, ◌*ℤ◌}
use kairos_agent.Base.Dict.{lookup, insert}
use kairos_agent.Entity.Decimal.{DecimalOps}
use kairos_agent.Entity.IntDecimals.{int_decimals}
use kairos_agent.Entity.Order.{
  OrderSide, side_buy, side_sell, order_limit, order_pending, order_submitted, order_canceled,
  Order,
}
use kairos_agent.Entity.Position.{position_long, Position}
use kairos_agent.Paper.{
  Simulator, new_simulator, submit_order, cancel_order, get_position, update_market_price,
  simulate_fill,
}
use kairos_agent.Paper.Terminal.{Op, price_of, filling_of, run, canceled_never_fills}
use kairos_agent.Paper.Closing.{Fill, fills, booked, closed_long_stays}

abbrev d : DecimalOps ℤ
d = int_decimals

abbrev sized : OrderSide → ℕ → Order ℤ
sized side n = record {
  id = "o";
  client_order_id = "";
  exchange_order_id = "";
  strategy_id = "s";
  symbol = "BTCUSDT";
  side = side;
  order_type = order_limit;
  order_status = order_pending;
  time_in_force = "GTC";
  quantity = pos n;
  price = pos 50;
  filled_qty = pos 0;
  remaining_qty = pos n;
  avg_fill_price = pos 0;
  created_at_utc = pos 1;
  updated_at_utc = pos 1;
  submitted_at_utc = none;
  filled_at_utc = none;
}

abbrev loaded : Simulator ℤ
loaded = (submit_order d "7" (pos 7) (sized side_buy 2) (new_simulator d (pos 1000))).1

abbrev kept : Order ℤ
kept = record (sized side_buy 2) {
  exchange_order_id = "paper_7";
  order_status = order_submitted;
  submitted_at_utc = some (pos 7);
}

-- Without a commission, and with a whole slippage.
abbrev free : Simulator ℤ
free = record loaded { commission_rate = pos 0; slippage_bps = pos 10_000 }

abbrev quantity_of : Option (Position ℤ) → ℤ
quantity_of none = pos 0
quantity_of (some p) = p.position_quantity

fills_at_market :
    let s =
      simulate_fill d false "paper_7" "p"
        (pos 9)
        (update_market_price d "BTCUSDT" (pos 60) (pos 8) free) in
    (s.balance ≡ pos 760) × (quantity_of (get_position d "BTCUSDT" s) ≡ pos 2)
unfolding simulate_fill update_market_price submit_order new_simulator lookup insert ◌+ℤ◌ ◌-ℤ◌ ◌*ℤ◌
fills_at_market = (refl, refl)

abbrev busy : List (Op ℤ)
busy = price_of "BTCUSDT" (pos 60) (pos 9) ∷ filling_of false "paper_7" "p" (pos 10) ∷ []

canceled_never_fills_example :
    let last = run d busy (cancel_order d "paper_7" (pos 8) loaded).1 in
    (lookup "paper_7" last.orders
      ≡ some (record kept { order_status = order_canceled; updated_at_utc = pos 8 }))
    × (simulate_fill d false "paper_7" "p" (pos 11) last ≡ last)
unfolding cancel_order submit_order new_simulator lookup insert
canceled_never_fills_example =
    canceled_never_fills d busy "paper_7" "p" (pos 8) (pos 11) false loaded kept refl refl
      (tt, (tt, tt))

abbrev closed : Position ℤ
closed = record {
  position_id = "p";
  position_strategy_id = "s";
  position_symbol = "BTCUSDT";
  position_side = position_long;
  position_quantity = pos 0;
  entry_price = pos 50;
  current_price = pos 50;
  unrealized_pnl = pos 0;
  realized_pnl = pos 0;
  opened_at_utc = pos 1;
  position_updated_at_utc = pos 1;
  closed_at_utc = none;
}

abbrev sales : List (Fill ℤ)
sales = record { order = sized side_sell 3; price = pos 70; commission = pos 1; now = pos 9 } ∷ []

closed_long_stays_example :
    let last = fills d sales closed in
    (last.position_quantity ≡ pos 0)
    × (last.position_side ≡ position_long)
    × (last.realized_pnl ≡ pos 59)
unfolding booked ◌+ℤ◌ ◌-ℤ◌ ◌*ℤ◌
closed_long_stays_example = closed_long_stays d sales closed refl refl ((refl, refl), tt)
