-- ===== src/Reconciliation/Tests.antt =====
-- Reconciliation at concrete orders and positions.
use kairos_agent.Base.{ℕ, String, ◌≡◌, refl, inr, Option, none, some, List, [], ◌∷◌, map}
use kairos_agent.Base.Int.{ℤ, pos}
use kairos_agent.Base.Dict.{Dict, lookup, insert}
use kairos_agent.Entity.Decimal.{DecimalOps}
use kairos_agent.Entity.IntDecimals.{int_decimals}
use kairos_agent.Entity.Order.{
  side_buy, order_limit, OrderStatus, order_pending, order_submitted, order_partial, order_canceled,
  Order,
}
use kairos_agent.Entity.Position.{
  PositionSide, position_long, position_short, position_flat, Position,
}
use kairos_agent.Reconciliation.{
  local_unavailable, exchange_unavailable, new_result, listed, unavailable, index,
  order_states_differ, order_loop, reconcile_orders, position_loop, orders_failed, reconcile_all,
}
use kairos_agent.Reconciliation.Positions.{side_after, positions_keep_sides}

abbrev d : DecimalOps ℤ
d = int_decimals

abbrev order : String → String → OrderStatus → ℕ → Order ℤ
order id exchange_id status filled = record {
  id = id;
  client_order_id = "";
  exchange_order_id = exchange_id;
  strategy_id = "s";
  symbol = "BTCUSDT";
  side = side_buy;
  order_type = order_limit;
  order_status = status;
  time_in_force = "GTC";
  quantity = pos 9;
  price = pos 50;
  filled_qty = pos filled;
  remaining_qty = pos 0;
  avg_fill_price = pos 50;
  created_at_utc = pos 1;
  updated_at_utc = pos 1;
  submitted_at_utc = none;
  filled_at_utc = none;
}

-- One order is new, one is partly filled on the exchange, and one is no longer open there.
abbrev local : List (Order ℤ)
local =
    order "a" "" order_pending 0
    ∷ order "b" "x1" order_submitted 0
    ∷ order "c" "x2" order_submitted 0
    ∷ []

abbrev exchange : List (Order ℤ)
exchange = order "" "x1" order_partial 4 ∷ []

abbrev stores : Order ℤ → Option String
stores _ = none

abbrev at : Order ℤ → ℤ
at _ = pos 7

abbrev booked : Dict (Order ℤ)
booked = index (λ o. o.exchange_order_id) [] exchange

statuses :
    map (λ o. o.order_status) (order_loop d stores at booked local (new_result (pos 5))).objects
    ≡ order_pending ∷ order_partial ∷ order_canceled ∷ []
unfolding order_loop index insert lookup order_states_differ
statuses = refl

abbrev position : PositionSide → ℕ → Position ℤ
position side quantity = record {
  position_id = "p";
  position_strategy_id = "s";
  position_symbol = "BTCUSDT";
  position_side = side;
  position_quantity = pos quantity;
  entry_price = pos 50;
  current_price = pos 50;
  unrealized_pnl = pos 0;
  realized_pnl = pos 0;
  opened_at_utc = pos 1;
  position_updated_at_utc = pos 1;
  closed_at_utc = none;
}

-- The exchange is short, the local position stays long.
abbrev flipped : Dict (Position ℤ)
flipped = ("BTCUSDT", position position_short 2) ∷ []

positions_keep_sides_example :
    map
      (λ q. q.position_side)
      (position_loop d
        (λ _. none)
        (λ _. pos 7)
        flipped
        (position position_long 2 ∷ [])
        (new_result (pos 5))).objects
    ≡ position_long ∷ []
unfolding lookup side_after
positions_keep_sides_example =
    positions_keep_sides d (λ _. none) (λ _. pos 7) flipped (position position_long 2 ∷ [])
      (new_result (pos 5))

closes :
    map
      (λ q. q.position_side)
      (position_loop d
        (λ _. none)
        (λ _. pos 7)
        []
        (position position_long 2 ∷ [])
        (new_result (pos 5))).objects
    ≡ position_flat ∷ []
unfolding position_loop lookup
closes = refl

orders_first :
    reconcile_all {D = ℤ}
      (reconcile_orders d stores (pos 5) at (pos 9) (listed local) (unavailable "down"))
      (inr (local_unavailable "closed"))
    ≡ some (orders_failed (exchange_unavailable "down"))
unfolding reconcile_all reconcile_orders
orders_first = refl
