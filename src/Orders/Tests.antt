-- ===== src/Orders/Tests.antt =====
-- The order service on concrete inputs. The world is the store of the orders and the number of the
-- orders sent.
use kairos_agent.Base.{
  ℕ, ◌+◌, String, ◌≡◌, refl, ◌⊎◌, inl, inr, true, Option, none, some, [], ◌∷◌, str_eq,
  if◌then◌else◌,
}
use kairos_agent.Base.Int.{ℤ, pos, ◌-ℤ◌, ◌*ℤ◌}
use kairos_agent.Base.Dict.{Dict, lookup, insert}
use kairos_agent.Entity.IntDecimals.{int_decimals}
use kairos_agent.Entity.Order.{side_buy, order_limit, Order}
use kairos_agent.Entity.Symbol.{
  symbol_trading, Symbol, validate_quantity, validate_price, validate_notional,
}
use kairos_agent.Entity.Position.{Balance}
use kairos_agent.Entity.Strategy.{strategy_active, Strategy, has_reached_daily_loss_limit}
use kairos_agent.Risk.{validate_order, market_price, new_position_size, insufficient_balance}
use kairos_agent.Orders.{not_found, risk_rejected, CreateOrderRequest, OrderService, check_entry}
use kairos_agent.Orders.Create.{get_balance, Clock, requested, read_context, create_order}

abbrev World : Type 0
World = Dict (Order ℤ) × ℕ

-- What the store has under a key, if it is the order's own id.
unfoldable own : String → Option (Order ℤ) → Order ℤ ⊎ String
own id none = inr "entity not found"
own id (some o) = if str_eq o.id id then inl o else inr "entity not found"

abbrev trader : Strategy ℤ
trader = record {
  strategy_key = "s";
  strategy_name = "grid";
  strategy_type = "live";
  strategy_status = strategy_active;
  strategy_symbol = "BTC";
  max_position_size = pos 10;
  max_daily_loss = pos 100;
  current_pnl = pos 0;
  daily_pnl = pos 0;
  total_trades = pos 0;
  winning_trades = pos 0;
  losing_trades = pos 0;
  strategy_created_at_utc = pos 1;
  strategy_updated_at_utc = pos 1;
  started_at_utc = none;
  stopped_at_utc = none;
}

abbrev btc : Symbol ℤ
btc = record {
  name = "BTC";
  base_currency = "BTC";
  quote_currency = "USDT";
  symbol_status = symbol_trading;
  min_order_qty = pos 1;
  max_order_qty = pos 100;
  min_price = pos 10;
  max_price = pos 1000;
  tick_size = pos 5;
  step_size = pos 1;
  min_notional = pos 20;
  maker_fee = pos 0;
  taker_fee = pos 0;
  symbol_updated_at_utc = pos 1;
}

abbrev purse : ℕ → Balance ℤ
purse n = record {
  asset = "USDT";
  total = pos n;
  available = pos n;
  locked = pos 0;
  balance_updated_at_utc = pos 1;
}

abbrev service : ℕ → OrderService World ℤ
service money = record {
  repos = record {
    get_strategy = λ id w. inl trader;
    get_symbol = λ name w. inl btc;
    get_position = λ id name w. not_found;
    get_balances = λ w. inl (some (purse money ∷ []));
    get_order = λ id w. own id (lookup id w.0);
    list_active = λ w. inl [];
    create = λ o w. (none, (insert o.id o w.0, w.1));
    update = λ o w. (none, (insert o.id o w.0, w.1));
  };
  connector = record {
    submit = λ o w. (inl "x1", (w.0, w.1 + 1));
    cancel = λ x w. (none, w);
    query = λ x w. (inr "down", w);
  };
  engine = record { publisher = true };
  publisher = true;
  trading_gate = none;
}

abbrev request : CreateOrderRequest ℤ
request = record {
  strategy_id = "s";
  symbol = "BTC";
  side = side_buy;
  order_type = order_limit;
  quantity = pos 4;
  price = pos 50;
  time_in_force = "GTC";
}

abbrev clock : Clock
clock = record { id_nanos = pos 7; client_id_nanos = pos 8; created = pos 9; updated = pos 10 }

abbrev start : World
start = ([], 0)

abbrev order : Order ℤ
order = requested int_decimals clock request

abbrev stored : World
stored = (("ord_7", order) ∷ [], 0)

-- The order costs 200.
too_poor :
    (create_order int_decimals clock request (service 199) start).0
    ≡ inr (risk_rejected insufficient_balance)
unfolding create_order read_context check_entry get_balance validate_order validate_quantity
    validate_price validate_notional market_price has_reached_daily_loss_limit new_position_size
    ◌*ℤ◌ ◌-ℤ◌
too_poor = refl
