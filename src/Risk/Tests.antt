-- ===== src/Risk/Tests.antt =====
-- The risk engine on whole numbers.
use kairos_agent.Base.{ℕ, ◌≡◌, refl, ◌≢◌, true, none, some, List, [], ◌∷◌}
use kairos_agent.Base.Int.{ℤ, pos, negsuc, ◌+ℤ◌, ◌-ℤ◌, ◌*ℤ◌}
use kairos_agent.Entity.Decimal.{DecimalOps}
use kairos_agent.Entity.IntDecimals.{int_decimals, int_decimals-DecimalLaws}
use kairos_agent.Entity.Order.{OrderSide, side_buy, side_sell, order_limit, order_pending, Order}
use kairos_agent.Entity.Symbol.{
  symbol_trading, Symbol, validate_quantity, validate_price, validate_notional,
}
use kairos_agent.Entity.Position.{position_long, Position}
use kairos_agent.Entity.Strategy.{strategy_active, Strategy, has_reached_daily_loss_limit}
use kairos_agent.Risk.{
  position_limit_exceeded, violation, warning, Engine, market_price, new_position_size,
  loss_warning, validate_order, should_block_new_entries,
}
use kairos_agent.Risk.Cap.{Trade, trade_all, IsCapped, trade_all-IsCapped}
use kairos_agent.Risk.LossLimit.{update_all, loss_limit_blocks}

abbrev d : DecimalOps ℤ
d = int_decimals

abbrev btc : Symbol ℤ
btc = record {
  name = "BTCUSDT";
  base_currency = "BTC";
  quote_currency = "USDT";
  symbol_status = symbol_trading;
  min_order_qty = pos 1;
  max_order_qty = pos 100;
  min_price = pos 10;
  max_price = pos 1000;
  tick_size = pos 5;
  step_size = pos 1;
  min_notional = pos 20;
  maker_fee = pos 0;
  taker_fee = pos 0;
  symbol_updated_at_utc = pos 1;
}

abbrev sized : OrderSide → ℕ → Order ℤ
sized side n = record {
  id = "o";
  client_order_id = "";
  exchange_order_id = "";
  strategy_id = "s";
  symbol = "BTCUSDT";
  side = side;
  order_type = order_limit;
  order_status = order_pending;
  time_in_force = "GTC";
  quantity = pos n;
  price = pos 50;
  filled_qty = pos 0;
  remaining_qty = pos n;
  avg_fill_price = pos 0;
  created_at_utc = pos 1;
  updated_at_utc = pos 1;
  submitted_at_utc = none;
  filled_at_utc = none;
}

abbrev trader : ℤ → Strategy ℤ
trader daily = record {
  strategy_key = "s";
  strategy_name = "grid";
  strategy_type = "paper";
  strategy_status = strategy_active;
  strategy_symbol = "BTCUSDT";
  max_position_size = pos 10;
  max_daily_loss = pos 100;
  current_pnl = pos 0;
  daily_pnl = daily;
  total_trades = pos 0;
  winning_trades = pos 0;
  losing_trades = pos 0;
  strategy_created_at_utc = pos 1;
  strategy_updated_at_utc = pos 1;
  started_at_utc = none;
  stopped_at_utc = none;
}

abbrev long : ℕ → Position ℤ
long n = record {
  position_id = "p";
  position_strategy_id = "s";
  position_symbol = "BTCUSDT";
  position_side = position_long;
  position_quantity = pos n;
  entry_price = pos 50;
  current_price = pos 50;
  unrealized_pnl = pos 0;
  realized_pnl = pos 0;
  opened_at_utc = pos 1;
  position_updated_at_utc = pos 1;
  closed_at_utc = none;
}

abbrev engine : Engine
engine = record { publisher = true }

accepts :
    validate_order d engine (sized side_buy 4) (trader (pos 0)) btc none (some (long 6))
    ≡ (none, [])
unfolding validate_order validate_quantity validate_price validate_notional new_position_size
    market_price has_reached_daily_loss_limit loss_warning ◌+ℤ◌ ◌*ℤ◌ ◌-ℤ◌
accepts = refl

warns :
    validate_order d engine (sized side_buy 4) (trader (negsuc 84)) btc none none
    ≡ (none, warning "s" "daily_loss_approaching" (negsuc 84) (pos 100) (pos 80) ∷ [])
unfolding validate_order validate_quantity validate_price validate_notional new_position_size
    market_price has_reached_daily_loss_limit loss_warning ◌+ℤ◌ ◌*ℤ◌ ◌-ℤ◌
warns = refl

refuses : validate_order d engine (sized side_buy 5) (trader (pos 0)) btc none (some (long 6)) ≡ (
  some position_limit_exceeded,
  violation "s" "position_size_limit" (pos 11) (pos 10) "reject_order" ∷ [],
)
unfolding validate_order validate_quantity validate_price validate_notional new_position_size
    market_price has_reached_daily_loss_limit loss_warning ◌+ℤ◌ ◌*ℤ◌ ◌-ℤ◌
refuses = refl

abbrev trade : OrderSide → ℕ → Trade ℤ
trade side n = record {
  order = sized side n;
  symbol = btc;
  balance = none;
  price = pos 50;
  commission = pos 1;
  id = "p";
  now = pos 2;
}

abbrev trades : List (Trade ℤ)
trades = trade side_buy 6 ∷ trade side_buy 5 ∷ trade side_sell 2 ∷ []

trade_all-IsCapped_example : IsCapped d (pos 10) (trade_all d engine (trader (pos 0)) trades none)
trade_all-IsCapped_example =
    trade_all-IsCapped d int_decimals-DecimalLaws engine (trader (pos 0)) trades none refl
      (refl, (refl, (refl, tt))) tt

loss_limit_blocks_example :
    let later = update_all d ((negsuc 4, pos 7) ∷ []) (trader (negsuc 119)) in
    (should_block_new_entries d later btc ≡ true)
    × ((validate_order d engine (sized side_buy 4) later btc none none).0 ≢ none)
unfolding has_reached_daily_loss_limit ◌-ℤ◌
loss_limit_blocks_example =
    loss_limit_blocks d int_decimals-DecimalLaws ((negsuc 4, pos 7) ∷ []) (trader (negsuc 119))
      engine (sized side_buy 4) btc none none refl (refl, tt)
