-- ===== src/Risk.antt =====
-- internal/domain/risk/engine.go: the checks of an order before it is sent. The engine keeps no
-- state; what it publishes is returned as a list. `D` is the type of decimals.
pub mod Acceptance
mod Tests
pub mod Cap
pub mod Close
pub mod LossLimit
use kairos_agent.Base.{
  String, Bool, false, not, ◌&&◌, ◌||◌, Option, none, some, List, [], ◌∷◌, str_eq, if◌then◌else◌,
}
use kairos_agent.Base.Int.{pos}
use kairos_agent.Entity.Decimal.{DecimalOps, greater, less_eq}
use kairos_agent.Entity.Order.{side_buy, side_sell, order_limit, order_market, Order}
use kairos_agent.Entity.Symbol.{
  Symbol, is_trading, blocks_new_entries, requires_forced_close, validate_quantity, validate_price,
  validate_notional,
}
use kairos_agent.Entity.Position.{
  position_long, position_short, Position, Balance, is_flat, has_sufficient_available,
}
use kairos_agent.Entity.Strategy.{Strategy, has_reached_daily_loss_limit}

pub data RiskError : Type 0 where
  position_limit_exceeded : RiskError
  daily_loss_limit_exceeded : RiskError
  insufficient_balance : RiskError
  symbol_not_trading : RiskError
  invalid_order_quantity : RiskError
  invalid_order_price : RiskError
  invalid_notional : RiskError
  close_of_flat : RiskError
  side_not_opposite : RiskError
  quantity_exceeds_position : RiskError

-- `strategy`, `what`, the current value, the limit, and the action or the threshold.
pub data RiskEvent (D : Type 0) : Type 0 where
  violation : String → String → D → D → String → RiskEvent D
  warning : String → String → D → D → D → RiskEvent D

-- `publisher` says that the engine has one.
pub record Engine : Type 0 where
  pub publisher : Bool

module _ {D : Type 0} (d : DecimalOps D) where
  abbrev publish_risk : Engine → RiskEvent D → List (RiskEvent D)
  publish_risk e event = if e.publisher then event ∷ [] else []

  -- `price` in `ValidateOrder`.
  unfoldable pub market_price : Order D → Symbol D → Option (Position D) → D
  market_price order symbol none =
      if str_eq order.order_type order_market then symbol.max_price else order.price
  market_price order symbol (some p) =
      if str_eq order.order_type order_market
      then if not (d.is_zero p.current_price) then p.current_price else symbol.max_price
      else order.price

  -- The order adds to the position.
  abbrev pub same_direction : Order D → Position D → Bool
  same_direction order p =
      (str_eq order.side side_buy && str_eq p.position_side position_long)
      || (str_eq order.side side_sell && str_eq p.position_side position_short)

  -- `newPositionSize` in `ValidateOrder`.
  unfoldable pub new_position_size : Order D → Option (Position D) → D
  new_position_size order none = order.quantity
  new_position_size order (some p) =
      if not (is_flat d p) && same_direction order p
      then d.add p.position_quantity order.quantity
      else order.quantity

  abbrev is_short_of_balance : Option (Balance D) → D → Bool
  is_short_of_balance none required = false
  is_short_of_balance (some b) required = not (has_sufficient_available d b required)

  -- The warning at 80 % of the daily loss limit.
  unfoldable pub loss_warning : Engine → Strategy D → List (RiskEvent D)
  loss_warning e strategy =
      if not (d.is_zero strategy.max_daily_loss)
        && less_eq d strategy.daily_pnl
            (d.neg (d.div (d.mul strategy.max_daily_loss (d.of_int (pos 8))) (d.of_int (pos 10))))
      then publish_risk e (
          warning strategy.strategy_key "daily_loss_approaching" strategy.daily_pnl
            strategy.max_daily_loss (d.of_int (pos 80)))
      else []

  unfoldable pub validate_order :
      Engine
      → Order D
      → Strategy D
      → Symbol D
      → Option (Balance D)
      → Option (Position D)
      → Option RiskError × List (RiskEvent D)
  validate_order e order strategy symbol balance position =
      let price = market_price order symbol position in
      let size = new_position_size order position in
      if not (is_trading symbol)
      then (some symbol_not_trading, [])
      else if not (validate_quantity d symbol order.quantity)
      then (some invalid_order_quantity, [])
      else if str_eq order.order_type order_limit && not (validate_price d symbol order.price)
      then (some invalid_order_price, [])
      else if not (validate_notional d symbol order.quantity price)
      then (some invalid_notional, [])
      else if has_reached_daily_loss_limit d strategy
      then (
        some daily_loss_limit_exceeded,
        publish_risk e (
            violation strategy.strategy_key "daily_loss_limit" strategy.daily_pnl
              strategy.max_daily_loss "block_new_entries"),
      )
      else if not (d.is_zero strategy.max_position_size)
          && greater d size strategy.max_position_size
      then (
        some position_limit_exceeded,
        publish_risk e (
            violation strategy.strategy_key "position_size_limit" size strategy.max_position_size
              "reject_order"),
      )
      else if is_short_of_balance balance (d.mul order.quantity price)
      then (some insufficient_balance, [])
      else (none, loss_warning e strategy)

  unfoldable pub validate_position_close : Order D → Position D → Symbol D → Option RiskError
  validate_position_close order position symbol =
      if is_flat d position
      then some close_of_flat
      else if (str_eq position.position_side position_long && not (str_eq order.side side_sell))
          || (str_eq position.position_side position_short && not (str_eq order.side side_buy))
      then some side_not_opposite
      else if greater d order.quantity position.position_quantity
      then some quantity_exceeds_position
      else if not (validate_quantity d symbol order.quantity)
      then some invalid_order_quantity
      else none

  unfoldable pub should_force_close : Symbol D → Bool
  should_force_close symbol = requires_forced_close symbol

  unfoldable pub should_block_new_entries : Strategy D → Symbol D → Bool
  should_block_new_entries strategy symbol =
      blocks_new_entries symbol || has_reached_daily_loss_limit d strategy
