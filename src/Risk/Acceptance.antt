-- ===== src/Risk/Acceptance.antt =====
-- What an accepted order satisfies, for each check of `ValidateOrder`.
use kairos_agent.Base.{◌⊎◌, str_eq, ◌≡◌, ◌↔◌, true, false, Option, none, some, arith, str_eq_iff}
use kairos_agent.Entity.Decimal.{DecimalOps}
use kairos_agent.Entity.Order.{order_limit, Order}
use kairos_agent.Entity.Symbol.{
  symbol_trading, Symbol, validate_quantity, validate_price, validate_notional,
}
use kairos_agent.Entity.Position.{Position, Balance}
use kairos_agent.Entity.Strategy.{Strategy, has_reached_daily_loss_limit}
use kairos_agent.Risk.{Engine, market_price, new_position_size, validate_order}

module _ {D : Type 0} (d : DecimalOps D) where
  -- The balance, if one is given, pays for the cost.
  abbrev pub Affords : Option (Balance D) → D → Type 0
  Affords none cost = Unit
  Affords (some b) cost = d.less b.available cost ≡ false

  -- Each condition by itself, as a caller reads it.
  pub record Admissible (order : Order D) (strategy : Strategy D) (symbol : Symbol D)
      (balance : Option (Balance D)) (position : Option (Position D)) : Type 0 where
    pub trades : symbol.symbol_status ≡ symbol_trading
    pub at_least : d.less order.quantity symbol.min_order_qty ≡ false
    pub at_most : d.less symbol.max_order_qty order.quantity ≡ false
    pub on_step : d.is_zero (d.mod_by order.quantity symbol.step_size) ≡ true
    pub priced :
        (str_eq order.order_type order_limit ≡ false)
        ⊎ ((d.less order.price symbol.min_price ≡ false)
            × (d.less symbol.max_price order.price ≡ false)
            × (d.is_zero (d.mod_by order.price symbol.tick_size) ≡ true))
    pub worth :
        d.less (d.mul order.quantity (market_price d order symbol position)) symbol.min_notional
        ≡ false
    pub within_loss :
        (d.is_zero strategy.max_daily_loss ≡ true)
        ⊎ (d.less (d.neg strategy.max_daily_loss) strategy.daily_pnl ≡ true)
    pub within_size :
        (d.is_zero strategy.max_position_size ≡ true)
        ⊎ (d.less strategy.max_position_size (new_position_size d order position) ≡ false)
    pub affordable : Affords balance (d.mul order.quantity (market_price d order symbol position))

  accepted_forth :
      (e : Engine) (order : Order D) (strategy : Strategy D) (symbol : Symbol D)
      (balance : Option (Balance D)) (position : Option (Position D))
      → (validate_order d e order strategy symbol balance position).0 ≡ none
      → Admissible order strategy symbol balance position
  unfolding validate_order validate_quantity validate_price validate_notional
      has_reached_daily_loss_limit
  accepted_forth e order strategy symbol none position h = record {
    trades = ground (arith, str_eq_iff symbol.symbol_status symbol_trading);
    at_least = ground arith;
    at_most = ground arith;
    on_step = ground arith;
    priced = ground arith;
    worth = ground arith;
    within_loss = ground arith;
    within_size = ground arith;
    affordable = tt;
  }
  accepted_forth e order strategy symbol (some b) position h = record {
    trades = ground (arith, str_eq_iff symbol.symbol_status symbol_trading);
    at_least = ground arith;
    at_most = ground arith;
    on_step = ground arith;
    priced = ground arith;
    worth = ground arith;
    within_loss = ground arith;
    within_size = ground arith;
    affordable = ground arith;
  }

  accepted_back :
      (e : Engine) (order : Order D) (strategy : Strategy D) (symbol : Symbol D)
      (balance : Option (Balance D)) (position : Option (Position D))
      → Admissible order strategy symbol balance position
      → (validate_order d e order strategy symbol balance position).0 ≡ none
  unfolding validate_order validate_quantity validate_price validate_notional
      has_reached_daily_loss_limit
  accepted_back e order strategy symbol none position h = ground (
    arith,
    str_eq_iff symbol.symbol_status symbol_trading,
    h.priced,
    h.within_loss,
    h.within_size,
  )
  accepted_back e order strategy symbol (some b) position h = ground (
    arith,
    str_eq_iff symbol.symbol_status symbol_trading,
    h.priced,
    h.within_loss,
    h.within_size,
    h.affordable,
  )

  pub validate_order_iff :
      (e : Engine) (order : Order D) (strategy : Strategy D) (symbol : Symbol D)
      (balance : Option (Balance D)) (position : Option (Position D))
      → ((validate_order d e order strategy symbol balance position).0 ≡ none)
        ↔ Admissible order strategy symbol balance position
  validate_order_iff e order strategy symbol balance position = (
    accepted_forth e order strategy symbol balance position,
    accepted_back e order strategy symbol balance position,
  )
