-- ===== src/Entity/Order.antt =====
-- internal/domain/entity/order.go. Go declares the side, the type and the status as named strings
-- with constants, so any string is a value of them. `D` is the type of decimals.
use kairos_agent.Base.{String, Bool, ◌&&◌, ◌||◌, Option, str_eq}
use kairos_agent.Base.Int.{ℤ}
use kairos_agent.Entity.Decimal.{DecimalOps, greater}

abbrev pub OrderSide : Type 0
OrderSide = String

abbrev pub side_buy : OrderSide
side_buy = "buy"

abbrev pub side_sell : OrderSide
side_sell = "sell"

abbrev pub OrderType : Type 0
OrderType = String

abbrev pub order_limit : OrderType
order_limit = "limit"

abbrev pub order_market : OrderType
order_market = "market"

abbrev pub OrderStatus : Type 0
OrderStatus = String

abbrev pub order_pending : OrderStatus
order_pending = "pending"

abbrev pub order_submitted : OrderStatus
order_submitted = "submitted"

abbrev pub order_partial : OrderStatus
order_partial = "partial"

abbrev pub order_filled : OrderStatus
order_filled = "filled"

abbrev pub order_canceled : OrderStatus
order_canceled = "canceled"

abbrev pub order_rejected : OrderStatus
order_rejected = "rejected"

pub record Order (D : Type 0) : Type 0 where
  pub id : String
  pub client_order_id : String
  pub exchange_order_id : String
  pub strategy_id : String
  pub symbol : String
  pub side : OrderSide
  pub order_type : OrderType
  pub order_status : OrderStatus
  pub time_in_force : String
  pub quantity : D
  pub price : D
  pub filled_qty : D
  pub remaining_qty : D
  pub avg_fill_price : D
  pub created_at_utc : ℤ
  pub updated_at_utc : ℤ
  pub submitted_at_utc : Option ℤ
  pub filled_at_utc : Option ℤ

module _ {D : Type 0} where
  unfoldable pub is_terminal : Order D → Bool
  is_terminal o =
      str_eq o.order_status order_filled
      || (str_eq o.order_status order_canceled || str_eq o.order_status order_rejected)

  unfoldable pub is_partially_filled : DecimalOps D → Order D → Bool
  is_partially_filled d o = str_eq o.order_status order_partial && greater d o.filled_qty d.zero

  unfoldable pub is_pending : Order D → Bool
  is_pending o = str_eq o.order_status order_pending

  unfoldable pub is_active : Order D → Bool
  is_active o = str_eq o.order_status order_submitted || str_eq o.order_status order_partial
