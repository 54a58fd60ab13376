-- ===== src/Orders.antt =====
-- internal/service/agent/order_service.go: the life of an order from its request to the exchange. The
-- repositories and the connector are interfaces over a world `W`; an order that a repository returns
-- is a fresh copy. `D` is the type of decimals.
pub mod Once
pub mod Create
mod Tests
use kairos_agent.Base.{
  String, ◌⊎◌, inl, inr, Bool, not, Option, none, some, List, [], ◌∷◌, if◌then◌else◌,
}
use kairos_agent.Base.Int.{ℤ}
use kairos_agent.Entity.Order.{
  OrderSide, OrderType, OrderStatus, order_submitted, order_canceled, order_rejected, Order,
  is_pending, is_active,
}
use kairos_agent.Entity.Symbol.{Symbol}
use kairos_agent.Entity.Position.{Position, Balance}
use kairos_agent.Entity.Strategy.{StrategyStatus, Strategy}
use kairos_agent.Risk.{Engine, RiskError, RiskEvent}

-- `not_found` is `storage.ErrNotFound`.
pub data PositionRead (D : Type 0) : Type 0 where
  held : Position D → PositionRead D
  not_found : PositionRead D
  unread : String → PositionRead D

pub record Repositories (W D : Type 0) : Type 0 where
  pub get_strategy : String → W → Strategy D ⊎ String
  pub get_symbol : String → W → Symbol D ⊎ String
  pub get_position : String → String → W → PositionRead D
  pub get_balances : W → Option (List (Balance D)) ⊎ String
  pub get_order : String → W → Order D ⊎ String
  pub list_active : W → List (Order D) ⊎ String
  pub create : Order D → W → Option String × W
  pub update : Order D → W → Option String × W

-- `ConnectorAdapter`
pub record Connector (W D : Type 0) : Type 0 where
  pub submit : Order D → W → (String ⊎ String) × W
  pub cancel : String → W → Option String × W
  pub query : String → W → (Order D ⊎ String) × W

pub data OrderEvent (D : Type 0) : Type 0 where
  risk_event : RiskEvent D → OrderEvent D
  created : String → OrderEvent D
  submitted : String → String → OrderEvent D
  rejected : String → String → OrderEvent D
  canceled : String → String → OrderEvent D

pub data ServiceError : Type 0 where
  gate_closed : String → ServiceError
  strategy_unread : String → ServiceError
  strategy_idle : StrategyStatus → ServiceError
  symbol_unread : String → ServiceError
  position_unread : String → ServiceError
  balance_unread : String → ServiceError
  risk_rejected : RiskError → ServiceError
  not_created : String → ServiceError
  order_unread : String → ServiceError
  not_pending : OrderStatus → ServiceError
  not_sent : String → ServiceError
  not_updated : String → ServiceError
  not_active : OrderStatus → ServiceError
  not_canceled : String → ServiceError
  not_listed : String → ServiceError

pub record CreateOrderRequest (D : Type 0) : Type 0 where
  pub strategy_id : String
  pub symbol : String
  pub side : OrderSide
  pub order_type : OrderType
  pub quantity : D
  pub price : D
  pub time_in_force : String

pub record OrderService (W D : Type 0) : Type 0 where
  pub repos : Repositories W D
  pub connector : Connector W D
  pub engine : Engine
  pub publisher : Bool
  pub trading_gate : Option (W → Option String)

module _ {W D : Type 0} where
  unfoldable pub check_entry : OrderService W D → W → Option ServiceError
  check_entry s w = elim s.trading_gate [
    | none ↦ none
    | some g ↦ elim (g w) [ none ↦ none | some e ↦ some (gate_closed e) ]
  ]

  abbrev published : OrderService W D → OrderEvent D → List (OrderEvent D)
  published s event = if s.publisher then event ∷ [] else []

  -- `SubmitOrder` for a pending order, with the answer of the exchange.
  unfoldable pub answered :
      ℤ
      → Order D
      → (String ⊎ String) × W
      → OrderService W D
      → Option ServiceError × List (OrderEvent D) × W
  answered now o (inr e, w) s =
      let updated =
        s.repos.update (record o { order_status = order_rejected; updated_at_utc = now }) w in
      (some (not_sent e), published s (rejected o.id e), updated.1)
  answered now o (inl x, w) s =
      let (err, w') =
        s.repos.update
          (record o {
            exchange_order_id = x;
            order_status = order_submitted;
            submitted_at_utc = some now;
            updated_at_utc = now;
          })
          w in
      elim err [
        | some e ↦ (some (not_updated e), [], w')
        | none ↦ (none, published s (submitted o.id x), w')
      ]

  unfoldable pub submit_read :
      ℤ → Order D ⊎ String → OrderService W D → W → Option ServiceError × List (OrderEvent D) × W
  unfolding answered is_pending
  submit_read now (inr e) s w = (some (order_unread e), [], w)
  submit_read now (inl o) s w =
      if not (is_pending o)
      then (some (not_pending o.order_status), [], w)
      else answered now o (s.connector.submit o w) s

  submit_passed :
      ℤ
      → String
      → Option ServiceError
      → OrderService W D
      → W
      → Option ServiceError × List (OrderEvent D) × W
  unfolding submit_read
  submit_passed now id (some e) s w = (some e, [], w)
  submit_passed now id none s w = submit_read now (s.repos.get_order id w) s w

  -- `SubmitOrder`
  unfoldable pub submit_order :
      ℤ → String → OrderService W D → W → Option ServiceError × List (OrderEvent D) × W
  unfolding submit_passed check_entry
  submit_order now id s w = submit_passed now id (check_entry s w) s w

  cancel_read :
      ℤ → Order D ⊎ String → OrderService W D → W → Option ServiceError × List (OrderEvent D) × W
  unfolding is_active
  cancel_read now (inr e) s w = (some (order_unread e), [], w)
  cancel_read now (inl o) s w =
      let (err, w') = s.connector.cancel o.exchange_order_id w in
      let (failed, w'') =
        s.repos.update (record o { order_status = order_canceled; updated_at_utc = now }) w' in
      if not (is_active o) then (some (not_active o.order_status), [], w) else elim err [
        | some e ↦ (some (not_canceled e), [], w')
        | none ↦ elim failed [
          | some e ↦ (some (not_updated e), [], w'')
          | none ↦ (none, published s (canceled o.id "user_requested"), w'')
        ]
      ]

  -- `CancelOrder`
  unfoldable pub cancel_order :
      ℤ → String → OrderService W D → W → Option ServiceError × List (OrderEvent D) × W
  unfolding cancel_read
  cancel_order now id s w = cancel_read now (s.repos.get_order id w) s w
