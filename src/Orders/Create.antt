-- ===== src/Orders/Create.antt =====
-- `CreateOrder` and `ReconcileOrders`.
use kairos_agent.Base.{
  ℕ, ◌+◌, String, ◌⊎◌, inl, inr, true, false, not, Option, none, some, List, [], ◌∷◌, ◌++◌, map,
  str_eq, append, if◌then◌else◌,
}
use kairos_agent.Base.Int.{ℤ}
use kairos_agent.Base.Show.{show_ℤ}
use kairos_agent.Entity.Decimal.{DecimalOps}
use kairos_agent.Entity.Order.{order_pending, Order}
use kairos_agent.Entity.Symbol.{Symbol}
use kairos_agent.Entity.Position.{Position, Balance}
use kairos_agent.Entity.Strategy.{Strategy, can_trade}
use kairos_agent.Risk.{validate_order}
use kairos_agent.Orders.{
  created, PositionRead, held, not_found, unread, OrderEvent, risk_event, ServiceError,
  strategy_unread, strategy_idle, symbol_unread, position_unread, balance_unread, risk_rejected,
  not_created, not_updated, not_listed, CreateOrderRequest, OrderService, check_entry,
}

module _ {D : Type 0} where
  -- `AccountBalance.GetBalance`
  unfoldable pub get_balance : String → List (Balance D) → Option (Balance D)
  get_balance asset [] = none
  get_balance asset (b ∷ bs) =
      let later = get_balance asset bs in if str_eq b.asset asset then some b else later

  abbrev or_no_balance : String → Option (List (Balance D)) → Option (Balance D)
  or_no_balance asset none = none
  or_no_balance asset (some l) = get_balance asset l

-- The three readings of the clock: for the two ids and the two times of the order.
pub record Clock : Type 0 where
  pub id_nanos : ℤ
  pub client_id_nanos : ℤ
  pub created : ℤ
  pub updated : ℤ

-- What is read about an order before it is checked.
pub record Context (D : Type 0) : Type 0 where
  pub strategy : Strategy D
  pub symbol : Symbol D
  pub position : Option (Position D)
  pub balance : Option (Balance D)

module _ {D : Type 0} where
  read_balance :
      Strategy D
      → Symbol D
      → Option (Position D)
      → Option (List (Balance D)) ⊎ String
      → Context D ⊎ ServiceError
  unfolding get_balance
  read_balance strategy symbol position (inr e) = inr (balance_unread e)
  read_balance strategy symbol position (inl l) = inl (record {
    strategy = strategy;
    symbol = symbol;
    position = position;
    balance = or_no_balance symbol.quote_currency l;
  })

module _ {D : Type 0} (d : DecimalOps D) where
  abbrev pub requested : Clock → CreateOrderRequest D → Order D
  requested c req = record {
    id = append "ord_" (show_ℤ c.id_nanos);
    client_order_id = append "cli_" (show_ℤ c.client_id_nanos);
    exchange_order_id = "";
    strategy_id = req.strategy_id;
    symbol = req.symbol;
    side = req.side;
    order_type = req.order_type;
    order_status = order_pending;
    time_in_force = req.time_in_force;
    quantity = req.quantity;
    price = req.price;
    filled_qty = d.zero;
    remaining_qty = req.quantity;
    avg_fill_price = d.zero;
    created_at_utc = c.created;
    updated_at_utc = c.updated;
    submitted_at_utc = none;
    filled_at_utc = none;
  }

module _ {W D : Type 0} where
  read_position :
      Strategy D → Symbol D → PositionRead D → OrderService W D → W → Context D ⊎ ServiceError
  unfolding read_balance
  read_position strategy symbol (held p) s w =
      read_balance strategy symbol (some p) (s.repos.get_balances w)
  read_position strategy symbol not_found s w =
      read_balance strategy symbol none (s.repos.get_balances w)
  read_position strategy symbol (unread e) s w = inr (position_unread e)

  read_symbol :
      CreateOrderRequest D
      → Strategy D
      → Symbol D ⊎ String
      → OrderService W D
      → W
      → Context D ⊎ ServiceError
  unfolding read_position
  read_symbol req strategy (inr e) s w = inr (symbol_unread e)
  read_symbol req strategy (inl symbol) s w =
      read_position strategy symbol (s.repos.get_position req.strategy_id req.symbol w) s w

  read_strategy :
      CreateOrderRequest D → Strategy D ⊎ String → OrderService W D → W → Context D ⊎ ServiceError
  unfolding read_symbol
  read_strategy req (inr e) s w = inr (strategy_unread e)
  read_strategy req (inl strategy) s w =
      if not (can_trade strategy)
      then inr (strategy_idle strategy.strategy_status)
      else read_symbol req strategy (s.repos.get_symbol req.symbol w) s w

  -- `CreateOrder` up to the order.
  unfoldable pub read_context :
      CreateOrderRequest D → Option ServiceError → OrderService W D → W → Context D ⊎ ServiceError
  unfolding read_strategy
  read_context req (some e) s w = inr e
  read_context req none s w = read_strategy req (s.repos.get_strategy req.strategy_id w) s w

module _ {W D : Type 0} (d : DecimalOps D) where
  -- `CreateOrder` from the order on: the events are those of the risk engine, then its own.
  unfoldable pub create_checked :
      Order D
      → Context D ⊎ ServiceError
      → OrderService W D
      → W
      → (Order D ⊎ ServiceError) × List (OrderEvent D) × W
  create_checked order (inr e) s w = (inr e, [], w)
  create_checked order (inl c) s w =
      let (err, found) = validate_order d s.engine order c.strategy c.symbol c.balance c.position in
      let (failed, w') = s.repos.create order w in
      let warnings = map risk_event found in
      elim err [
        | some e ↦ (inr (risk_rejected e), warnings, w)
        | none ↦ elim failed [
          | some e ↦ (inr (not_created e), warnings, w')
          | none ↦ (inl order, warnings ++ (if s.publisher then created order.id ∷ [] else []), w')
        ]
      ]

  unfoldable pub create_order :
      Clock
      → CreateOrderRequest D
      → OrderService W D
      → W
      → (Order D ⊎ ServiceError) × List (OrderEvent D) × W
  unfolding create_checked
  create_order c req s w =
      create_checked (requested d c req) (read_context req (check_entry s w) s w) s w

module _ {W D : Type 0} where
  -- The loop of `ReconcileOrders`; each order has a reading of the clock.
  unfoldable pub reconcile_loop :
      (ℕ → ℤ) → ℕ → List (Order D) → OrderService W D → W → Option ServiceError × W
  reconcile_loop now k [] s w = (none, w)
  reconcile_loop now k (o ∷ os) s w = elim (str_eq o.exchange_order_id "") [
    | true ↦ reconcile_loop now (k + 1) os s w
    | false ↦
        let (answer, w') = s.connector.query o.exchange_order_id w in
        elim answer [
          | inr e ↦ reconcile_loop now (k + 1) os s w'
          | inl x ↦
              let (err, w'') =
                s.repos.update
                  (record o {
                    order_status = x.order_status;
                    filled_qty = x.filled_qty;
                    remaining_qty = x.remaining_qty;
                    avg_fill_price = x.avg_fill_price;
                    updated_at_utc = now k;
                  })
                  w' in
              elim err [
                | some e ↦ (some (not_updated e), w'')
                | none ↦ reconcile_loop now (k + 1) os s w''
              ]
        ]
  ]

  unfoldable pub reconcile_orders : (ℕ → ℤ) → OrderService W D → W → Option ServiceError × W
  unfolding reconcile_loop
  reconcile_orders now s w = elim (s.repos.list_active w) [
    | inr e ↦ (some (not_listed e), w)
    | inl l ↦ reconcile_loop now 0 l s w
  ]
