-- ===== src/Reconciliation.antt =====
-- internal/service/reconciliation/reconciliation.go: local orders and positions are brought in line
-- with the exchange. `D` is the type of decimals.
pub mod Agreement
pub mod Positions
mod Tests
use kairos_agent.Base.{
  ℕ, zero, ◌+◌, String, ◌⊎◌, inl, inr, Bool, true, not, ◌||◌, Option, none, some, List, [], ◌∷◌,
  str_eq, if◌then◌else◌,
}
use kairos_agent.Base.Int.{ℤ, pos, ◌-ℤ◌}
use kairos_agent.Base.Dict.{Dict, lookup, insert}
use kairos_agent.Entity.Decimal.{DecimalOps, equal}
use kairos_agent.Entity.Order.{order_canceled, Order, is_partially_filled}
use kairos_agent.Entity.Position.{position_flat, Position, is_flat}

pub record ReconcileResult : Type 0 where
  pub started_at : ℤ
  pub completed_at : ℤ
  pub duration : ℤ
  pub orders_updated : ℕ
  pub positions_updated : ℕ
  pub zombie_orders : List String
  pub partial_fills : List String

pub data ReconcileError : Type 0 where
  local_unavailable : String → ReconcileError
  exchange_unavailable : String → ReconcileError

abbrev pub new_result : ℤ → ReconcileResult
new_result now = record {
  started_at = now;
  completed_at = pos 0;
  duration = pos 0;
  orders_updated = 0;
  positions_updated = 0;
  zombie_orders = [];
  partial_fills = [];
}

-- `completed_at` and `duration`, at the time `now`.
abbrev pub complete : ℤ → ReconcileResult → ReconcileResult
complete now r = record r { completed_at = now; duration = now -ℤ r.started_at }

-- What a loop over local objects has done: the objects, which it changes in place, what it stored,
-- and the result so far.
pub record Pass (A : Type 0) : Type 0 where
  pub objects : List A
  pub saved : List A
  pub result : ReconcileResult

pub data Answer (A : Type 0) : Type 0 where
  listed : List A → Answer A
  unavailable : String → Answer A

module _ {A : Type 0} where
  -- Objects by their keys; the last one of a key stays.
  unfoldable pub index : (A → String) → Dict A → List A → Dict A
  index key m [] = m
  index key m (x ∷ rest) = index key (insert (key x) x m) rest

  -- An object is put before those that the loop has yet to see.
  abbrev pub kept : A → Pass A → Pass A
  kept x p = record p { objects = x ∷ p.objects }

  abbrev pub stored : A → Pass A → Pass A
  stored x p = record p { objects = x ∷ p.objects; saved = x ∷ p.saved }

module _ {D : Type 0} (d : DecimalOps D) where
  unfoldable pub order_states_differ : Order D → Order D → Bool
  order_states_differ local exchange =
      not (str_eq local.order_status exchange.order_status)
      || not (equal d local.filled_qty exchange.filled_qty)
      || not (equal d local.remaining_qty exchange.remaining_qty)
      || not (equal d local.avg_fill_price exchange.avg_fill_price)

  unfoldable pub position_states_differ : Position D → Position D → Bool
  position_states_differ local exchange =
      not (equal d local.position_quantity exchange.position_quantity)
      || not (equal d local.current_price exchange.current_price)

  abbrev or_filled : Option ℤ → Option ℤ → Option ℤ
  or_filled local none = local
  or_filled local (some at) = some at

  -- The order that is no longer open on the exchange, and the one whose state differs.
  abbrev pub canceled : ℤ → Order D → Order D
  canceled now o = record o { order_status = order_canceled; updated_at_utc = now }

  abbrev pub brought_in_line : ℤ → Order D → Order D → Order D
  brought_in_line now exchange o = record o {
    order_status = exchange.order_status;
    filled_qty = exchange.filled_qty;
    remaining_qty = exchange.remaining_qty;
    avg_fill_price = exchange.avg_fill_price;
    updated_at_utc = now;
    filled_at_utc = or_filled o.filled_at_utc exchange.filled_at_utc;
  }

  unfoldable pub partial_ids : List (Order D) → List String
  partial_ids [] = []
  partial_ids (o ∷ rest) =
      let later = partial_ids rest in if is_partially_filled d o then o.id ∷ later else later

  -- The repository answers an update with an error or not.
  module _ (update : Order D → Option String) where
    abbrev pub zombie : Order D → Option String → Pass (Order D) → Pass (Order D)
    zombie o (some _) later = kept o later
    zombie o none later =
        let p = stored o later in
        record p {
          result = record (p.result) {
            orders_updated = p.result.orders_updated + 1;
            zombie_orders = o.id ∷ p.result.zombie_orders;
          };
        }

    abbrev pub corrected : Order D → Option String → Pass (Order D) → Pass (Order D)
    corrected o (some _) later = kept o later
    corrected o none later =
        let p = stored o later in
        record p { result = record (p.result) { orders_updated = p.result.orders_updated + 1 } }

    abbrev pub against : ℤ → Order D → Option (Order D) → Pass (Order D) → Pass (Order D)
    against now o none later = zombie (canceled now o) (update (canceled now o)) later
    against now o (some exchange) later =
        let next = brought_in_line now exchange o in
        if order_states_differ o exchange then corrected next (update next) later else kept o later

    -- The loop over the local orders; `now` is the time at which an order is changed.
    unfoldable pub order_loop :
        (Order D → ℤ) → Dict (Order D) → List (Order D) → ReconcileResult → Pass (Order D)
    order_loop now booked [] r = record { objects = []; saved = []; result = r }
    order_loop now booked (o ∷ rest) r =
        let later = order_loop now booked rest r in
        if str_eq o.exchange_order_id ""
        then kept o later
        else against (now o) o (lookup o.exchange_order_id booked) later

    -- `ReconcileOrders`: the pass and the time of the last reconciliation.
    unfoldable pub reconcile_orders :
        ℤ
        → (Order D → ℤ)
        → ℤ
        → Answer (Order D)
        → Answer (Order D)
        → Pass (Order D) ⊎ ReconcileError
    reconcile_orders started now completed (unavailable e) _ = inr (local_unavailable e)
    reconcile_orders started now completed (listed local) (unavailable e) =
        inr (exchange_unavailable e)
    reconcile_orders started now completed (listed local) (listed exchange) =
        let booked = index (λ o. o.exchange_order_id) [] exchange in
        let p = order_loop now booked local (new_result started) in
        inl (record p {
          result = complete completed (record (p.result) { partial_fills = partial_ids p.objects });
        })

  -- A position that the exchange does not have any more, or has as flat.
  abbrev pub closed : ℤ → Option (Position D) → Position D → Position D
  closed now none p = record p {
    position_quantity = d.zero;
    position_side = position_flat;
    unrealized_pnl = d.zero;
    position_updated_at_utc = now;
    closed_at_utc = some now;
  }
  closed now (some exchange) p = record p {
    position_quantity = d.zero;
    position_side = position_flat;
    unrealized_pnl = d.zero;
    current_price = exchange.current_price;
    realized_pnl = exchange.realized_pnl;
    position_updated_at_utc = now;
    closed_at_utc = some now;
  }

  abbrev pub revalued : ℤ → Position D → Position D → Position D
  revalued now exchange p = record p {
    position_quantity = exchange.position_quantity;
    current_price = exchange.current_price;
    unrealized_pnl = exchange.unrealized_pnl;
    position_updated_at_utc = now;
  }

  abbrev pub is_gone : Option (Position D) → Bool
  is_gone none = true
  is_gone (some exchange) = is_flat d exchange

  module _ (update : Position D → Option String) where
    abbrev pub updated : Position D → Option String → Pass (Position D) → Pass (Position D)
    updated p (some _) later = kept p later
    updated p none later =
        let q = stored p later in
        record q {
          result = record (q.result) { positions_updated = q.result.positions_updated + 1 };
        }

    abbrev pub compared :
        ℤ → Position D → Option (Position D) → Pass (Position D) → Pass (Position D)
    compared now p none later = kept p later
    compared now p (some exchange) later =
        let next = revalued now exchange p in
        if position_states_differ p exchange then updated next (update next) later else kept p later

    abbrev pub position_against :
        ℤ → Position D → Option (Position D) → Pass (Position D) → Pass (Position D)
    position_against now p exchange later =
        let next = closed now exchange p in
        if is_gone exchange
        then if is_flat d p then kept p later else updated next (update next) later
        else compared now p exchange later

    unfoldable pub position_loop :
        (Position D → ℤ)
        → Dict (Position D)
        → List (Position D)
        → ReconcileResult
        → Pass (Position D)
    position_loop now held [] r = record { objects = []; saved = []; result = r }
    position_loop now held (p ∷ rest) r =
        let later = position_loop now held rest r in
        position_against (now p) p (lookup p.position_symbol held) later

    -- `ReconcilePositions`, which does not set the time of the last reconciliation.
    unfoldable pub reconcile_positions :
        ℤ
        → (Position D → ℤ)
        → ℤ
        → Answer (Position D)
        → Answer (Position D)
        → Pass (Position D) ⊎ ReconcileError
    reconcile_positions started now completed (unavailable e) _ = inr (local_unavailable e)
    reconcile_positions started now completed (listed local) (unavailable e) =
        inr (exchange_unavailable e)
    reconcile_positions started now completed (listed local) (listed exchange) =
        let held = index (λ p. p.position_symbol) [] exchange in
        let p = position_loop now held local (new_result started) in
        inl (record p { result = complete completed p.result })

pub data AllError : Type 0 where
  orders_failed : ReconcileError → AllError
  positions_failed : ReconcileError → AllError

module _ {D : Type 0} where
  -- `ReconcileAll`: the positions are reconciled if the orders were.
  unfoldable pub reconcile_all :
      Pass (Order D) ⊎ ReconcileError → Pass (Position D) ⊎ ReconcileError → Option AllError
  reconcile_all (inr e) _ = some (orders_failed e)
  reconcile_all (inl _) (inr e) = some (positions_failed e)
  reconcile_all (inl _) (inl _) = none

  -- `lastReconcileAt` after `ReconcileOrders`.
  unfoldable pub last_reconcile_at : ℤ → Pass (Order D) ⊎ ReconcileError → ℤ
  last_reconcile_at last (inr _) = last
  last_reconcile_at last (inl p) = p.result.completed_at
