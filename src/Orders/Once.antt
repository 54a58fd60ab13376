-- ===== src/Orders/Once.antt =====
-- How often an order is sent.
use kairos_agent.Base.{String, ◌≡◌, ◌⊎◌, inl, inr, Bool, false, none, str_eq}
use kairos_agent.Entity.Order.{order_submitted, Order}
use kairos_agent.Orders.{OrderService}

module _ {D : Type 0} where
  abbrev is_sent : Order D ⊎ String → Bool
  is_sent (inl o) = str_eq o.order_status order_submitted
  is_sent (inr _) = false

module _ {W D : Type 0} where
  -- What the service relies on: an order that was updated is read back, and the exchange does not
  -- change what is stored.
  pub record IsStore (s : OrderService W D) : Type 0 where
    pub get-update :
        (o : Order D) (w : W)
        → (s.repos.update o w).0 ≡ none
        → s.repos.get_order o.id (s.repos.update o w).1 ≡ inl o
    pub get_id : (id : String) (w : W) (o : Order D) → s.repos.get_order id w ≡ inl o → o.id ≡ id
