-- ===== src/Reconciliation/Agreement.antt =====
-- What holds after a reconciliation.
use kairos_agent.Base.{String, ◌≡◌, ◌⊎◌, false, Option, none, some, List}
use kairos_agent.Base.Lists.{length, All}
use kairos_agent.Base.Dict.{Dict, lookup}
use kairos_agent.Entity.Decimal.{DecimalOps, DecimalLaws}
use kairos_agent.Entity.Order.{order_canceled, Order}
use kairos_agent.Reconciliation.{Pass, order_states_differ}

module _ {D : Type 0} (d : DecimalOps D) where
  -- An order agrees with what the exchange has under its id.
  abbrev pub Agrees : Option (Order D) → Order D → Type 0
  Agrees none o = o.order_status ≡ order_canceled
  Agrees (some exchange) o = order_states_differ d o exchange ≡ false

  -- It was not sent yet, or agrees.
  abbrev pub IsSettled : Dict (Order D) → Order D → Type 0
  IsSettled booked o = (o.exchange_order_id ≡ "") ⊎ Agrees (lookup o.exchange_order_id booked) o

  -- What a loop has done: every order is settled, and every update that the result counts was stored.
  abbrev pub IsDone : Dict (Order D) → List (Order D) → Pass (Order D) → Type 0
  IsDone booked local p =
      All (IsSettled booked) p.objects
      × All (IsSettled booked) p.saved
      × (p.result.orders_updated ≡ length p.saved)
      × (length p.objects ≡ length local)

  module _ (laws : DecimalLaws d) where
    module _ (update : Order D → Option String) where
      -- The order is not on the exchange.
      abbrev IsUnknown : Dict (Order D) → Order D → Type 0
      IsUnknown booked o = lookup o.exchange_order_id booked ≡ none
