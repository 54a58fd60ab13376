-- ===== src/Risk/Close.antt =====
-- Orders that close a position: `ValidatePositionClose`, and the fill of the paper exchange.
use kairos_agent.Base.{String, ◌≡◌, refl, ◌⊎◌, false, none, some, arith, str_eq_iff, ne_of_str_eq}
use kairos_agent.Base.Int.{ℤ}
use kairos_agent.Entity.Decimal.{DecimalOps, DecimalLaws}
use kairos_agent.Entity.Order.{side_buy, side_sell, Order}
use kairos_agent.Entity.Symbol.{Symbol, validate_quantity}
use kairos_agent.Entity.Position.{position_long, position_short, Position}
use kairos_agent.Risk.{validate_position_close}
use kairos_agent.Paper.{position_after}

module _ {D : Type 0} (d : DecimalOps D) (laws : DecimalLaws d) where
  -- An accepted close only shrinks the position: after its fill the quantity is between zero and the
  -- old quantity, and the side is the same. (The position is long or short, its quantity is not
  -- negative, and the symbol takes no negative quantities.)
  pub close_shrinks :
      (order : Order D) (p : Position D) (symbol : Symbol D) (price commission : D) (id : String)
      (now : ℤ)
      → validate_position_close d order p symbol ≡ none
      → (p.position_side ≡ position_long) ⊎ (p.position_side ≡ position_short)
      → d.less symbol.min_order_qty d.zero ≡ false
      → d.less p.position_quantity d.zero ≡ false
      → let next = position_after d order price commission id now (some p) in
        (d.less next.position_quantity d.zero ≡ false)
        × (d.less p.position_quantity next.position_quantity ≡ false)
        × (next.position_side ≡ p.position_side)
  unfolding position_after validate_position_close validate_quantity
  close_shrinks order p symbol price commission id now ok side positive held = ground (
    arith,
    str_eq_iff p.position_side position_long,
    str_eq_iff p.position_side position_short,
    str_eq_iff order.side side_sell,
    str_eq_iff order.side side_buy,
    ne_of_str_eq position_long position_short refl,
    ne_of_str_eq side_sell side_buy refl,
    laws.less_trans d.zero symbol.min_order_qty order.quantity,
    laws.sub_nonneg p.position_quantity order.quantity,
    laws.sub_le p.position_quantity order.quantity,
    laws.less_irrefl d.zero,
  )
