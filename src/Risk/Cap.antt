-- ===== src/Risk/Cap.antt =====
-- The position limit of the risk engine over a series of orders that the paper exchange fills.
use kairos_agent.Base.{
  String, ◌≡◌, refl, ◌⊎◌, false, Option, none, some, List, [], ◌∷◌, arith, str_eq_iff, ne_of_str_eq,
}
use kairos_agent.Base.Int.{ℤ}
use kairos_agent.Base.Lists.{All}
use kairos_agent.Entity.Decimal.{DecimalOps, DecimalLaws}
use kairos_agent.Entity.Order.{side_sell, Order}
use kairos_agent.Entity.Symbol.{Symbol}
use kairos_agent.Entity.Position.{position_long, position_short, position_flat, Position, Balance}
use kairos_agent.Entity.Strategy.{Strategy}
use kairos_agent.Risk.{RiskError, Engine, new_position_size, validate_order}
use kairos_agent.Risk.Acceptance.{validate_order_iff}
use kairos_agent.Paper.{position_after, updated}

-- An order with what it is checked and filled with.
pub record Trade (D : Type 0) : Type 0 where
  pub order : Order D
  pub symbol : Symbol D
  pub balance : Option (Balance D)
  pub price : D
  pub commission : D
  pub id : String
  pub now : ℤ

module _ {D : Type 0} (d : DecimalOps D) where
  abbrev fill_if : Option RiskError → Trade D → Option (Position D) → Option (Position D)
  fill_if none t position = some (position_after d t.order t.price t.commission t.id t.now position)
  fill_if (some _) t position = position

  -- The order is checked against the position, and filled if it is accepted.
  unfoldable pub checked_fill :
      Engine → Strategy D → Trade D → Option (Position D) → Option (Position D)
  checked_fill e strategy t position =
      fill_if (validate_order d e t.order strategy t.symbol t.balance position).0 t position

  unfoldable pub trade_all :
      Engine → Strategy D → List (Trade D) → Option (Position D) → Option (Position D)
  trade_all e strategy [] position = position
  trade_all e strategy (t ∷ ts) position =
      trade_all e strategy ts (checked_fill e strategy t position)

  -- The quantity is between zero and the limit, and the side is long or short.
  abbrev pub IsCapped : D → Option (Position D) → Type 0
  IsCapped max none = Unit
  IsCapped max (some p) =
      (d.less p.position_quantity d.zero ≡ false)
      × (d.less max p.position_quantity ≡ false)
      × ((p.position_side ≡ position_long) ⊎ (p.position_side ≡ position_short))

  -- The symbol takes no negative quantities.
  abbrev pub Positive : List (Trade D) → Type 0
  Positive = All (λ t. d.less t.symbol.min_order_qty d.zero ≡ false)

  fill_if-IsCapped :
      (r : Option RiskError) (t : Trade D) (position : Option (Position D)) (max : D)
      → (r ≡ none → IsCapped max (fill_if none t position))
      → IsCapped max position
      → IsCapped max (fill_if r t position)
  fill_if-IsCapped none t position max filled c = filled refl
  fill_if-IsCapped (some _) t position max filled c = c

  filled_new :
      (t : Trade D) (max : D)
      → d.less t.order.quantity d.zero ≡ false
      → d.less max t.order.quantity ≡ false
      → IsCapped max (some (position_after d t.order t.price t.commission t.id t.now none))
  unfolding position_after
  filled_new t max n m = ground (arith, str_eq_iff t.order.side side_sell)

  module _ (laws : DecimalLaws d) where
    filled_old :
        (t : Trade D) (p : Position D) (max : D)
        → d.less t.order.quantity d.zero ≡ false
        → d.less max (new_position_size d t.order (some p)) ≡ false
        → IsCapped max (some p)
        → IsCapped max (some (position_after d t.order t.price t.commission t.id t.now (some p)))
    unfolding position_after new_position_size updated
    filled_old t p max n m c =
        let q = t.order.quantity in
        let held = p.position_quantity in
        ground (
          arith,
          str_eq_iff p.position_side position_long,
          str_eq_iff p.position_side position_short,
          str_eq_iff p.position_side position_flat,
          ne_of_str_eq position_long position_flat refl,
          ne_of_str_eq position_short position_flat refl,
          laws.zero_add held q,
          laws.add_nonneg held q,
          laws.sub_nonneg held q,
          laws.sub_le held q,
          laws.less_trans (d.sub held q) held max,
          laws.less_trans d.zero held max,
          laws.less_irrefl d.zero,
          laws.less_asym q held,
          c.0,
          c.1,
          c.2,
        )

    filled-IsCapped :
        (t : Trade D) (position : Option (Position D)) (max : D)
        → d.less t.order.quantity d.zero ≡ false
        → d.less max (new_position_size d t.order position) ≡ false
        → IsCapped max position
        → IsCapped max (some (position_after d t.order t.price t.commission t.id t.now position))
    unfolding new_position_size
    filled-IsCapped t none max n m c = filled_new t max n m
    filled-IsCapped t (some p) max n m c = filled_old t p max n m c

    checked_fill-IsCapped :
        (e : Engine) (strategy : Strategy D) (t : Trade D) (position : Option (Position D))
        → d.is_zero strategy.max_position_size ≡ false
        → d.less t.symbol.min_order_qty d.zero ≡ false
        → IsCapped strategy.max_position_size position
        → IsCapped strategy.max_position_size (checked_fill e strategy t position)
    unfolding checked_fill
    checked_fill-IsCapped e strategy t position limited positive c =
        fill_if-IsCapped (validate_order d e t.order strategy t.symbol t.balance position).0 t
          position strategy.max_position_size accepted c
      where
        accepted :
            (validate_order d e t.order strategy t.symbol t.balance position).0 ≡ none
            → IsCapped strategy.max_position_size (fill_if none t position)
        accepted h =
            let a = (validate_order_iff d e t.order strategy t.symbol t.balance position).0 h in
            let low =
              laws.less_trans d.zero t.symbol.min_order_qty t.order.quantity
                (ground (arith, positive)) (ground (arith, a.at_least)) in
            filled-IsCapped t position strategy.max_position_size (ground (arith, low))
              (ground (arith, a.within_size, limited)) c

    -- A strategy with a limit on its position never holds more: whatever orders come, if each is
    -- checked against the position and filled by the paper exchange when it is accepted, the position
    -- stays between zero and the limit, and long or short. The decimals obey the laws of their order,
    -- and no symbol has a negative least quantity.
    pub trade_all-IsCapped :
        (e : Engine) (strategy : Strategy D) (ts : List (Trade D)) (position : Option (Position D))
        → d.is_zero strategy.max_position_size ≡ false
        → Positive ts
        → IsCapped strategy.max_position_size position
        → IsCapped strategy.max_position_size (trade_all e strategy ts position)
    unfolding trade_all
    trade_all-IsCapped e strategy [] position limited positive c = c
    trade_all-IsCapped e strategy (t ∷ ts) position limited positive c =
        trade_all-IsCapped e strategy ts (checked_fill e strategy t position) limited positive.1
          (checked_fill-IsCapped e strategy t position limited positive.0 c)
