-- ===== src/Entity/Position.antt =====
-- internal/domain/entity/position.go and balance.go.
use kairos_agent.Base.{String, Bool, not, ◌||◌, Option, str_eq, if◌then◌else◌}
use kairos_agent.Base.Int.{ℤ}
use kairos_agent.Entity.Decimal.{DecimalOps, greater_eq}

abbrev pub PositionSide : Type 0
PositionSide = String

abbrev pub position_long : PositionSide
position_long = "long"

abbrev pub position_short : PositionSide
position_short = "short"

abbrev pub position_flat : PositionSide
position_flat = "flat"

pub record Position (D : Type 0) : Type 0 where
  pub position_id : String
  pub position_strategy_id : String
  pub position_symbol : String
  pub position_side : PositionSide
  pub position_quantity : D
  pub entry_price : D
  pub current_price : D
  pub unrealized_pnl : D
  pub realized_pnl : D
  pub opened_at_utc : ℤ
  pub position_updated_at_utc : ℤ
  pub closed_at_utc : Option ℤ

pub record Balance (D : Type 0) : Type 0 where
  pub asset : String
  pub total : D
  pub available : D
  pub locked : D
  pub balance_updated_at_utc : ℤ

module _ {D : Type 0} (d : DecimalOps D) where
  abbrev pub is_flat : Position D → Bool
  is_flat p = d.is_zero p.position_quantity || str_eq p.position_side position_flat

  abbrev pub is_position_open : Position D → Bool
  is_position_open p = not (is_flat p)

  unfoldable pub update_unrealized_pnl : D → ℤ → Position D → Position D
  update_unrealized_pnl price now p =
      let diff = d.sub price p.entry_price in
      let signed = if str_eq p.position_side position_short then d.neg diff else diff in
      record p {
        current_price = price;
        unrealized_pnl = d.mul signed p.position_quantity;
        position_updated_at_utc = now;
      }

  unfoldable pub total_pnl : Position D → D
  total_pnl p = d.add p.realized_pnl p.unrealized_pnl

  abbrev pub has_sufficient_available : Balance D → D → Bool
  has_sufficient_available b required = greater_eq d b.available required
