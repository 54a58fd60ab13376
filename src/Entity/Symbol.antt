-- ===== src/Entity/Symbol.antt =====
-- internal/domain/entity/symbol.go.
use kairos_agent.Base.{String, Bool, false, not, ◌||◌, str_eq, if◌then◌else◌}
use kairos_agent.Base.Int.{ℤ}
use kairos_agent.Entity.Decimal.{DecimalOps, greater, greater_eq}

abbrev pub SymbolStatus : Type 0
SymbolStatus = String

abbrev pub symbol_trading : SymbolStatus
symbol_trading = "trading"

abbrev pub symbol_delisted : SymbolStatus
symbol_delisted = "delisted"

pub record Symbol (D : Type 0) : Type 0 where
  pub name : String
  pub base_currency : String
  pub quote_currency : String
  pub symbol_status : SymbolStatus
  pub min_order_qty : D
  pub max_order_qty : D
  pub min_price : D
  pub max_price : D
  pub tick_size : D
  pub step_size : D
  pub min_notional : D
  pub maker_fee : D
  pub taker_fee : D
  pub symbol_updated_at_utc : ℤ

module _ {D : Type 0} where
  abbrev pub is_trading : Symbol D → Bool
  is_trading s = str_eq s.symbol_status symbol_trading

  abbrev pub is_delisted : Symbol D → Bool
  is_delisted s = str_eq s.symbol_status symbol_delisted

  abbrev pub blocks_new_entries : Symbol D → Bool
  blocks_new_entries s = not (str_eq s.symbol_status symbol_trading)

  abbrev pub requires_forced_close : Symbol D → Bool
  requires_forced_close s = str_eq s.symbol_status symbol_delisted

  unfoldable pub validate_quantity : DecimalOps D → Symbol D → D → Bool
  validate_quantity d s qty =
      if d.less qty s.min_order_qty || greater d qty s.max_order_qty
      then false
      else d.is_zero (d.mod_by qty s.step_size)

  unfoldable pub validate_price : DecimalOps D → Symbol D → D → Bool
  validate_price d s price =
      if d.less price s.min_price || greater d price s.max_price
      then false
      else d.is_zero (d.mod_by price s.tick_size)

  unfoldable pub validate_notional : DecimalOps D → Symbol D → D → D → Bool
  validate_notional d s qty price = greater_eq d (d.mul qty price) s.min_notional
