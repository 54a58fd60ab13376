-- ===== src/Risk/LossLimit.antt =====
-- The daily loss limit: `HasReachedDailyLossLimit`, `UpdatePnL` and the checks of the engine.
use kairos_agent.Base.{◌≡◌, ◌≢◌, true, false, Option, none, List, [], ◌∷◌, arith}
use kairos_agent.Base.Int.{ℤ}
use kairos_agent.Base.Lists.{All}
use kairos_agent.Entity.Decimal.{DecimalOps, DecimalLaws}
use kairos_agent.Entity.Order.{Order}
use kairos_agent.Entity.Symbol.{Symbol}
use kairos_agent.Entity.Position.{Position, Balance}
use kairos_agent.Entity.Strategy.{Strategy, has_reached_daily_loss_limit, update_pnl}
use kairos_agent.Risk.{Engine, validate_order, should_block_new_entries}

module _ {D : Type 0} (d : DecimalOps D) where
  -- The profits of trades, one after another, each with its time.
  unfoldable pub update_all : List (D × ℤ) → Strategy D → Strategy D
  update_all [] s = s
  update_all ((pnl, now) ∷ l) s = update_all l (update_pnl d pnl now s)

  abbrev pub NoGains : List (D × ℤ) → Type 0
  NoGains = All (λ t. d.less d.zero t.0 ≡ false)

  module _ (laws : DecimalLaws d) where
    loss_keeps :
        (pnl : D) (now : ℤ) (s : Strategy D)
        → d.less d.zero pnl ≡ false
        → has_reached_daily_loss_limit d s ≡ true
        → has_reached_daily_loss_limit d (update_pnl d pnl now s) ≡ true
    unfolding has_reached_daily_loss_limit update_pnl
    loss_keeps pnl now s losing reached = ground (
      arith,
      laws.add_nonpos s.daily_pnl pnl,
      laws.less_trans (d.add s.daily_pnl pnl) s.daily_pnl (d.neg s.max_daily_loss),
    )

    all_keep :
        (l : List (D × ℤ)) (s : Strategy D)
        → NoGains l
        → has_reached_daily_loss_limit d s ≡ true
        → has_reached_daily_loss_limit d (update_all l s) ≡ true
    unfolding update_all
    all_keep [] s losing reached = reached
    all_keep ((pnl, now) ∷ l) s losing reached =
        all_keep l (update_pnl d pnl now s) losing.1 (loss_keeps pnl now s losing.0 reached)

    blocked_order :
        (e : Engine) (order : Order D) (s : Strategy D) (symbol : Symbol D)
        (balance : Option (Balance D)) (position : Option (Position D))
        → has_reached_daily_loss_limit d s ≡ true
        → (validate_order d e order s symbol balance position).0 ≢ none
    unfolding validate_order
    blocked_order e order s symbol balance position reached = ground arith

    -- Once a strategy has reached its daily loss limit, trades without a gain never lift the block:
    -- new entries stay blocked for every symbol, and `ValidateOrder` accepts no order, whatever the
    -- order, the symbol, the balance and the position are.
    pub loss_limit_blocks :
        (l : List (D × ℤ)) (s : Strategy D) (e : Engine) (order : Order D) (symbol : Symbol D)
        (balance : Option (Balance D)) (position : Option (Position D))
        → has_reached_daily_loss_limit d s ≡ true
        → NoGains l
        → (should_block_new_entries d (update_all l s) symbol ≡ true)
          × ((validate_order d e order (update_all l s) symbol balance position).0 ≢ none)
    unfolding should_block_new_entries
    loss_limit_blocks l s e order symbol balance position reached losing =
        let still = all_keep l s losing reached in
        (
          ground (arith, still),
          blocked_order e order (update_all l s) symbol balance position still,
        )
