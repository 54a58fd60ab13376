-- ===== src/Reconciliation/Positions.antt =====
-- What the reconciliation of positions does to them.
use kairos_agent.Base.{
  String, ◌≡◌, refl, ap, ◌∙◌, not, ◌&&◌, Option, none, some, List, [], ◌∷◌, map, arith,
  if◌then◌else◌,
}
use kairos_agent.Base.Int.{ℤ}
use kairos_agent.Base.Dict.{Dict, lookup}
use kairos_agent.Entity.Decimal.{DecimalOps}
use kairos_agent.Entity.Position.{PositionSide, position_flat, Position, is_flat}
use kairos_agent.Reconciliation.{
  ReconcileResult, Pass, closed, revalued, is_gone, updated, position_against, position_loop,
}

module _ {D : Type 0} (d : DecimalOps D) where
  -- The side of a position after the pass, from what the exchange has for its symbol.
  unfoldable pub side_after : Option (Position D) → Position D → PositionSide
  side_after exchange p =
      if is_gone d exchange && not (is_flat d p) then position_flat else p.position_side

  module _ (update : Position D → Option String) where
    updated_side :
        (p : Position D) (answer : Option String) (later : Pass (Position D))
        → (updated d update p answer later).objects ≡ p ∷ later.objects
    updated_side p none later = refl
    updated_side p (some e) later = refl

    against_side :
        (now : ℤ) (p : Position D) (exchange : Option (Position D)) (later : Pass (Position D))
        → map (λ q. q.position_side) (position_against d update now p exchange later).objects
          ≡ side_after exchange p ∷ map (λ q. q.position_side) later.objects
    unfolding side_after
    against_side now p none later =
        ground (arith, updated_side (closed d now none p) (update (closed d now none p)) later)
    against_side now p (some exchange) later = ground (
      arith,
      updated_side (closed d now (some exchange) p) (update (closed d now (some exchange) p)) later,
      updated_side (revalued d now exchange p) (update (revalued d now exchange p)) later,
    )

    -- After `ReconcilePositions`, the sides of the local positions are as before, but for those that
    -- the exchange does not have any more, or has as flat: these are flat. So the side that the exchange
    -- reports for an open position is never taken over.
    pub positions_keep_sides :
        (now : Position D → ℤ) (held : Dict (Position D)) (local : List (Position D))
        (r : ReconcileResult)
        → map (λ q. q.position_side) (position_loop d update now held local r).objects
          ≡ map (λ p. side_after (lookup p.position_symbol held) p) local
    unfolding position_loop
    positions_keep_sides now held [] r = refl
    positions_keep_sides now held (p ∷ rest) r =
        against_side (now p) p (lookup p.position_symbol held)
          (position_loop d update now held rest r)
        ∙ ap (◌∷◌ (side_after (lookup p.position_symbol held) p))
            (positions_keep_sides now held rest r)
