-- ===== src/Paper/Closing.antt =====
-- Fills against the position.
use kairos_agent.Base.{◌≡◌, refl, ◌∙◌, false, List, [], ◌∷◌, arith, str_eq_iff, ne_of_str_eq}
use kairos_agent.Base.Int.{ℤ}
use kairos_agent.Base.Lists.{All}
use kairos_agent.Entity.Decimal.{DecimalOps}
use kairos_agent.Entity.Order.{side_buy, side_sell, Order}
use kairos_agent.Entity.Position.{position_long, position_short, Position}
use kairos_agent.Paper.{calculate_realized_pnl, updated}

-- A fill: the order, the price, the commission and the time.
pub record Fill (D : Type 0) : Type 0 where
  pub order : Order D
  pub price : D
  pub commission : D
  pub now : ℤ

module _ {D : Type 0} (d : DecimalOps D) where
  unfoldable pub fills : List (Fill D) → Position D → Position D
  fills [] p = p
  fills (f ∷ fs) p = fills fs (updated d f.order f.price f.commission f.now p)

  abbrev pub Sells : List (Fill D) → Type 0
  Sells = All (λ f. (f.order.side ≡ side_sell) × (d.less f.order.quantity d.zero ≡ false))

  sell_on_closed :
      (f : Fill D) (p : Position D)
      → p.position_quantity ≡ d.zero
      → p.position_side ≡ position_long
      → (f.order.side ≡ side_sell) × (d.less f.order.quantity d.zero ≡ false)
      → let next = updated d f.order f.price f.commission f.now p in
        (next.position_quantity ≡ d.zero)
        × (next.position_side ≡ position_long)
        × (next.entry_price ≡ p.entry_price)
        × (next.realized_pnl
            ≡ d.sub
                (d.add p.realized_pnl (d.mul (d.sub f.price p.entry_price) f.order.quantity))
                f.commission)
  unfolding updated calculate_realized_pnl
  sell_on_closed f p q l (s, n) = ground (
    arith,
    str_eq_iff f.order.side side_sell,
    str_eq_iff f.order.side side_buy,
    str_eq_iff p.position_side position_long,
    str_eq_iff p.position_side position_short,
    ne_of_str_eq side_sell side_buy refl,
    ne_of_str_eq position_long position_short refl,
    q,
  )

  -- The profit that the fills book against one entry price.
  unfoldable pub booked : List (Fill D) → D → D → D
  booked [] entry r = r
  booked (f ∷ fs) entry r =
      booked fs entry (d.sub (d.add r (d.mul (d.sub f.price entry) f.order.quantity)) f.commission)

  -- Once a long position is closed, no sale opens a short position: after any sales the position is
  -- still long with the quantity zero, and yet each sale books the difference of its price to the old
  -- entry price, times its quantity, as realized profit.
  pub closed_long_stays :
      (fs : List (Fill D)) (p : Position D)
      → p.position_quantity ≡ d.zero
      → p.position_side ≡ position_long
      → Sells fs
      → let last = fills fs p in
        (last.position_quantity ≡ d.zero)
        × (last.position_side ≡ position_long)
        × (last.realized_pnl ≡ booked fs p.entry_price p.realized_pnl)
  unfolding fills booked
  closed_long_stays [] p q l s = (q, l, refl)
  closed_long_stays (f ∷ fs) p q l s =
      let (q', l', e, r) = sell_on_closed f p q l s.0 in
      let rest = closed_long_stays fs (updated d f.order f.price f.commission f.now p) q' l' s.1 in
      (rest.0, rest.1, rest.2 ∙ cc)
