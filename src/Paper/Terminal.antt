-- ===== src/Paper/Terminal.antt =====
-- Orders of the paper exchange that have reached their end.
use kairos_agent.Base.{
  String, ◌≡◌, refl, ap, ◌∙◌, ◌≢◌, Bool, true, none, some, List, [], ◌∷◌, arith, str_eq_iff,
  ne_of_str_eq, append,
}
use kairos_agent.Base.Int.{ℤ}
use kairos_agent.Base.Lists.{All}
use kairos_agent.Base.Dict.{lookup, lookup-insert, lookup-insert_ne}
use kairos_agent.Entity.Decimal.{DecimalOps}
use kairos_agent.Entity.Order.{
  order_submitted, order_filled, order_canceled, order_rejected, Order, is_terminal,
}
use kairos_agent.Paper.{Simulator, submit_order, cancel_order, update_market_price, simulate_fill}

-- The operations, and the steps of the goroutines.
pub data Op (D : Type 0) : Type 0 where
  submit : String → ℤ → Order D → Op D
  cancel : String → ℤ → Op D
  price_of : String → D → ℤ → Op D
  filling_of : Bool → String → String → ℤ → Op D

module _ {D : Type 0} where
  -- No submission gets the id (the ids are the times of the submissions).
  abbrev pub Avoids : String → Op D → Type 0
  Avoids id (submit nanos now order) = append "paper_" nanos ≢ id
  Avoids id (cancel _ _) = Unit
  Avoids id (price_of _ _ _) = Unit
  Avoids id (filling_of _ _ _ _) = Unit

module _ {D : Type 0} (d : DecimalOps D) where
  unfoldable pub step : Op D → Simulator D → Simulator D
  step (submit nanos now order) s = (submit_order d nanos now order s).1
  step (cancel id now) s = (cancel_order d id now s).1
  step (price_of symbol price now) s = update_market_price d symbol price now s
  step (filling_of context_done id position now) s = simulate_fill d context_done id position now s

  unfoldable pub run : List (Op D) → Simulator D → Simulator D
  run [] s = s
  run (o ∷ os) s = run os (step o s)

  fill_terminal :
      (c : Bool) (id position : String) (now : ℤ) (s : Simulator D) (o : Order D)
      → lookup id s.orders ≡ some o
      → is_terminal o ≡ true
      → simulate_fill d c id position now s ≡ s
  unfolding simulate_fill is_terminal
  fill_terminal c id position now s o found t = ground (
    arith,
    str_eq_iff o.order_status order_submitted,
    str_eq_iff o.order_status order_filled,
    str_eq_iff o.order_status order_canceled,
    str_eq_iff o.order_status order_rejected,
    ne_of_str_eq order_submitted order_filled refl,
    ne_of_str_eq order_submitted order_canceled refl,
    ne_of_str_eq order_submitted order_rejected refl,
  )

  other_fill :
      (c : Bool) (id j position : String) (now : ℤ) (s : Simulator D)
      → id ≢ j
      → lookup j (simulate_fill d c id position now s).orders ≡ lookup j s.orders
  unfolding simulate_fill
  other_fill c id j position now s ne = grind (arith, lookup-insert_ne {V = Order D} id j ne)

  other_cancel :
      (id j : String) (now : ℤ) (s : Simulator D)
      → id ≢ j
      → lookup j (cancel_order d id now s).1.orders ≡ lookup j s.orders
  unfolding cancel_order
  other_cancel id j now s ne = grind (arith, lookup-insert_ne {V = Order D} id j ne)

  cancel_terminal :
      (id : String) (now : ℤ) (s : Simulator D) (o : Order D)
      → lookup id s.orders ≡ some o
      → is_terminal o ≡ true
      → (cancel_order d id now s).1 ≡ s
  unfolding cancel_order
  cancel_terminal id now s o found t = ground arith

  other_submit :
      (nanos j : String) (now : ℤ) (order : Order D) (s : Simulator D)
      → append "paper_" nanos ≢ j
      → lookup j (submit_order d nanos now order s).1.orders ≡ lookup j s.orders
  unfolding submit_order
  other_submit nanos j now order s ne =
      grind (arith, lookup-insert_ne {V = Order D} (append "paper_" nanos) j ne)

  market-orders :
      (symbol : String) (price : D) (now : ℤ) (s : Simulator D)
      → (update_market_price d symbol price now s).orders ≡ s.orders
  unfolding update_market_price
  market-orders symbol price now s = refl

  step_keeps :
      (op : Op D) (id : String) (s : Simulator D) (o : Order D)
      → Avoids id op
      → lookup id s.orders ≡ some o
      → is_terminal o ≡ true
      → lookup id (step op s).orders ≡ some o
  unfolding step
  step_keeps (submit nanos now order) id s o avoids found t =
      other_submit nanos id now order s avoids ∙ found
  step_keeps (price_of symbol price now) id s o avoids found t =
      ap (λ m. lookup id m) (market-orders symbol price now s) ∙ found
  step_keeps (cancel i now) id s o avoids found t =
      ground (arith, str_eq_iff i id, other_cancel i id now s, cancel_terminal id now s o found t)
  step_keeps (filling_of c i position now) id s o avoids found t = ground (
    arith,
    str_eq_iff i id,
    other_fill c i id position now s,
    fill_terminal c id position now s o found t,
  )

  run_keeps :
      (ops : List (Op D)) (id : String) (s : Simulator D) (o : Order D)
      → All (Avoids id) ops
      → lookup id s.orders ≡ some o
      → is_terminal o ≡ true
      → lookup id (run ops s).orders ≡ some o
  unfolding run
  run_keeps [] id s o avoids found t = found
  run_keeps (op ∷ ops) id s o avoids found t =
      run_keeps ops id (step op s) o avoids.1 (step_keeps op id s o avoids.0 found t) t

  canceled :
      (id : String) (now : ℤ) (s : Simulator D) (o : Order D)
      → lookup id s.orders ≡ some o
      → (cancel_order d id now s).0 ≡ none
      → lookup id (cancel_order d id now s).1.orders
        ≡ some (record o { order_status = order_canceled; updated_at_utc = now })
  unfolding cancel_order
  canceled id now s o found ok =
      grind (arith, str_eq_iff id id, lookup-insert {V = Order D} id id, found, ok)

  -- Once `CancelOrder` has canceled an order, it stays canceled whatever is submitted, canceled,
  -- priced or filled later (as long as no new order gets its id), and its goroutine then fills
  -- nothing: the balance, the positions and the orders stay as they are.
  pub canceled_never_fills :
      (ops : List (Op D)) (id position : String) (now later : ℤ) (done : Bool) (s : Simulator D)
      (o : Order D)
      → lookup id s.orders ≡ some o
      → (cancel_order d id now s).0 ≡ none
      → All (Avoids id) ops
      → let last = run ops (cancel_order d id now s).1 in
        (lookup id last.orders
          ≡ some (record o { order_status = order_canceled; updated_at_utc = now }))
        × (simulate_fill d done id position later last ≡ last)
  unfolding is_terminal
  canceled_never_fills ops id position now later done s o found ok avoids =
      let o' = record o { order_status = order_canceled; updated_at_utc = now } in
      let kept =
        run_keeps ops id (cancel_order d id now s).1 o' avoids (canceled id now s o found ok)
          (ground arith) in
      (
        kept,
        fill_terminal done id position later (run ops (cancel_order d id now s).1) o' kept
            (ground arith),
      )
