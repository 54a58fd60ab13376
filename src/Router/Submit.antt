-- ===== src/Router/Submit.antt =====
-- `SubmitOrder` from end to end.
use kairos_agent.Base.{
  ℕ, String, ◌≡◌, refl, ap, ◌∙◌, ◌⊎◌, inl, inr, Bool, true, false, Option, none, some, arith,
  str_eq, ◌==◌, if◌then◌else◌,
}
use kairos_agent.Base.Int.{ℤ, pos, leb_ℤ}
use kairos_agent.Base.Lists.{length}
use kairos_agent.Base.Dict.{
  lookup-erase-insert, lookup, insert, lookup-insert, lookup-insert_self, IsMap,
}
use kairos_agent.Router.{
  after_admission, routing_live, Exchange, InFlightOrder, OrderRouter, exchange_error, admitted,
  write, or_generated, check_entry, admit, route, settle, submit_order,
}

abbrev pub tracked : ℤ → ℕ → InFlightOrder
tracked now p = record {
  order = p;
  submitted_at = now;
  last_query_at = none;
  query_attempts = pos 0;
}

if_none : {A : Type 0} (b : Bool) (o : Option A) → o ≡ none → (if b then o else none) ≡ none
if_none true o h = h
if_none false o h = refl

same : (n : ℕ) → (n == n) ≡ true
same n = ground arith

module _ {W D : Type 0} (digest : String → String) where
  -- The client id that `SubmitOrder` gives an order.
  abbrev pub client_id : ℕ → OrderRouter W D → String
  client_id p r = (or_generated digest (r.heap p)).client_order_id

  -- The gate lets the entry pass, and there is room in flight.
  abbrev pub Accepts : OrderRouter W D → W → Type 0
  Accepts r w =
      (check_entry r w ≡ none)
      × (leb_ℤ r.config.max_in_flight_orders (pos (length r.in_flight)) ≡ false)

  -- The router when its order has its client id.
  abbrev named : ℕ → OrderRouter W D → OrderRouter W D
  named p r = record r { heap = write p (or_generated digest (r.heap p)) r.heap }

  submit_of_pass :
      (now : ℤ) (p : ℕ) (r : OrderRouter W D) (w : W)
      → check_entry r w ≡ none
      → submit_order digest now p r w ≡ after_admission p (admit digest now p r) w
  unfolding submit_order
  submit_of_pass now p r w pass = rw pass refl

  admit_fresh :
      (now : ℤ) (p : ℕ) (r : OrderRouter W D)
      → leb_ℤ r.config.max_in_flight_orders (pos (length r.in_flight)) ≡ false
      → lookup (client_id p r) r.in_flight ≡ none
      → admit digest now p r ≡ (
        admitted,
        record (named p r) { in_flight = insert (client_id p r) (tracked now p) r.in_flight },
      )
  unfolding admit
  admit_fresh now p r room fresh =
      rw (room, if_none r.config.enable_idempotency (lookup (client_id p r) r.in_flight) fresh) refl

  -- The router between the two critical sections.
  abbrev sent_by : ℤ → ℕ → OrderRouter W D → OrderRouter W D
  sent_by now p r = record (named p r) {
    in_flight = insert (client_id p r) (tracked now p) r.in_flight;
  }

  module _ (now : ℤ) (p : ℕ) (r : OrderRouter W D) (w w' : W) (x : Exchange W D)
      (accepts : Accepts r w) (fresh : lookup (client_id p r) r.in_flight ≡ none)
      (live : r.config.mode ≡ routing_live) (configured : r.connector ≡ some x) where
    submitted : submit_order digest now p r w ≡ after_admission p (admitted, sent_by now p r) w
    submitted =
        submit_of_pass now p r w accepts.0
        ∙ ap (λ a. after_admission p a w) (admit_fresh now p r accepts.1 fresh)

    routed :
        (answer : String ⊎ String)
        → x.submit (or_generated digest (r.heap p)) w ≡ (answer, w')
        → route p (sent_by now p r) w
          ≡ (elim answer [ inl id ↦ inl id | inr e ↦ inr (exchange_error e) ], w')
    unfolding route
    routed answer sent = rw (live, configured, same p, sent) refl

    -- A submission that is no duplicate and that the exchange refuses leaves everything in flight as
    -- it was, and the caller gets the error. (The live mode, with a connector.)
    pub submit_refused :
        (e : String)
        → IsMap r.in_flight
        → x.submit (or_generated digest (r.heap p)) w ≡ (inr e, w')
        → let (answer, next, after) = submit_order digest now p r w in
          (answer ≡ inr (exchange_error e))
          × (after ≡ w')
          × ((j : String) → lookup j next.in_flight ≡ lookup j r.in_flight)
    unfolding after_admission settle
    submit_refused e m sent =
        rw (submitted, routed (inr e) sent, same p)
          (
            refl,
            refl,
            λ j. lookup-erase-insert (client_id p r) j (tracked now p) r.in_flight m fresh,
          )

    -- A submission that is no duplicate and that the exchange accepts is in flight under its client
    -- id, everything else in flight stays as it was, the order has the exchange's id, and the caller
    -- gets that id. (The live mode, with a connector.)
    pub submit_sent :
        (id : String)
        → x.submit (or_generated digest (r.heap p)) w ≡ (inl id, w')
        → let (answer, next, after) = submit_order digest now p r w in
          (answer ≡ inl id)
          × (after ≡ w')
          × ((next.heap p).exchange_order_id ≡ id)
          × ((j : String)
              → lookup j next.in_flight
                ≡ (if str_eq (client_id p r) j then some (tracked now p) else lookup j r.in_flight))
    unfolding after_admission settle
    submit_sent id sent =
        rw
          (
            submitted,
            routed (inl id) sent,
            same p,
            lookup-insert_self (client_id p r) (tracked now p) r.in_flight,
            same p,
          )
          (refl, refl, refl, λ j. lookup-insert (client_id p r) j (tracked now p) r.in_flight)
