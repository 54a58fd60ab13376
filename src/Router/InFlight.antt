-- ===== src/Router/InFlight.antt =====
-- The orders in flight under any interleaving of the critical sections.
use kairos_agent.Base.{
  ℕ, suc, ◌+◌, ◌≤◌, String, ◌≡◌, refl, ◌⊎◌, inl, inr, Option, none, some, List, [], ◌∷◌, arith,
  if◌then◌else◌,
}
use kairos_agent.Base.Int.{ℤ, pos}
use kairos_agent.Base.Lists.{length}
use kairos_agent.Base.Dict.{
  Dict, lookup, IsMap, insert-IsMap, erase-IsMap, length-insert, length-erase,
}
use kairos_agent.Router.{
  admit_named, RoutingMode, InFlightOrder, OrderRouter, RouterError, write, or_generated, admit,
  settle,
}
use kairos_agent.Router.Tracking.{
  confirm_order, timeout_of, set_mode, unexpired, expired, cleanup_timed_out_orders,
}

-- The critical sections: the two of `SubmitOrder`, which any number of callers run in turn, and the
-- other calls. Between its two sections a caller waits for the exchange.
pub data Op : Type 0 where
  admits : ℤ → ℕ → Op
  settles : ℕ → String ⊎ RouterError → Op
  confirms : String → Op
  cleans : ℤ → Op
  sets_mode : RoutingMode → Op

pub unexpired-length :
    (timeout now : ℤ) (m : Dict InFlightOrder)
    → length (unexpired timeout now m) + length (expired timeout now m) ≡ length m
unfolding unexpired expired
unexpired-length timeout now [] = refl
unexpired-length timeout now ((id, f) ∷ m) = ground (arith, unexpired-length timeout now m)

pub unexpired-absent :
    (timeout now : ℤ) (id : String) (m : Dict InFlightOrder)
    → lookup id m ≡ none
    → lookup id (unexpired timeout now m) ≡ none
unfolding unexpired lookup
unexpired-absent timeout now id [] h = refl
unexpired-absent timeout now id ((j, f) ∷ m) h = ground (arith, unexpired-absent timeout now id m)

pub unexpired-IsMap :
    (timeout now : ℤ) (m : Dict InFlightOrder) → IsMap m → IsMap (unexpired timeout now m)
unfolding unexpired lookup
unexpired-IsMap timeout now [] h = tt
unexpired-IsMap timeout now ((j, f) ∷ m) h =
    ground (arith, unexpired-IsMap timeout now m h.1, unexpired-absent timeout now j m h.0)

module _ {W D : Type 0} (digest : String → String) where
  unfoldable pub step : Op → OrderRouter W D → OrderRouter W D
  step (admits now p) r = (admit digest now p r).1
  step (settles p answer) r = settle p answer r
  step (confirms id) r = confirm_order id r
  step (cleans now) r = let (n, events, r') = cleanup_timed_out_orders now r in r'
  step (sets_mode mode) r = set_mode mode r

  unfoldable pub run : List Op → OrderRouter W D → OrderRouter W D
  run [] r = r
  run (o ∷ os) r = run os (step o r)

module _ {W D : Type 0} where
  -- Each client id is in flight once, and there are at most as many orders as configured.
  pub record IsBounded (n : ℕ) (r : OrderRouter W D) : Type 0 where
    pub limit : r.config.max_in_flight_orders ≡ pos n
    pub count : length r.in_flight ≤ n
    pub unique : IsMap r.in_flight

module _ {W D : Type 0} (digest : String → String) where
  admit_named-IsBounded :
      (n : ℕ) (now : ℤ) (p : ℕ) (id : String) (found : Option InFlightOrder) (r : OrderRouter W D)
      → IsBounded n r
      → suc (length r.in_flight) ≤ n
      → IsBounded n (admit_named now p id found r).1
  unfolding admit_named
  admit_named-IsBounded n now p id (some f) r h room = h
  admit_named-IsBounded n now p id none r h room =
      let f : InFlightOrder = record {
        order = p;
        submitted_at = now;
        last_query_at = none;
        query_attempts = pos 0;
      } in
      ground (arith, length-insert id f r.in_flight, insert-IsMap id f r.in_flight h.unique)

  step-IsBounded :
      (n : ℕ) (o : Op) (r : OrderRouter W D) → IsBounded n r → IsBounded n (step digest o r)
  unfolding step admit settle confirm_order cleanup_timed_out_orders
  step-IsBounded n (admits now p) r h =
      let order = or_generated digest (r.heap p) in
      let written = record r { heap = write p order r.heap } in
      ground (
        arith,
        admit_named-IsBounded n now p order.client_order_id
            (if r.config.enable_idempotency then lookup order.client_order_id r.in_flight else none)
            written (record { limit = h.limit; count = h.count; unique = h.unique }),
      )
  step-IsBounded n (settles p (inl x)) r h = ground arith
  step-IsBounded n (settles p (inr e)) r h = ground (
    arith,
    length-erase (r.heap p).client_order_id r.in_flight,
    erase-IsMap (r.heap p).client_order_id r.in_flight h.unique,
  )
  step-IsBounded n (confirms id) r h =
      ground (arith, length-erase id r.in_flight, erase-IsMap id r.in_flight h.unique)
  step-IsBounded n (cleans now) r h = ground (
    arith,
    unexpired-length (timeout_of r) now r.in_flight,
    unexpired-IsMap (timeout_of r) now r.in_flight h.unique,
  )
  step-IsBounded n (sets_mode mode) r h = record {
    limit = h.limit;
    count = h.count;
    unique = h.unique;
  }

  -- Whatever callers interleave (the two critical sections of any number of submissions, with any
  -- answers of the exchange, confirmations, cleanups and changes of the mode), a router never tracks
  -- more orders than configured, and each client id at most once.
  pub run-IsBounded :
      (n : ℕ) (os : List Op) (r : OrderRouter W D) → IsBounded n r → IsBounded n (run digest os r)
  unfolding run
  run-IsBounded n [] r h = h
  run-IsBounded n (o ∷ os) r h = run-IsBounded n os (step digest o r) (step-IsBounded n o r h)
