-- ===== src/Router/Cleanup.antt =====
-- `CleanupTimedOutOrders`: what it removes and what it keeps.
use kairos_agent.Base.{
  suc, ◌+◌, String, ◌≡◌, refl, ap, Option, none, some, List, [], ◌∷◌, map, arith, str_eq_iff,
  if◌then◌else◌,
}
use kairos_agent.Base.Int.{ℤ}
use kairos_agent.Base.Lists.{length}
use kairos_agent.Base.Dict.{Dict, lookup, IsMap}
use kairos_agent.Router.{InFlightOrder, OrderRouter}
use kairos_agent.Router.Tracking.{
  timeout_event, timeout_of, is_expired, unexpired, expired, cleanup_timed_out_orders,
}
use kairos_agent.Router.InFlight.{unexpired-length, unexpired-absent}

-- The entry, unless it has expired.
abbrev pub unless_expired : ℤ → ℤ → Option InFlightOrder → Option InFlightOrder
unless_expired timeout now none = none
unless_expired timeout now (some f) = if is_expired timeout now f then none else some f

kept_by_cleanup :
    (timeout now : ℤ) (id : String) (m : Dict InFlightOrder)
    → IsMap m
    → lookup id (unexpired timeout now m) ≡ unless_expired timeout now (lookup id m)
unfolding unexpired lookup
kept_by_cleanup timeout now id [] h = refl
kept_by_cleanup timeout now id ((j, f) ∷ m) h = ground (
  arith,
  str_eq_iff j id,
  kept_by_cleanup timeout now id m h.1,
  unexpired-absent timeout now j m h.0,
)

length-map : {A B : Type 0} (f : A → B) (l : List A) → length (map f l) ≡ length l
length-map f [] = refl
length-map f (x ∷ xs) = ap suc (length-map f xs)

module _ {W D : Type 0} where
  -- A cleanup removes the orders whose submission is longer ago than the timeout, and keeps every
  -- other with its entry. The count that it returns is the number of the orders that are gone, and
  -- with a publisher there is one event for each. (Each client id is in flight once.)
  pub cleanup-removes :
      (now : ℤ) (r : OrderRouter W D)
      → IsMap r.in_flight
      → let (count, events, next) = cleanup_timed_out_orders now r in
        ((id : String)
          → lookup id next.in_flight ≡ unless_expired (timeout_of r) now (lookup id r.in_flight))
        × (length next.in_flight + count ≡ length r.in_flight)
        × (length events ≡ (if r.publisher then count else 0))
  unfolding cleanup_timed_out_orders
  cleanup-removes now r h = (
    λ id. kept_by_cleanup (timeout_of r) now id r.in_flight h,
    unexpired-length (timeout_of r) now r.in_flight,
    ground (
      arith,
      length-map (λ f. timeout_event now (r.heap f.order)) (expired (timeout_of r) now r.in_flight),
    ),
  )
