-- ===== src/Events/Delivery.antt =====
-- What publishing an event does, handler by handler.
use kairos_agent.Base.{String, ◌≡◌, refl, Option, none, some, List, [], ◌∷◌}
use kairos_agent.Events.Outcome.{safe_handle}
use kairos_agent.Events.Publisher.{
  Handler, Publisher, first_error, handlers_of, invoke, publish_loop, publish,
}

abbrev pub first_of_all : List (Option String) → Option String
first_of_all [] = none
first_of_all (none ∷ l) = first_of_all l
first_of_all (some e ∷ l) = some e

first_error-all :
    (e : Option String) (l : List (Option String))
    → first_error e (first_of_all l) ≡ first_of_all (e ∷ l)
first_error-all none l = refl
first_error-all (some e) l = refl

first_error_assoc :
    (a b c : Option String) → first_error (first_error a b) c ≡ first_error a (first_error b c)
first_error_assoc none b c = refl
first_error_assoc (some a) b c = refl

first_error-none : (a : Option String) → first_error a none ≡ a
first_error-none none = refl
first_error-none (some a) = refl

module _ {W E : Type 0} where
  -- The errors of all the handlers, each called in the world that the one before it left, and the
  -- world after the last.
  abbrev pub errors_of : List (Handler W E) → E → W → List (Option String) × W
  errors_of [] event w = ([], w)
  errors_of (h ∷ hs) event w =
      let (outcome, w') = invoke h event w in
      let (errors, last) = errors_of hs event w' in (safe_handle outcome ∷ errors, last)

  loop_errors :
      (hs : List (Handler W E)) (event : E) (first : Option String) (w : W)
      → publish_loop hs event first w
        ≡ (first_error first (first_of_all (errors_of hs event w).0), (errors_of hs event w).1)
  unfolding publish_loop
  loop_errors [] event first w = rw (first_error-none first)
  loop_errors (h ∷ hs) event first w =
      let (outcome, w') = invoke h event w in
      let e = safe_handle outcome in
      rw (
        loop_errors hs event (first_error first e) w',
        first_error_assoc first e (first_of_all (errors_of hs event w').0),
        first_error-all e (errors_of hs event w').0,
      )

  -- Publishing an event calls every handler of its type once, in the order of registration, also
  -- after one that failed or panicked, and returns the first error.
  pub publish_calls_all :
      (type_of : E → String) (event : E) (p : Publisher W E) (w : W)
      → let (errors, last) = errors_of (handlers_of (type_of event) p) event w in
        publish type_of (some event) p w ≡ (first_of_all errors, last)
  unfolding publish
  publish_calls_all type_of event p w = loop_errors (handlers_of (type_of event) p) event none w
