-- ===== src/Engine/Draining.antt =====
-- The end of a delivery goroutine of the event bus: internal/engine/eventbus.go.
use kairos_agent.Base.{
  ℕ, zero, suc, ◌≡◌, refl, sym, ap, ◌∙◌, true, false, ◌||◌, List, [], ◌∷◌, ◌++◌, arith,
  if◌then◌else◌,
}
use kairos_agent.Base.Lists.{length}
use kairos_agent.Engine.EventBus.{Subscription, EventBus, assigned, delivered, deliver_events}
use kairos_agent.Engine.Sending.{list_nil, list_assoc, sent_to}

module _ {E : Type 0} where
  -- Rounds of the goroutine of a subscription.
  unfoldable pub deliver_rounds : ℕ → ℕ → EventBus E → EventBus E
  deliver_rounds zero p b = b
  deliver_rounds (suc n) p b = deliver_rounds n p (deliver_events p b)

  -- The subscription with its channel emptied into the handler, and the goroutine returned.
  abbrev pub drained : Subscription E → Subscription E
  drained s = record s { received = sent_to s; queue = []; delivering = false }

  assigned_self : (p : ℕ) (s : Subscription E) (heap : ℕ → Subscription E) → assigned p s heap p ≡ s
  unfolding assigned
  assigned_self p s heap = ground arith

  deliver_lem :
      (p : ℕ) (b : EventBus E) (s : Subscription E)
      → b.heap p ≡ s
      → s.delivering ≡ true
      → ((deliver_events p b).heap p ≡ delivered b.is_done s.queue s)
        × ((deliver_events p b).is_done ≡ b.is_done)
  unfolding deliver_events
  deliver_lem p b s at runs =
      let runs_there : (b.heap p).delivering ≡ true = ap (λ t. t.delivering) at ∙ runs in
      let taken = record b {
        heap = assigned p (delivered b.is_done (b.heap p).queue (b.heap p)) b.heap;
      } in
      (
        ap (λ c. (if c then taken else b).heap p) runs_there
            ∙ assigned_self p (delivered b.is_done (b.heap p).queue (b.heap p)) b.heap
            ∙ ap (λ t. delivered b.is_done t.queue t) at,
        ap (λ c. (if c then taken else b).is_done) runs_there,
      )

  drains_from :
      (l : List E) (p : ℕ) (b : EventBus E) (s : Subscription E)
      → b.heap p ≡ s
      → s.queue ≡ l
      → s.delivering ≡ true
      → s.stopped || b.is_done ≡ true
      → (deliver_rounds (suc (length l)) p b).heap p ≡ drained s
  unfolding deliver_rounds delivered
  drains_from [] p b s at holds runs ends =
      (deliver_lem p b s at runs).0
      ∙ rw holds (
          rw ends (
            ap (λ l. record s { queue = []; received = l; delivering = false })
              (sym (list_nil s.received))))
  drains_from (e ∷ rest) p b s at holds runs ends =
      let next = record s { queue = rest; received = s.received ++ (e ∷ []) } in
      let step = deliver_lem p b s at runs in
      let there : (deliver_events p b).heap p ≡ next =
        step.0 ∙ ap (λ l. delivered b.is_done l s) holds in
      drains_from rest p (deliver_events p b) next there refl runs
        (ap (λ d. s.stopped || d) step.1 ∙ ends)
      ∙ ap (λ l. record s { queue = []; received = l; delivering = false })
          (list_assoc s.received (e ∷ []) rest ∙ ap (λ l. s.received ++ l) (sym holds))

  -- The goroutine of a subscription that is stopped, or of a bus that is done, returns within one round
  -- more than its channel holds events, and its handler has then got all of them, in order: the wait of
  -- `Shutdown` for the goroutines ends when the handlers return.
  pub ended_drains :
      (p : ℕ) (b : EventBus E)
      → (b.heap p).delivering ≡ true
      → (b.heap p).stopped || b.is_done ≡ true
      → (deliver_rounds (suc (length (b.heap p).queue)) p b).heap p ≡ drained (b.heap p)
  ended_drains p b runs ends = drains_from (b.heap p).queue p b (b.heap p) refl refl runs ends
