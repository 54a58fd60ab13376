-- ===== src/Engine/Sending.antt =====
-- The events that a subscription of the event bus was sent: internal/engine/eventbus.go.
use kairos_agent.Base.{
  ℕ, ◌<◌, ◌≡◌, refl, sym, ap, ◌∙◌, Bool, true, false, ◌||◌, List, [], ◌∷◌, ◌++◌, arith, ◌==◌,
  if_cases,
}
use kairos_agent.Engine.EventBus.{Subscription, assigned, stop_at, push_at, delivered, stop_each}

module _ {V : Type 0} where
  pub list_nil : (l : List V) → l ++ [] ≡ l
  list_nil [] = refl
  list_nil (x ∷ l) = ap (λ r. x ∷ r) (list_nil l)

  pub list_assoc : (a b c : List V) → (a ++ b) ++ c ≡ a ++ (b ++ c)
  list_assoc [] b c = refl
  list_assoc (x ∷ a) b c = ap (λ r. x ∷ r) (list_assoc a b c)

module _ {E : Type 0} where
  -- The events that a subscription was sent: those that its handler got, then those that wait.
  abbrev pub sent_to : Subscription E → List E
  sent_to s = s.received ++ s.queue

  -- The later state of a subscription: more may have been sent, nothing is lost or reordered.
  abbrev pub Extends : Subscription E → Subscription E → Type 0
  Extends s later = (more : List E) × (sent_to later ≡ sent_to s ++ more)

  pub Extends-same : (s : Subscription E) → Extends s s
  Extends-same s = ([], sym (list_nil (sent_to s)))

  pub Extends-trans : (a b c : Subscription E) → Extends a b → Extends b c → Extends a c
  Extends-trans a b c (m, first) (n, second) =
      (m ++ n, second ∙ ap (λ l. l ++ n) first ∙ list_assoc (sent_to a) m n)

  pub Extends-at :
      (p q : ℕ) (s : Subscription E) (heap : ℕ → Subscription E)
      → Extends (heap p) s
      → Extends (heap q) (assigned p s heap q)
  unfolding assigned
  Extends-at p q s heap extends =
      if_cases (λ t. Extends (heap q) t) (p == q) s (heap q)
        (λ same. let at : p ≡ q = ground arith in rw (sym at) extends)
        (λ other. Extends-same (heap q))

  pub Extends-fresh :
      (n p : ℕ) (s : Subscription E) (heap : ℕ → Subscription E)
      → p < n
      → Extends (heap p) (assigned n s heap p)
  unfolding assigned
  Extends-fresh n p s heap low =
      if_cases (λ t. Extends (heap p) t) (n == p) s (heap p) (λ same. ground arith)
        (λ other. Extends-same (heap p))

  pub Extends-stop_at : (p q : ℕ) (heap : ℕ → Subscription E) → Extends (heap q) (stop_at p heap q)
  Extends-stop_at p q heap =
      Extends-at p q (record (heap p) { stopped = true }) heap (Extends-same (heap p))

  pub Extends-push_at :
      (p q : ℕ) (e : E) (heap : ℕ → Subscription E) → Extends (heap q) (push_at p e heap q)
  Extends-push_at p q e heap =
      Extends-at p q (record (heap p) { queue = (heap p).queue ++ (e ∷ []) }) heap
        (e ∷ [], sym (list_assoc (heap p).received (heap p).queue (e ∷ [])))

  pub Extends-delivered :
      (done : Bool) (l : List E) (s : Subscription E) → s.queue ≡ l → Extends s (delivered done l s)
  unfolding delivered
  Extends-delivered done [] s holds =
      if_cases (λ t. Extends s t) (s.stopped || done) (record s { delivering = false }) s
        (λ ends. Extends-same s) (λ waits. Extends-same s)
  Extends-delivered done (e ∷ rest) s holds = (
    [],
    list_assoc s.received (e ∷ []) rest
        ∙ ap (λ l. s.received ++ l) (sym holds)
        ∙ sym (list_nil (sent_to s)),
  )

  pub Extends-stop_each :
      (l : List ℕ) (q : ℕ) (heap : ℕ → Subscription E) → Extends (heap q) (stop_each l heap q)
  unfolding stop_each
  Extends-stop_each [] q heap = Extends-same (heap q)
  Extends-stop_each (p ∷ rest) q heap =
      Extends-trans (heap q) (stop_at p heap q) (stop_each rest (stop_at p heap) q)
        (Extends-stop_at p q heap) (Extends-stop_each rest q (stop_at p heap))
