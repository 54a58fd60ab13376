-- ===== src/Events/Bus/Retry.antt =====
-- Delivery at level 1: how often the handler is called.
use native.Mathlib.Nat.{add-zero}
use mathlib.Core.Path.{subst}
use kairos_agent.Base.{
  ℕ, zero, suc, ◌+◌, ◌%◌, ◌^◌, ◌<◌, String, ◌≡◌, ◌≢◌, Option, none, some, arith,
}
use kairos_agent.Base.Int.{pos, ◌+ℤ◌}
use kairos_agent.Base.Words.{incr64}
use kairos_agent.Events.Outcome.{safe_handle}
use kairos_agent.Events.Publisher.{Handler, invoke}
use kairos_agent.Events.Bus.{Config, Bus, Wait, elapsed, rounds, retry_loop, deliver_qos1}

next : (i j : ℕ) → i + suc j ≡ i + 1 + j
next i j = omega arith

zero_plus : (j : ℕ) → j ≡ 0 + j
zero_plus j = omega arith

rounds_of : (n : ℕ) (cfg : Config) → cfg.max_retries ≡ pos n → rounds cfg ≡ suc n
unfolding ◌+ℤ◌
rounds_of n cfg e = ground arith

module _ {W E : Type 0} (h : Handler W E) (event : E) where
  -- The world after so many calls of the handler, and the error of the call that follows.
  abbrev pub after : ℕ → W → W
  after zero w = w
  after (suc k) w = after k (invoke h event w).1

  abbrev pub error_at : ℕ → W → Option String
  error_at k w = safe_handle (invoke h event (after k w)).0

  loop_succeeds :
      (k n i : ℕ) (waits : ℕ → Wait) (retried : ℕ) (w : W)
      → k < n
      → retried < 2 ^ 64
      → ((j : ℕ) → j < k → (error_at j w ≢ none) × (waits (i + j) ≡ elapsed))
      → error_at k w ≡ none
      → retry_loop n i waits h event retried w ≡ (none, (retried + k) % 2 ^ 64, after (suc k) w)
  unfolding retry_loop
  loop_succeeds zero zero i waits retried w l f fail ok = elim l [ ]
  loop_succeeds zero (suc zero) i waits retried w l f fail ok = ground arith
  loop_succeeds zero (suc (suc n)) i waits retried w l f fail ok = ground arith
  loop_succeeds (suc k) zero i waits retried w l f fail ok = elim l [ ]
  loop_succeeds (suc k) (suc zero) i waits retried w l f fail ok = absurd (omega arith)
  loop_succeeds (suc k) (suc (suc n)) i waits retried w l f fail ok = ground (
    arith,
    fail 0 (omega arith),
    add-zero i,
    loop_succeeds k (suc n) (i + 1) waits (incr64 retried) (invoke h event w).1 (omega arith)
        (omega arith)
        (λ j below. (
          (fail (suc j) (omega arith)).0,
          subst (λ m. waits m ≡ elapsed) (next i j) (fail (suc j) (omega arith)).1,
        ))
        ok,
  )

  loop_exhausts :
      (n i : ℕ) (waits : ℕ → Wait) (retried : ℕ) (w : W) {e : String}
      → retried < 2 ^ 64
      → ((j : ℕ) → j < n → (error_at j w ≢ none) × (waits (i + j) ≡ elapsed))
      → error_at n w ≡ some e
      → retry_loop (suc n) i waits h event retried w
        ≡ (some e, (retried + suc n) % 2 ^ 64, after (suc n) w)
  unfolding retry_loop
  loop_exhausts zero i waits retried w f fail last = ground arith
  loop_exhausts (suc n) i waits retried w f fail last = ground (
    arith,
    fail 0 (omega arith),
    add-zero i,
    loop_exhausts n (i + 1) waits (incr64 retried) (invoke h event w).1 (omega arith)
        (λ j below. (
          (fail (suc j) (omega arith)).0,
          subst (λ m. waits m ≡ elapsed) (next i j) (fail (suc j) (omega arith)).1,
        ))
        last,
  )

  -- At level 1, if the handler fails k times, k being at most `MaxRetries`, and then succeeds, and
  -- no pause before that is cut short, then the delivery succeeds with k + 1 calls of the handler,
  -- and the counter of retries grows by k (as a 64-bit word).
  pub qos1_succeeds :
      (k : ℕ) (waits : ℕ → Wait) (b : Bus W E) (w : W)
      → k < rounds b.cfg
      → b.retried_cnt < 2 ^ 64
      → ((j : ℕ) → j < k → (error_at j w ≢ none) × (waits j ≡ elapsed))
      → error_at k w ≡ none
      → deliver_qos1 waits event h b w ≡ (
        none,
        record b {
          published_cnt = incr64 b.published_cnt;
          retried_cnt = (b.retried_cnt + k) % 2 ^ 64;
        },
        after (suc k) w,
      )
  unfolding deliver_qos1
  qos1_succeeds k waits b w l f fail ok = rw (
      loop_succeeds k (rounds b.cfg) 0 waits b.retried_cnt w l f
        (λ j below.
          ((fail j below).0, subst (λ m. waits m ≡ elapsed) (zero_plus j) (fail j below).1))
        ok)

  -- If all the `MaxRetries` + 1 attempts fail and no pause is cut short, the delivery returns the
  -- error of the last attempt, and the counter of retries grows by `MaxRetries` + 1: the last failure
  -- is counted too, though no retry follows it.
  pub qos1_exhausts :
      (n : ℕ) (waits : ℕ → Wait) (b : Bus W E) (w : W) {e : String}
      → b.cfg.max_retries ≡ pos n
      → b.retried_cnt < 2 ^ 64
      → ((j : ℕ) → j < n → (error_at j w ≢ none) × (waits j ≡ elapsed))
      → error_at n w ≡ some e
      → deliver_qos1 waits event h b w ≡ (
        some e,
        record b {
          published_cnt = incr64 b.published_cnt;
          retried_cnt = (b.retried_cnt + suc n) % 2 ^ 64;
        },
        after (suc n) w,
      )
  unfolding deliver_qos1
  qos1_exhausts n waits b w m f fail last =
      let all : rounds b.cfg ≡ suc n = rounds_of n b.cfg m in
      rw (
        all,
        loop_exhausts n 0 waits b.retried_cnt w f
            (λ j below.
              ((fail j below).0, subst (λ m. waits m ≡ elapsed) (zero_plus j) (fail j below).1))
            last,
      )
