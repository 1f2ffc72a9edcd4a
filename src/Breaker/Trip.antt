-- ===== src/Breaker/Trip.antt =====
-- When a closed circuit breaker opens, against a description of the outcomes alone.
use spooled_sdk_go.Common.{
  ℕ, zero, suc, ◌+◌, ◌≤◌, ◌≡◌, refl, ◌∙◌, ◌⊎◌, inl, inr, ◌↔◌, List, [], ◌∷◌, pos, arith,
}
use spooled_sdk_go.Breaker.{CircuitBreaker, closed, open_, record_success, record_failure}

-- The requests' outcomes, each with the time at which it is recorded.
pub data Outcome : Type 0 where
  succeeded failed : ℕ → Outcome

unfoldable pub record_outcome : Outcome → CircuitBreaker → CircuitBreaker
record_outcome (succeeded now) cb = record_success now cb
record_outcome (failed now) cb = record_failure now cb

unfoldable pub record_outcomes : List Outcome → CircuitBreaker → CircuitBreaker
record_outcomes [] cb = cb
record_outcomes (o ∷ os) cb = record_outcomes os (record_outcome o cb)

-- The first outcomes of the list are failures, `n` of them.
abbrev pub BeginsFailing : ℕ → List Outcome → Type 0
BeginsFailing zero os = Unit
BeginsFailing (suc n) [] = ⊥
BeginsFailing (suc n) (succeeded now ∷ os) = ⊥
BeginsFailing (suc n) (failed now ∷ os) = BeginsFailing n os

-- Somewhere in the list stand `n` failures with no success between them.
abbrev pub HasStreak : ℕ → List Outcome → Type 0
HasStreak n [] = BeginsFailing n []
HasStreak n (o ∷ os) = BeginsFailing n (o ∷ os) ⊎ HasStreak n os

-- An open circuit stays open under outcomes of requests that were already out.
pub record_outcomes-open :
    (os : List Outcome) (cb : CircuitBreaker) → cb.state ≡ open_ → record_outcomes os cb ≡ cb
unfolding record_outcomes record_outcome record_success record_failure
record_outcomes-open [] cb h = refl
record_outcomes-open (succeeded now ∷ os) cb h = ground (arith, record_outcomes-open os cb h)
record_outcomes-open (failed now ∷ os) cb h = ground (arith, record_outcomes-open os cb h)

-- A closed circuit that is `left` failures short of its threshold.
record IsShort (left : ℕ) (cb : CircuitBreaker) : Type 0 where
  is_closed : cb.state ≡ closed
  short : cb.failure_threshold ≡ pos (cb.failure_count + left)

-- The circuit with its failure count reset.
success_closed :
    (now n : ℕ) (cb : CircuitBreaker)
    → cb.state ≡ closed
    → cb.failure_threshold ≡ pos n
    → IsShort n (record_success now cb) × ((record_success now cb).failure_threshold ≡ pos n)
unfolding record_success
success_closed now n cb c t = ground arith

failure_last :
    (now : ℕ) (cb : CircuitBreaker) → IsShort 1 cb → (record_failure now cb).state ≡ open_
unfolding record_failure
failure_last now cb h = ground arith

failure_more :
    (now left : ℕ) (cb : CircuitBreaker)
    → IsShort (suc (suc left)) cb
    → IsShort (suc left) (record_failure now cb)
      × ((record_failure now cb).failure_threshold ≡ cb.failure_threshold)
unfolding record_failure
failure_more now left cb h = ground arith

BeginsFailing-mono : (m n : ℕ) (os : List Outcome) → m ≤ n → BeginsFailing n os → BeginsFailing m os
BeginsFailing-mono zero n os h b = tt
BeginsFailing-mono (suc m) zero os h b = absurd (omega arith)
BeginsFailing-mono (suc m) (suc n) [] h b = b
BeginsFailing-mono (suc m) (suc n) (succeeded now ∷ os) h b = b
BeginsFailing-mono (suc m) (suc n) (failed now ∷ os) h b = BeginsFailing-mono m n os (omega arith) b

BeginsFailing-HasStreak : (n : ℕ) (os : List Outcome) → BeginsFailing n os → HasStreak n os
BeginsFailing-HasStreak n [] b = b
BeginsFailing-HasStreak n (o ∷ os) b = inl b

module _ (n : ℕ) where
  opens_from :
      (left : ℕ) (os : List Outcome) (cb : CircuitBreaker)
      → IsShort (suc left) cb
      → cb.failure_threshold ≡ pos (suc n)
      → ((record_outcomes os cb).state ≡ open_)
        ↔ (BeginsFailing (suc left) os ⊎ HasStreak (suc n) os)
  unfolding record_outcomes record_outcome
  opens_from left [] cb s t = (λ h. ground arith, λ h. ground arith)
  opens_from left (succeeded now ∷ os) cb s t =
      let (s', t') = success_closed now (suc n) cb s.is_closed t in
      let ih = opens_from n os (record_success now cb) s' t' in
      (
        λ h. elim (ih.0 h) [
          | inl b ↦ inr (inr (BeginsFailing-HasStreak (suc n) os b))
          | inr k ↦ inr (inr k)
        ],
        elim [ inl b ↦ absurd b | inr (inl b) ↦ absurd b | inr (inr k) ↦ ih.1 (inr k) ],
      )
  opens_from zero (failed now ∷ os) cb s t =
      let o = failure_last now cb s in
      (λ h. inl tt, λ h. rw (record_outcomes-open os (record_failure now cb) o) o)
  opens_from (suc left) (failed now ∷ os) cb s t =
      let (s', t') = failure_more now left cb s in
      let ih = opens_from left os (record_failure now cb) s' (t' ∙ t) in
      (
        λ h. elim (ih.0 h) [ inl b ↦ inl b | inr k ↦ inr (inr k) ],
        elim [
          | inl b ↦ ih.1 (inl b)
          | inr (inl b) ↦
              ih.1 (inl (BeginsFailing-mono (suc left) n os (ground (arith, s.short, t)) b))
          | inr (inr k) ↦ ih.1 (inr k)
        ],
      )

-- A closed circuit breaker that has counted no failure yet and has a threshold of n + 1 failures is
-- open after the outcomes recorded from there exactly when n + 1 failures stand among them with no
-- success between them.
pub opens_iff :
    (n : ℕ) (os : List Outcome) (cb : CircuitBreaker)
    → cb.state ≡ closed
    → cb.failure_count ≡ 0
    → cb.failure_threshold ≡ pos (suc n)
    → ((record_outcomes os cb).state ≡ open_) ↔ HasStreak (suc n) os
opens_iff n os cb c z t =
    let e = opens_from n n os cb (record { is_closed = c; short = ground arith }) t in
    (
      λ h. elim (e.0 h) [ inl b ↦ BeginsFailing-HasStreak (suc n) os b | inr k ↦ k ],
      λ k. e.1 (inr k),
    )
