-- ===== src/Auth/Flight/Stages.antt =====
-- The stages of a refresh, and the calls in sequence that they amount to.
use spooled_sdk_go.Common.{
  ℕ, ◌≡◌, refl, sym, ap, subst, ◌∙◌, inl, inr, Bool, true, false, false≢true, Option, none, some,
  Bool-cases,
}
use spooled_sdk_go.Errors.{Error}
use spooled_sdk_go.Runtime.{Runtime}
use spooled_sdk_go.Auth.{TokenRefresher, refresh_by, finish, refresh_internal}
use spooled_sdk_go.Auth.Flight.{
  Pc, outside, waiting, leading, settled, returned, is_leader, put_at, Shared, System, is_fresh,
  enter, settle, end_flight, Move, enters, settles, ends, wakes, cancels, leaves, pick, Reach,
  at_first, later, fresh_system,
}
use spooled_sdk_go.Auth.Flight.Moves.{
  put_at_self, put_at-ne, none_leads, one_leads, it_leads, not_both, differs, refresh_by-refreshing,
  enter-busy, enter-fresh, enter-leads, after,
}

module _ (rt : Runtime) (tr0 : TokenRefresher) (w0 : rt.World) where
  open rt use {World, now}

  -- What calls of `refreshInternal` one after the other make of the refresher and the world.
  pub data Sequential : TokenRefresher → World → Type 0 where
    none_yet : Sequential tr0 w0
    call :
        {t u : TokenRefresher} {v w : World}
        → Sequential t v
        → (force : Bool) (e : Option Error) → t.refreshing ≡ false
        → refresh_internal rt force t v ≡ (e, u, w)
        → Sequential u w

  abbrev pub Alone : System World → ℕ → Type 0
  Alone s i = (j : ℕ) → is_leader (s.pc j) ≡ true → j ≡ i

  -- A refresh under way started from what calls in sequence had left, and no other is under way.
  pub data Stage (s : System World) : Type 0 where
    resting :
        s.shared.refresher.refreshing ≡ false
        → ((j : ℕ) → is_leader (s.pc j) ≡ false)
        → Sequential s.shared.refresher s.shared.world
        → Stage s
    flying :
        (i : ℕ) (force : Bool) (base : TokenRefresher)
        → s.pc i ≡ leading force
        → Alone s i
        → Sequential base s.shared.world
        → base.refreshing ≡ false
        → is_fresh rt force base s.shared.world ≡ false
        → s.shared.refresher ≡ record base { refreshing = true }
        → Stage s
    landing :
        (i : ℕ) (force : Bool) (e : Option Error) (base : TokenRefresher) (v : World)
        → s.pc i ≡ settled e
        → Alone s i
        → Sequential base v
        → base.refreshing ≡ false
        → is_fresh rt force base v ≡ false
        → refresh_by rt (record base { refreshing = true }) v
          ≡ (e, s.shared.refresher, s.shared.world)
        → Stage s

  -- A flight is what the call in sequence does behind its checks.
  flight_call :
      (force : Bool) (base : TokenRefresher) (v : World)
      → base.refreshing ≡ false
      → is_fresh rt force base v ≡ false
      → refresh_internal rt force base v
        ≡ finish rt (refresh_by rt (record base { refreshing = true }) v)
  unfolding refresh_internal
  flight_call force base v r f = simp (r, f)

  -- A move that changes nothing but the place of a goroutine that does not lead.
  bystander :
      (s : System World) (k : ℕ) (q : Pc)
      → is_leader (s.pc k) ≡ false
      → is_leader q ≡ false
      → Stage s
      → Stage (record { shared = s.shared; pc = put_at k q s.pc })
  bystander s k q f h (resting r a c) =
      resting r (none_leads k q s.pc h (λ j l. absurd (false≢true (sym (a j) ∙ l)))) c
  bystander s k q f h (flying i force base p a c b g e) =
      flying i force base (put_at-ne k i q s.pc (differs i k s.pc f (ap is_leader p)) ∙ p)
        (one_leads i k q s.pc h a) c b g e
  bystander s k q f h (landing i force x base v p a c b g e) =
      landing i force x base v (put_at-ne k i q s.pc (differs i k s.pc f (ap is_leader p)) ∙ p)
        (one_leads i k q s.pc h a) c b g e

  Stage-outside :
      (s : System World) (k : ℕ) (force : Bool)
      → s.pc k ≡ outside
      → Stage s
      → Stage (after rt s k (enter rt force s.shared))
  Stage-outside s k force p (resting r a c) =
      elim (Bool-cases (is_fresh rt force s.shared.refresher s.shared.world)) [
        | inl f ↦
            subst (λ q. Stage (after rt s k q)) (sym (enter-fresh rt force s.shared r f))
              (bystander s k (returned none) (a k) refl (resting r a c))
        | inr f ↦
            subst (λ q. Stage (after rt s k q)) (sym (enter-leads rt force s.shared r f))
              (flying k force s.shared.refresher (put_at_self k (leading force) s.pc)
                (it_leads k (leading force) s.pc (λ j l. absurd (false≢true (sym (a j) ∙ l)))) c r f
                refl)
      ]
  Stage-outside s k force p (flying i f base x a c b g e) =
      subst (λ q. Stage (after rt s k q))
        (sym (enter-busy rt force s.shared (ap (λ t. t.refreshing) e)))
        (bystander s k (waiting s.shared.done) (ap is_leader p) refl (flying i f base x a c b g e))
  Stage-outside s k force p (landing i f y base v x a c b g e) =
      subst (λ q. Stage (after rt s k q))
        (sym (
          enter-busy rt force s.shared (
            sym (ap (λ r. r.1.refreshing) e)
            ∙ refresh_by-refreshing rt (record base { refreshing = true }) v)))
        (bystander s k (waiting s.shared.done) (ap is_leader p) refl
          (landing i f y base v x a c b g e))

  Stage-leading :
      (s : System World) (k : ℕ) (force : Bool)
      → s.pc k ≡ leading force
      → Stage s
      → Stage (after rt s k (settle rt s.shared))
  unfolding settle
  Stage-leading s k force p (resting r a c) = absurd (false≢true (sym (a k) ∙ ap is_leader p))
  Stage-leading s k force p (flying i f base x a c b g e) =
      let y = (refresh_by rt s.shared.refresher s.shared.world).0 in
      landing k f y base s.shared.world (put_at_self k (settled y) s.pc)
        (it_leads k (settled y) s.pc (λ j l. a j l ∙ sym (a k (ap is_leader p)))) c b g
        (ap (λ t. refresh_by rt t s.shared.world) (sym e))
  Stage-leading s k force p (landing i f y base v x a c b g e) =
      absurd (not_both force y (sym p ∙ ap s.pc (a k (ap is_leader p)) ∙ x))

  Stage-settled :
      (s : System World) (k : ℕ) (y : Option Error)
      → s.pc k ≡ settled y
      → Stage s
      → Stage (after rt s k (end_flight rt y s.shared))
  unfolding end_flight finish
  Stage-settled s k y p (resting r a c) = absurd (false≢true (sym (a k) ∙ ap is_leader p))
  Stage-settled s k y p (flying i f base x a c b g e) =
      absurd (not_both f y (sym x ∙ ap s.pc (sym (a k (ap is_leader p))) ∙ p))
  Stage-settled s k y p (landing i f z base v x a c b g e) =
      resting refl (none_leads k (returned y) s.pc refl (λ j l. a j l ∙ sym (a k (ap is_leader p))))
        (call c f z b (flight_call f base v b g ∙ ap (finish rt) e))

  -- Whatever the goroutines do, a refresh under way has one leader, and what the calls leave is what
  -- calls one after the other leave.
  pub Move-Stage :
      (s : System World) (k : ℕ) (q : Pc × Shared World)
      → Move rt s.shared (s.pc k) q
      → Stage s
      → Stage (after rt s k q)
  Move-Stage s k q (enters force p e) h =
      subst (λ q. Stage (after rt s k q)) (sym e) (Stage-outside s k force p h)
  Move-Stage s k q (settles force p e) h =
      subst (λ q. Stage (after rt s k q)) (sym e) (Stage-leading s k force p h)
  Move-Stage s k q (ends y p e) h =
      subst (λ q. Stage (after rt s k q)) (sym e) (Stage-settled s k y p h)
  Move-Stage s k q (wakes ch p o e) h =
      subst (λ q. Stage (after rt s k q)) (sym e)
        (bystander s k (returned none) (ap is_leader p) refl h)
  Move-Stage s k q (cancels ch x p e) h =
      subst (λ q. Stage (after rt s k q)) (sym e)
        (bystander s k (returned (some x)) (ap is_leader p) refl h)
  Move-Stage s k q (leaves x p e) h =
      subst (λ q. Stage (after rt s k q)) (sym e) (bystander s k outside (ap is_leader p) refl h)

  pub Reach-Stage :
      (s : System World) → tr0.refreshing ≡ false → Reach rt (fresh_system rt tr0 w0) s → Stage s
  Reach-Stage s r at_first = resting r (λ j. refl) none_yet
  Reach-Stage s r (later {t} h (pick k q mv e)) =
      subst Stage (sym e) (Move-Stage t k q mv (Reach-Stage t r h))

  -- A refresher that goroutines share, with no refresh under way at first, is left, whenever none
  -- is under way again, as some sequence of calls one after the other leaves it, the world too.
  pub flights_refine :
      (s : System World)
      → tr0.refreshing ≡ false
      → Reach rt (fresh_system rt tr0 w0) s
      → s.shared.refresher.refreshing ≡ false
      → Sequential s.shared.refresher s.shared.world
  flights_refine s r h f = rested (Reach-Stage s r h)
    where
      rested : Stage s → Sequential s.shared.refresher s.shared.world
      rested (resting _ a c) = c
      rested (flying i g base x a c b k e) = absurd (false≢true (sym f ∙ ap (λ t. t.refreshing) e))
      rested (landing i g y base v x a c b k e) = absurd (
          false≢true (
            sym f
            ∙ sym (ap (λ r. r.1.refreshing) e)
            ∙ refresh_by-refreshing rt (record base { refreshing = true }) v))
