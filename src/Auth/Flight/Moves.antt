-- ===== src/Auth/Flight/Moves.antt =====
-- What the moves of a goroutine do to the others, and what a call finds.
use spooled_sdk_go.Common.{
  ℕ, ◌+◌, ◌≡◌, sym, ap, ◌∙◌, inl, inr, Bool, true, false, false≢true, Option, none, some, ◌==◌,
  ==_iff, arith, Bool-cases,
}
use spooled_sdk_go.Errors.{Error}
use spooled_sdk_go.Runtime.{Runtime}
use spooled_sdk_go.Auth.{TokenRefresher, refresh_by}
use spooled_sdk_go.Auth.Refresh.{Keeps, refresh_by-Keeps}
use spooled_sdk_go.Auth.Flight.{
  Pc, waiting, leading, settled, returned, is_leader, put_at, Shared, System, is_fresh, enter,
}

module _ {A : Type 0} where
  pub put_at_self : (i : ℕ) (a : A) (f : ℕ → A) → put_at i a f i ≡ a
  put_at_self i a f = ground arith

  pub put_at-ne : (i j : ℕ) (a : A) (f : ℕ → A) → (i ≡ j → ⊥) → put_at i a f j ≡ f j
  put_at-ne i j a f n = ground arith

-- The leaders after one goroutine has moved.
pub none_leads :
    (k : ℕ) (q : Pc) (pc : ℕ → Pc)
    → is_leader q ≡ false
    → ((j : ℕ) → is_leader (pc j) ≡ true → j ≡ k)
    → (j : ℕ) → is_leader (put_at k q pc j) ≡ false
none_leads k q pc h a j = elim (Bool-cases (k == j)) [
  | inl e ↦ rw e h
  | inr e ↦ rw e (elim (Bool-cases (is_leader (pc j))) [
    | inl l ↦ absurd (false≢true (sym e ∙ (==_iff k j).1 (sym (a j l))))
    | inr l ↦ l
  ])
]

pub one_leads :
    (i k : ℕ) (q : Pc) (pc : ℕ → Pc)
    → is_leader q ≡ false
    → ((j : ℕ) → is_leader (pc j) ≡ true → j ≡ i)
    → (j : ℕ) → is_leader (put_at k q pc j) ≡ true
    → j ≡ i
one_leads i k q pc h a j = elim (Bool-cases (k == j)) [
  | inl e ↦ rw e (λ l. absurd (false≢true (sym h ∙ l)))
  | inr e ↦ rw e (a j)
]

pub it_leads :
    (k : ℕ) (q : Pc) (pc : ℕ → Pc)
    → ((j : ℕ) → is_leader (pc j) ≡ true → j ≡ k)
    → (j : ℕ) → is_leader (put_at k q pc j) ≡ true
    → j ≡ k
it_leads k q pc a j = elim (Bool-cases (k == j)) [
  | inl e ↦ λ l. sym ((==_iff k j).0 e)
  | inr e ↦ rw e (a j)
]

pub not_both : (force : Bool) (y : Option Error) → leading force ≡ settled y → ⊥
not_both force y e = cc

pub differs :
    (i k : ℕ) (pc : ℕ → Pc) → is_leader (pc k) ≡ false → is_leader (pc i) ≡ true → (k ≡ i) → ⊥
differs i k pc f t e = false≢true (sym f ∙ ap (λ j. is_leader (pc j)) e ∙ t)

module _ (rt : Runtime) where
  open rt use {World}

  pub refresh_by-refreshing :
      (t : TokenRefresher) (v : World) → (refresh_by rt t v).1.refreshing ≡ t.refreshing
  refresh_by-refreshing t v = kept (refresh_by rt t v) (refresh_by-Keeps rt t v)
    where
      kept :
          (r : Option Error × TokenRefresher × World) → Keeps rt t r → r.1.refreshing ≡ t.refreshing
      kept (none, u, w) k = k.0
      kept (some e, u, w) k = ap (λ t. t.refreshing) k

  -- What a goroutine finds when it calls while one leads.
  pub enter-busy :
      (force : Bool) (m : Shared World)
      → m.refresher.refreshing ≡ true
      → enter rt force m ≡ (waiting m.done, m)
  unfolding enter
  enter-busy force m r = simp r

  pub enter-fresh :
      (force : Bool) (m : Shared World)
      → m.refresher.refreshing ≡ false
      → is_fresh rt force m.refresher m.world ≡ true
      → enter rt force m ≡ (returned none, m)
  unfolding enter
  enter-fresh force m r f = simp (r, f)

  pub enter-leads :
      (force : Bool) (m : Shared World)
      → m.refresher.refreshing ≡ false
      → is_fresh rt force m.refresher m.world ≡ false
      → enter rt force m ≡ (
        leading force,
        record m {
          refresher = record m.refresher { refreshing = true };
          done = m.done + 1;
          closed = put_at (m.done + 1) false m.closed;
        },
      )
  unfolding enter
  enter-leads force m r f = simp (r, f)

  abbrev pub after : System World → ℕ → Pc × Shared World → System World
  after s k q = record { shared = q.1; pc = put_at k q.0 s.pc }
