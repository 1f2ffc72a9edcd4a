-- ===== src/Auth/Flight/Channels.antt =====
-- The channels that goroutines wait on.
use spooled_sdk_go.Common.{
  ℕ, ◌+◌, ◌≤◌, ◌<◌, ◌≡◌, refl, sym, subst, ◌∙◌, inl, inr, Bool, true, false, false≢true, Option,
  none, some, ◌==◌, ==_iff, arith, Bool-cases,
}
use spooled_sdk_go.Errors.{Error}
use spooled_sdk_go.Runtime.{Runtime}
use spooled_sdk_go.Auth.{TokenRefresher}
use spooled_sdk_go.Auth.Flight.{
  Pc, outside, waiting, leading, returned, put_at, Shared, System, is_fresh, enter, settle,
  end_flight, Move, enters, settles, ends, wakes, cancels, leaves, pick, Reach, at_first, later,
  fresh_system,
}
use spooled_sdk_go.Auth.Flight.Moves.{
  put_at_self, put_at-ne, after, refresh_by-refreshing, enter-busy, enter-fresh, enter-leads,
}

-- The channels of past refreshes are closed, that of a refresh under way is open, and goroutines wait
-- on channels that were made.
pub record IsOrdered {World : Type 0} (s : System World) : Type 0 where
  pub past : (c : ℕ) → 1 ≤ c → c < s.shared.done → s.shared.closed c ≡ true
  pub at_rest :
      s.shared.refresher.refreshing ≡ false
      → 1 ≤ s.shared.done
      → s.shared.closed s.shared.done ≡ true
  pub made : s.shared.refresher.refreshing ≡ true → 1 ≤ s.shared.done
  pub under_way : s.shared.refresher.refreshing ≡ true → s.shared.closed s.shared.done ≡ false
  pub waits : (j ch : ℕ) → s.pc j ≡ waiting ch → (1 ≤ ch) × (ch ≤ s.shared.done)

-- Nobody starts to wait.
waits_kept :
    (k d : ℕ) (q : Pc) (pc : ℕ → Pc)
    → ((ch : ℕ) → q ≡ waiting ch → (1 ≤ ch) × (ch ≤ d))
    → ((j ch : ℕ) → pc j ≡ waiting ch → (1 ≤ ch) × (ch ≤ d))
    → (j ch : ℕ) → put_at k q pc j ≡ waiting ch
    → (1 ≤ ch) × (ch ≤ d)
waits_kept k d q pc h w j ch = elim (Bool-cases (k == j)) [
  | inl e ↦ rw e (h ch)
  | inr e ↦ rw e (w j ch)
]

waiting_injective : (a b : ℕ) → waiting a ≡ waiting b → a ≡ b
waiting_injective a b e = cc

waits_on : (d ch : ℕ) → 1 ≤ d → waiting d ≡ waiting ch → (1 ≤ ch) × (ch ≤ d)
waits_on d ch m e = let i = waiting_injective d ch e in (omega arith, omega arith)

closed_so_far :
    {World : Type 0} (s : System World)
    → IsOrdered s
    → s.shared.refresher.refreshing ≡ false
    → (c : ℕ) → 1 ≤ c
    → c < s.shared.done + 1
    → s.shared.closed c ≡ true
closed_so_far s o r c a b = elim (Bool-cases (c == s.shared.done)) [
  | inl e ↦
      let i = (==_iff c s.shared.done).0 e in
      subst (λ c. s.shared.closed c ≡ true) (sym i) (o.at_rest r (omega arith))
  | inr e ↦ o.past c a (grind arith)
]

module _ (rt : Runtime) where
  open rt use {World}

  -- A goroutine has moved, and the rest is as it was.
  stays :
      (s : System World) (k : ℕ) (q : Pc)
      → ((ch : ℕ) → q ≡ waiting ch → (1 ≤ ch) × (ch ≤ s.shared.done))
      → IsOrdered s
      → IsOrdered (record { shared = s.shared; pc = put_at k q s.pc })
  stays s k q h o = record {
    past = o.past;
    at_rest = o.at_rest;
    made = o.made;
    under_way = o.under_way;
    waits = waits_kept k s.shared.done q s.pc h o.waits;
  }

  enter-IsOrdered :
      (s : System World) (k : ℕ) (force : Bool)
      → IsOrdered s
      → IsOrdered (after rt s k (enter rt force s.shared))
  enter-IsOrdered s k force o = elim (Bool-cases s.shared.refresher.refreshing) [
    | inl r ↦
        subst (λ q. IsOrdered (after rt s k q)) (sym (enter-busy rt force s.shared r))
          (stays s k (waiting s.shared.done) (λ ch e. waits_on s.shared.done ch (o.made r) e) o)
    | inr r ↦ elim (Bool-cases (is_fresh rt force s.shared.refresher s.shared.world)) [
      | inl f ↦
          subst (λ q. IsOrdered (after rt s k q)) (sym (enter-fresh rt force s.shared r f))
            (stays s k (returned none) (λ ch e. cc) o)
      | inr f ↦
          subst (λ q. IsOrdered (after rt s k q)) (sym (enter-leads rt force s.shared r f))
            (record {
              past = λ c a b.
                  put_at-ne (s.shared.done + 1) c false s.shared.closed (λ e. omega arith)
                  ∙ closed_so_far s o r c a b;
              at_rest = λ e. cc;
              made = λ _. omega arith;
              under_way = λ _. put_at_self (s.shared.done + 1) false s.shared.closed;
              waits =
                  waits_kept k (s.shared.done + 1) (leading force) s.pc (λ ch e. cc)
                    (λ j ch e. let (a, b) = o.waits j ch e in (a, omega arith));
            })
    ]
  ]

  settle-IsOrdered :
      (s : System World) (k : ℕ) → IsOrdered s → IsOrdered (after rt s k (settle rt s.shared))
  unfolding settle
  settle-IsOrdered s k o =
      let r = refresh_by-refreshing rt s.shared.refresher s.shared.world in
      record {
        past = o.past;
        at_rest = λ f. o.at_rest (sym r ∙ f);
        made = λ f. o.made (sym r ∙ f);
        under_way = λ f. o.under_way (sym r ∙ f);
        waits = waits_kept k s.shared.done _ s.pc (λ ch e. cc) o.waits;
      }

  end_flight-IsOrdered :
      (s : System World) (k : ℕ) (x : Option Error)
      → IsOrdered s
      → IsOrdered (after rt s k (end_flight rt x s.shared))
  unfolding end_flight
  end_flight-IsOrdered s k x o = record {
    past =
        λ c a b. put_at-ne s.shared.done c true s.shared.closed (λ e. omega arith) ∙ o.past c a b;
    at_rest = λ _ _. put_at_self s.shared.done true s.shared.closed;
    made = λ f. cc;
    under_way = λ f. cc;
    waits = waits_kept k s.shared.done (returned x) s.pc (λ ch e. cc) o.waits;
  }

  Move-IsOrdered :
      (s : System World) (k : ℕ) (q : Pc × Shared World)
      → Move rt s.shared (s.pc k) q
      → IsOrdered s
      → IsOrdered (after rt s k q)
  Move-IsOrdered s k q (enters force p e) o =
      subst (λ q. IsOrdered (after rt s k q)) (sym e) (enter-IsOrdered s k force o)
  Move-IsOrdered s k q (settles force p e) o =
      subst (λ q. IsOrdered (after rt s k q)) (sym e) (settle-IsOrdered s k o)
  Move-IsOrdered s k q (ends x p e) o =
      subst (λ q. IsOrdered (after rt s k q)) (sym e) (end_flight-IsOrdered s k x o)
  Move-IsOrdered s k q (wakes ch p c e) o =
      subst (λ q. IsOrdered (after rt s k q)) (sym e) (stays s k (returned none) (λ ch e. cc) o)
  Move-IsOrdered s k q (cancels ch x p e) o =
      subst (λ q. IsOrdered (after rt s k q)) (sym e) (stays s k (returned (some x)) (λ ch e. cc) o)
  Move-IsOrdered s k q (leaves x p e) o =
      subst (λ q. IsOrdered (after rt s k q)) (sym e) (stays s k outside (λ ch e. cc) o)

  pub Reach-IsOrdered :
      (tr : TokenRefresher) (w : World) (s : System World)
      → tr.refreshing ≡ false
      → Reach rt (fresh_system rt tr w) s
      → IsOrdered s
  Reach-IsOrdered tr w s r at_first = record {
    past = λ c a b. absurd (omega arith);
    at_rest = λ f m. absurd (omega arith);
    made = λ f. absurd (false≢true (sym r ∙ f));
    under_way = λ f. refl;
    waits = λ j ch e. cc;
  }
  Reach-IsOrdered tr w s r (later {t} h (pick k q mv e)) =
      subst IsOrdered (sym e) (Move-IsOrdered t k q mv (Reach-IsOrdered tr w t r h))
