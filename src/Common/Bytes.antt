-- ===== src/Common/Bytes.antt =====
-- Go strings as lists of bytes, with the functions of package strings that the code uses.
use Prim.Native.Nat.{ℕ}
use Prim.Native.Char.{code}
use Prim.Native.String.{String}
use mathlib.Core.Bool.{Bool, true, false, ◌&&◌, ◌||◌, false≢true}
use mathlib.Core.List.{List, [], ◌∷◌, ◌++◌}
use mathlib.Core.Option.{Option, none, some}
use mathlib.Core.Path.{◌≡◌, refl, ap}
use mathlib.Core.Logic.{◌↔◌, inl, inr}
use native.Mathlib.Omega.{arith}
use spooled_sdk_go.Common.Tests.{◌==◌, if◌then◌else◌, Option-cases}

abbrev pub Text : Type 0
Text = List ℕ

-- The bytes of an ASCII literal.
abbrev pub codes : String → Text
codes String.[] = []
codes (String.◌∷◌ c s) = code c ∷ codes s

-- `s == ""`.
abbrev pub is_empty {ℓ} : {A : Type ℓ} → List A → Bool
is_empty [] = true
is_empty (x ∷ xs) = false

-- A literal of the source, shut so that proofs do not spell it out.
unfoldable pub lit : String → Text
lit s = codes s

unfoldable pub text_eq : Text → Text → Bool
text_eq [] [] = true
text_eq [] (b ∷ t) = false
text_eq (a ∷ s) [] = false
text_eq (a ∷ s) (b ∷ t) = (a == b) && text_eq s t

pub text_eq_refl : (s : Text) → text_eq s s ≡ true
unfolding text_eq
text_eq_refl [] = refl
text_eq_refl (a ∷ s) = ground (arith, text_eq_refl s)

pub eq_of_text_eq : (s t : Text) → text_eq s t ≡ true → s ≡ t
unfolding text_eq
eq_of_text_eq [] [] h = refl
eq_of_text_eq [] (b ∷ t) h = ground arith
eq_of_text_eq (a ∷ s) [] h = ground arith
eq_of_text_eq (a ∷ s) (b ∷ t) h = ground (arith, eq_of_text_eq s t)

pub text_eq_iff : (s t : Text) → (text_eq s t ≡ true) ↔ (s ≡ t)
text_eq_iff s t = (eq_of_text_eq s t, λ e. rw e (text_eq_refl t))

-- What is left of a text behind a prefix, if it has the prefix.
unfoldable pub strip_prefix : Text → Text → Option Text
strip_prefix [] t = some t
strip_prefix (a ∷ p) [] = none
strip_prefix (a ∷ p) (b ∷ t) = let rest = strip_prefix p t in if a == b then rest else none

-- `strings.TrimPrefix(t, p)`.
unfoldable pub trim_prefix : Text → Text → Text
unfolding strip_prefix
trim_prefix p t = elim (strip_prefix p t) [ none ↦ t | some rest ↦ rest ]

-- `strings.HasPrefix(t, p)`.
unfoldable pub has_prefix : Text → Text → Bool
unfolding strip_prefix
has_prefix p t = elim (strip_prefix p t) [ none ↦ false | some rest ↦ true ]

-- `strings.TrimSuffix(t, s)` for a suffix of one byte.
unfoldable pub trim_suffix : ℕ → Text → Text
trim_suffix c [] = []
trim_suffix c (a ∷ t) = let rest = trim_suffix c t in if is_empty t && a == c then [] else a ∷ rest

-- `strings.HasSuffix(t, p)`.
unfoldable pub has_suffix : Text → Text → Bool
unfolding text_eq
has_suffix p [] = is_empty p
has_suffix p (a ∷ t) = text_eq p (a ∷ t) || has_suffix p t

-- `strings.Contains(t, p)`.
unfoldable pub contains : Text → Text → Bool
unfolding has_prefix
contains p [] = is_empty p
contains p (a ∷ t) = has_prefix p (a ∷ t) || contains p t

-- `strings.Join(ts, sep)`.
unfoldable pub join : Text → List Text → Text
join sep [] = []
join sep (t ∷ []) = t
join sep (t ∷ u ∷ ts) = t ++ (sep ++ join sep (u ∷ ts))

pub strip_prefix-append : (p t : Text) → strip_prefix p (p ++ t) ≡ some t
unfolding strip_prefix
strip_prefix-append [] t = refl
strip_prefix-append (a ∷ p) t = ground (arith, strip_prefix-append p t)

pub strip_prefix_sound : (p t r : Text) → strip_prefix p t ≡ some r → t ≡ p ++ r
unfolding strip_prefix
strip_prefix_sound [] t r h = ground arith
strip_prefix_sound (a ∷ p) [] r h = ground arith
strip_prefix_sound (a ∷ p) (b ∷ t) r h = ground (arith, strip_prefix_sound p t r)

has_prefix_sound : (p t : Text) → has_prefix p t ≡ true → (rest : Text) × (t ≡ p ++ rest)
unfolding has_prefix
has_prefix_sound p t h = elim (Option-cases (strip_prefix p t)) [
  | inl e ↦ absurd (false≢true (rw (e, has_prefix) at h))
  | inr (r, e) ↦ (r, strip_prefix_sound p t r e)
]

pub has_prefix-append : (p t : Text) → has_prefix p (p ++ t) ≡ true
unfolding has_prefix
has_prefix-append p t = rw (strip_prefix-append p t, has_prefix)

-- `HasPrefix` finds exactly the texts that the prefix begins.
pub has_prefix_iff : (p t : Text) → (has_prefix p t ≡ true) ↔ ((rest : Text) × (t ≡ p ++ rest))
has_prefix_iff p t = (has_prefix_sound p t, λ (r, e). rw e (has_prefix-append p r))

pub trim_prefix-append : (p t : Text) → trim_prefix p (p ++ t) ≡ t
unfolding trim_prefix
trim_prefix-append p t = rw (strip_prefix-append p t, trim_prefix)

-- A byte is trimmed from the end of what follows a text.
pub trim_suffix-append :
    (c : ℕ) (p : Text) (a : ℕ) (t : Text) → trim_suffix c (p ++ a ∷ t) ≡ p ++ trim_suffix c (a ∷ t)
unfolding trim_suffix
trim_suffix-append c [] a t = refl
trim_suffix-append c (b ∷ []) a t = refl
trim_suffix-append c (b ∷ d ∷ p) a t = ap (λ s. b ∷ s) (trim_suffix-append c (d ∷ p) a t)
