-- ===== src/Socket/Link/Keyed.antt =====
-- The subscriptions of spooled/realtime/websocket.go under the keys of their filters.
use spooled_sdk_go.Common.{
  ◌≡◌, refl, ◌∙◌, inl, inr, false, Bool-cases, some, Text, List, [], ◌∷◌, arith, text_eq,
  text_eq_iff, text_eq_refl, All,
}
use spooled_sdk_go.Socket.{
  SubscriptionFilter, subscription_key, Command, subscribe, unsubscribe, delete_subscription,
  store_subscription, apply_command,
}
use spooled_sdk_go.Socket.Subscribed.{lookup, lookup-apply_command, filter_of}

-- Each entry stands under its filter's key, and is the one found there.
abbrev pub IsKeyed : List (Text × SubscriptionFilter) → Type 0
IsKeyed m = All (λ e. (e.0 ≡ subscription_key e.1) × (lookup e.0 m ≡ some e.1)) m

-- Two maps that agree under every key.
abbrev pub Agree : List (Text × SubscriptionFilter) → List (Text × SubscriptionFilter) → Type 0
Agree m n = (k : Text) → lookup k m ≡ lookup k n

pub All-mono :
    {A : Type 0} (P Q : A → Type 0) (xs : List A) → ((x : A) → P x → Q x) → All P xs → All Q xs
All-mono P Q [] f h = h
All-mono P Q (x ∷ xs) f (h, hs) = (f x h, All-mono P Q xs f hs)

All-delete :
    (P : Text × SubscriptionFilter → Type 0) (j : Text) (m : List (Text × SubscriptionFilter))
    → All P m
    → All (λ e. P e × (text_eq j e.0 ≡ false)) (delete_subscription j m)
unfolding delete_subscription
All-delete P j [] h = h
All-delete P j ((k, f) ∷ m) (h, hs) = elim (Bool-cases (text_eq k j)) [
  | inl e ↦ rw (delete_subscription, e) (All-delete P j m hs)
  | inr e ↦
      rw (delete_subscription, e)
        ((h, ground (arith, e, text_eq_iff j k, text_eq_iff k j)), All-delete P j m hs)
]

-- The entries that a command leaves are found as before.
others-IsKeyed :
    (cmd : Command) (m : List (Text × SubscriptionFilter))
    → IsKeyed m
    → All
        (λ e. (e.0 ≡ subscription_key e.1) × (lookup e.0 (apply_command cmd m) ≡ some e.1))
        (delete_subscription (subscription_key (filter_of cmd)) m)
others-IsKeyed cmd m h =
    let j = subscription_key (filter_of cmd) in
    All-mono
      (λ e. ((e.0 ≡ subscription_key e.1) × (lookup e.0 m ≡ some e.1)) × (text_eq j e.0 ≡ false))
      (λ e. (e.0 ≡ subscription_key e.1) × (lookup e.0 (apply_command cmd m) ≡ some e.1))
      (delete_subscription j m) (λ e ((k, l), n). (k, lookup-apply_command e.0 cmd m ∙ rw n l))
      (All-delete (λ e. (e.0 ≡ subscription_key e.1) × (lookup e.0 m ≡ some e.1)) j m h)

-- The commands keep the entries under their filters' keys.
pub apply_command-IsKeyed :
    (cmd : Command) (m : List (Text × SubscriptionFilter))
    → IsKeyed m
    → IsKeyed (apply_command cmd m)
unfolding apply_command store_subscription
apply_command-IsKeyed (subscribe f) m h = (
  (
    refl,
    lookup-apply_command (subscription_key f) (subscribe f) m
        ∙ rw (text_eq_refl (subscription_key f)) refl,
  ),
  others-IsKeyed (subscribe f) m h,
)
apply_command-IsKeyed (unsubscribe f) m h = others-IsKeyed (unsubscribe f) m h
