-- ===== src/Grpc/Tls.antt =====
-- When the gRPC client encrypts its connection.
use spooled_sdk_go.Common.{
  ◌≡◌, refl, inl, inr, ◌⊎◌, ◌↔◌, Bool, true, false, Option, none, some, Text, lit, has_suffix,
  contains, arith,
}
use spooled_sdk_go.Grpc.{ClientOptions, insecure, Services, uses_tls, address_of, dial_of}

-- Without TLS, exactly if the option says so or, without the option, if the address neither ends in
-- ":443" nor has "localhost" in it.
abbrev pub IsPlaintext : Option Bool → Text → Type 0
IsPlaintext o address =
    (o ≡ some false)
    ⊎ ((o ≡ none)
        × ((has_suffix (lit ":443") address ≡ false)
            × (contains (lit "localhost") address ≡ false)))

uses_tls-IsPlaintext :
    (o : Option Bool) (address : Text) → (uses_tls o address ≡ false) ↔ IsPlaintext o address
unfolding uses_tls
uses_tls-IsPlaintext (some true) address = (λ e. ground (arith, e), λ e. plain_some e)
  where
    plain_some : {b : Bool} → IsPlaintext (some b) address → b ≡ false
    plain_some (inl e) = ground (arith, e)
    plain_some (inr (e, h)) = ground (arith, e)
uses_tls-IsPlaintext (some false) address = (λ e. inl refl, λ e. refl)
uses_tls-IsPlaintext none address =
    (λ e. inr (refl, (ground (arith, e), ground (arith, e))), λ e. plain_none e)
  where
    plain_none : IsPlaintext none address → uses_tls none address ≡ false
    plain_none (inl e) = ground (arith, e)
    plain_none (inr (e, (h, k))) = rw (uses_tls, h, k) refl

module _ (sv : Services) where
  open sv use {Tls, Opt}

  dial-credentials :
      (opts : ClientOptions Tls Opt)
      → ((dial_of sv opts).credentials ≡ insecure)
        ↔ (uses_tls opts.use_tls (address_of sv opts) ≡ false)
  unfolding dial_of
  dial-credentials opts = (λ e. ground (arith, e), λ e. ground (arith, e))

  -- The client dials without TLS exactly if `UseTLS` is false or, if it is not set, if the address
  -- (the default one for an empty text) neither ends in ":443" nor has "localhost" in it.
  pub dial_insecure_iff :
      (opts : ClientOptions Tls Opt)
      → ((dial_of sv opts).credentials ≡ insecure) ↔ IsPlaintext opts.use_tls (address_of sv opts)
  dial_insecure_iff opts =
      let (f, g) = dial-credentials opts in
      let (h, k) = uses_tls-IsPlaintext opts.use_tls (address_of sv opts) in
      (λ e. h (f e), λ p. g (k p))
