-- ===== src/Client/Lazy.antt =====
-- `GRPC` of spooled/client.go: the gRPC client, dialled at its first use. The mutex makes a call one
-- step.
use spooled_sdk_go.Common.{
  ◌≡◌, ap, inl, inr, Bool, true, Option-cases, Option, none, some, pos, Text, [], arith,
}
use spooled_sdk_go.Transport.Once.{Result, ok, err}
use spooled_sdk_go.Grpc.{ClientOptions, Services, GrpcClient, new_client}

module _ (sv : Services) where
  open sv use {World, Tls, Opt}

  -- The fields that `GRPC` and `Close` touch.
  pub record LazyClient : Type 0 where
    pub grpc_address : Text
    pub api_key : Text
    pub grpc_client : Option (GrpcClient sv)
    pub closed : Bool

  unfoldable pub grpc_options : LazyClient → ClientOptions Tls Opt
  grpc_options c = record {
    address = c.grpc_address;
    api_key = c.api_key;
    use_tls = none;
    tls_config = none;
    dial_options = [];
    timeout = pos 5_000_000_000;
  }

  keep_client :
      LazyClient → Result (GrpcClient sv) × World → Result (GrpcClient sv) × LazyClient × World
  keep_client c (ok g, w) = (ok g, record c { grpc_client = some g }, w)
  keep_client c (err e, w) = (err e, c, w)

  unfoldable pub get_grpc : LazyClient → World → Result (GrpcClient sv) × LazyClient × World
  unfolding keep_client grpc_options
  get_grpc c w = elim c.grpc_client [
    | some g ↦ (ok g, c, w)
    | none ↦ keep_client c (new_client sv (grpc_options c) w)
  ]

  -- `Close`.
  unfoldable pub close_client : LazyClient → LazyClient
  close_client c = record c { closed = true }

  kept :
      (c : LazyClient) (r : Result (GrpcClient sv) × World) (g : GrpcClient sv)
      → (keep_client c r).0 ≡ ok g
      → (keep_client c r).1.grpc_client ≡ some g
  unfolding keep_client
  kept c (ok h, w) g e = ground (arith, e)
  kept c (err x, w) g e = ground (arith, e)

  found :
      (c : LazyClient) (w : World) (g : GrpcClient sv)
      → (get_grpc c w).0 ≡ ok g
      → (get_grpc c w).1.grpc_client ≡ some g
  unfolding get_grpc
  found c w g e = elim (Option-cases c.grpc_client) [
    | inl n ↦ rw (get_grpc, n) (kept c (new_client sv (grpc_options c) w) g (rw (get_grpc, n) at e))
    | inr (h, n) ↦ rw (get_grpc, n) (rw n (ground (arith, (rw (get_grpc, n) at e))))
  ]

  held :
      (c : LazyClient) (w : World) (g : GrpcClient sv)
      → c.grpc_client ≡ some g
      → get_grpc c w ≡ (ok g, c, w)
  unfolding get_grpc
  held c w g n =
      ap
        (λ o. elim o as (λ x. Result (GrpcClient sv) × LazyClient × World) [
          | some h ↦ (ok h, c, w)
          | none ↦ keep_client c (new_client sv (grpc_options c) w)
        ])
        n

  -- A client that `GRPC` has returned is returned by every later call, which dials nothing, also after
  -- `Close`.
  pub get_grpc-again :
      (c : LazyClient) (w w' : World) (g : GrpcClient sv)
      → (get_grpc c w).0 ≡ ok g
      → let c' = close_client (get_grpc c w).1 in get_grpc c' w' ≡ (ok g, c', w')
  unfolding close_client
  get_grpc-again c w w' g e = held (close_client (get_grpc c w).1) w' g (found c w g e)
