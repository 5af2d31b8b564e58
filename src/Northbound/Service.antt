-- ===== src/Northbound/Service.antt =====
-- pkg/northbound/mho.go: the service, and the server that it registers. `M` is the type of the store's
-- pointer; `NewService` gives a pointer to a `Service`, which nobody changes.

-- `Service` and `Server`
pub record Service (M : Type 0) : Type 0 where
  pub metric_store : M

pub record Server (M : Type 0) : Type 0 where
  pub metric_store : M

unfoldable pub new_service : {M : Type 0} → M → Service M
new_service metric_store = record { metric_store = metric_store }

-- `Register`; `register_mho_server` is the generated `RegisterMhoServer`, on a gRPC server `G`.
unfoldable pub register : {M G : Type 0} → (G → Server M → G) → Service M → G → G
register register_mho_server s r = register_mho_server r (record { metric_store = s.metric_store })
