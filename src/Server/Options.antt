-- ===== src/Server/Options.antt =====
-- The options of the gateway (GatewayOptions and NewGatewayService of internal/service/gateway.go) and
-- those of them that `run` of cmd/server/main.go takes from the configuration. The collaborators are
-- in Server; the cache policy has no fields, and the sink and the observer have no effect where absent.
use model_gate.Prelude.{
  ◌≡◌, refl, arith, Bool, false, String, str_eq, if◌then◌else◌, ℤ, pos, leb_ℤ, ◌≤ℤ◌,
}
use model_gate.Config.{Config}
use model_gate.Config.Loaded.{IsLoaded}

-- GatewayOptions; times are in nanoseconds.
record GatewayOptions : Type 0 where
  provider_name : String
  request_timeout : ℤ
  operation_timeout : ℤ
  rate_limit_fail_open : Bool

abbrev or_default : ℤ → ℤ → ℤ
or_default t default = if leb_ℤ t (pos 0) then default else t

-- NewGatewayService: what it puts in place of options that are not given.
unfoldable new_gateway_service : GatewayOptions → GatewayOptions
new_gateway_service o = record {
  provider_name = if str_eq o.provider_name "" then "unknown" else o.provider_name;
  request_timeout = or_default o.request_timeout (pos 30000000000);
  operation_timeout = or_default o.operation_timeout (pos 2000000000);
  rate_limit_fail_open = o.rate_limit_fail_open;
}

abbrev gateway_options : Config → GatewayOptions
gateway_options c = record {
  provider_name = "router";
  request_timeout = c.upstream.request_timeout;
  operation_timeout = c.postgres.storage_timeout;
  rate_limit_fail_open = c.redis.rate_limit_fail_open;
}

positive_kept : (t default : ℤ) → pos 1 ≤ℤ t → or_default t default ≡ t
positive_kept t default h = let e : leb_ℤ t (pos 0) ≡ false = ground (arith, h) in rw (e) refl

-- Of a configuration that is loaded, no option is replaced by a default.
new_gateway_service-gateway_options :
    (c : Config) → IsLoaded c → new_gateway_service (gateway_options c) ≡ gateway_options c
unfolding new_gateway_service
new_gateway_service-gateway_options c h =
    let request : pos 1 ≤ℤ c.upstream.request_timeout =
      omega (arith, h.upstream.attempt, h.upstream.within) in
    let e : or_default c.upstream.request_timeout (pos 30000000000) ≡ c.upstream.request_timeout =
      positive_kept _ _ request in
    let e' : or_default c.postgres.storage_timeout (pos 2000000000) ≡ c.postgres.storage_timeout =
      positive_kept _ _ h.postgres.timeout in
    λ i. record {
      provider_name = "router";
      request_timeout = e i;
      operation_timeout = e' i;
      rate_limit_fail_open = c.redis.rate_limit_fail_open;
    }
