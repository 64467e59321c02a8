-- ===== src/Config/Settings.antt =====
-- `Config`, `SubscribeFilter` and `TracingConfig` of src/config.rs: a node's own configuration. What
-- the `http` crate and the standard library parse is an argument, and so is the type of ratios.
use stouter.Prelude.{
  ℕ, String, Bool, true, false, not, ◌&&◌, ◌||◌, Option, none, some, get_or, List, any, is_empty,
  ◌==◌, string_key, if◌then◌else◌, Result, ok, err, ◌>>◌, fail_if,
}
use stouter.Config.{Mode, node, subscribe, node_subscribe, DynamicConfig}

pub record SubscribeFilter : Type 0 where
  pub service_groups : List String
  pub services : List String

-- `SubscribeFilter::is_empty`
unfoldable pub filters_nothing : SubscribeFilter → Bool
filters_nothing f = is_empty f.service_groups && is_empty f.services

unfoldable pub allows : SubscribeFilter → String → String → Bool
allows f group_name service_name =
    any (λ g. g == group_name) f.service_groups || any (λ s. s == service_name) f.services

-- An address of `httpListen`: its port, and whether it is loopback or unspecified.
pub record SocketAddr : Type 0 where
  pub port : ℕ
  pub is_local : Bool

pub record Uri : Type 0 where
  pub scheme : Option String
  pub host : Option String

pub record TracingConfig (F : Type 0) : Type 0 where
  pub otlp_endpoint : String
  pub sample_ratio : F
  pub service_name : String

pub record Config (F : Type 0) : Type 0 where
  pub mode : Mode
  pub bind : String
  pub advertise_addr : Option String
  pub node_id : String
  pub outbound_only : Bool
  pub reverse_pool_size : Option ℕ
  pub known_nodes : List String
  pub dynamic_config : DynamicConfig
  pub subscribe_filter : Option SubscribeFilter
  pub tls_dir : Option String
  pub admin_cns : List String
  pub api_port : Option ℕ
  pub tracing : Option (TracingConfig F)
  pub http_listen : Option String

-- What the parsers of other libraries make of a text, and the test of a ratio.
pub record Parsers (F : Type 0) : Type 0 where
  pub parse_addr : String → Option SocketAddr
  pub parse_uri : String → Option Uri
  pub in_unit : F → Bool
  pub is_header_name : String → Bool

pub data BadTracing : Type 0 where
  not_a_url is_https bad_scheme no_host : String → BadTracing
  bad_ratio : BadTracing

-- `matches!(mode, Mode::Subscribe | Mode::NodeSubscribe)`
unfoldable pub subscribes : Mode → Bool
subscribes node = false
subscribes subscribe = true
subscribes node_subscribe = true

unfoldable pub check_scheme : String → Option String → Result BadTracing (Unit {0})
check_scheme url none = err (bad_scheme url)
check_scheme url (some s) =
    if s == "http" then ok tt else if s == "https" then err (is_https url) else err (bad_scheme url)

unfoldable pub check_host : String → Option String → Result BadTracing (Unit {0})
check_host url none = err (no_host url)
check_host url (some h) = ok tt

module _ {F : Type 0} (world : Parsers F) where
  -- `TracingConfig::validate`
  unfoldable pub validate_tracing : TracingConfig F → Result BadTracing (Unit {0})
  unfolding check_scheme check_host
  validate_tracing t = elim (world.parse_uri t.otlp_endpoint) [
    | none ↦ err (not_a_url t.otlp_endpoint)
    | some uri ↦
        check_scheme t.otlp_endpoint uri.scheme
        >> check_host t.otlp_endpoint uri.host
        >> fail_if (not (world.in_unit t.sample_ratio)) bad_ratio
  ]

module _ {F : Type 0} where
  -- `Config::api_port`
  abbrev pub api_port_of : Config F → ℕ
  api_port_of c = get_or c.api_port 5381

  -- `Config::peer_addr`
  abbrev pub peer_addr_of : Config F → String
  peer_addr_of c = get_or c.advertise_addr c.bind

  -- `Config::pool_size`
  abbrev pub pool_size : Config F → ℕ
  pool_size c = get_or c.reverse_pool_size 64
