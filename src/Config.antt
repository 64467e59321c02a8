-- ===== src/Config.antt =====
-- The data of src/config.rs: services, routes, the replicated configuration, node records.
-- Strings are native texts, `BTreeMap` an association list, and an `Instant` is a number of
-- nanoseconds on the monotonic clock.
pub mod Mutate
pub mod Groups
pub mod Removal
pub mod Renaming
pub mod Text
pub mod Routes
pub mod Ports
pub mod RouteValidity
pub mod RouteOrder
pub mod Settings
pub mod Names
pub mod Validation
pub mod Domains
pub mod LocalPorts
pub mod Soundness
use stouter.Prelude.{
  none, some, ℕ, String, Bool, true, false, Option, List, [], Map, any, ◌==◌, string_key,
}

pub data Mode : Type 0 where
  node subscribe node_subscribe : Mode

pub data Protocol : Type 0 where
  tcp http : Protocol

unfoldable pub is_tcp : Protocol → Bool
is_tcp tcp = true
is_tcp http = false

pub record Service : Type 0 where
  pub name : String
  pub node_id : String
  pub node_port : ℕ
  pub domains : List String
  pub weight : ℕ
  pub max_connections : Option ℕ
  pub protocol : Protocol
  pub request_timeout_ms : Option ℕ
  pub health_path : Option String
  pub labels : Map String String
  pub meta : Map String String
  pub local_port : Option ℕ

pub record RouteMatch : Type 0 where
  pub path_prefix : Option String
  pub method : Option String
  pub headers : Map String String

pub record RouteBackend : Type 0 where
  pub labels : Map String String
  pub weight : ℕ

pub record Route : Type 0 where
  pub name : Option String
  pub service : String
  pub matches : RouteMatch
  pub backends : List RouteBackend

pub record ServiceGroup : Type 0 where
  pub name : String
  pub services : List Service

pub record DynamicConfig : Type 0 where
  pub version : ℕ
  pub service_groups : List ServiceGroup
  pub routes : List Route

-- `DynamicConfig::default()`
abbrev pub empty_config : DynamicConfig
empty_config = record { version = 0; service_groups = []; routes = [] }

pub record ServiceHealth : Type 0 where
  pub version : ℕ
  pub unhealthy : List String

-- `ServiceHealth::default()`
abbrev pub unset_health : ServiceHealth
unset_health = record { version = 0; unhealthy = [] }

unfoldable pub is_unhealthy : ServiceHealth → String → Bool
is_unhealthy h service_name = any (λ s. s == service_name) h.unhealthy

pub record NodeInfo : Type 0 where
  pub id : String
  pub addr : String
  pub relay : Option String
  pub last_seen : Option ℕ
  pub health : ServiceHealth

-- A route as an error message names it: by its name, or by its position.
pub data Label : Type 0 where
  named : String → Label
  position : ℕ → Label

-- `Route::label`
unfoldable pub label : Route → ℕ → Label
label r index = elim r.name [ none ↦ position index | some n ↦ named n ]

-- What an error message says, without its wording.
pub data Reason : Type 0 where
  other_service : Label → String → String → Reason
  no_backends no_weight : Label → String → Reason
  bad_prefix bad_method bad_header : Label → String → String → Reason
  unknown_service not_http : String → Reason
  health_path_start health_path_characters : String → Reason
  local_ports_differ : String → List ℕ → Reason

pub data MutateErr : Type 0 where
  group_not_found : String → MutateErr
  service_not_found : String → String → String → MutateErr
  duplicate_service : String → String → String → MutateErr
  invalid : Reason → MutateErr
