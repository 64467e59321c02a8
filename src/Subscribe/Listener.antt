-- ===== src/Subscribe/Listener.antt =====
-- src/subscribe/listener.rs: which service a request to the HTTP listener is for. The URL's host and
-- the text of the `Host` header are arguments.
pub mod Dispatching
use mathlib.Core.List.{reverse}
use stouter.Prelude.{
  ℕ, String, Bool, true, false, not, ◌&&◌, ◌||◌, Option, none, some, List, [], ◌∷◌, ◌++◌, any, find,
  filter, is_empty, ◌==◌, nat_key, string_key, if◌then◌else◌,
}
use stouter.Config.{Service, ServiceGroup, DynamicConfig}
use stouter.Config.Settings.{SubscribeFilter, filters_nothing, allows}
use stouter.Config.Text.{codes}
use stouter.State.{SharedState}
use stouter.Subscribe.Http.Bytes.{Text, text_key, split_on}
use stouter.Subscribe.Http.Headers.{first, to_ascii_lowercase, lower}
use stouter.Subscribe.Proxy.{service_is_http}

-- `trim_end_matches('.')`
abbrev pub drop_dots : Text → Text
drop_dots [] = []
drop_dots (c ∷ cs) = if c == b'.' then drop_dots cs else c ∷ cs

abbrev pub trim_end_dots : Text → Text
trim_end_dots text = reverse (drop_dots (reverse text))

-- The host of the `Host` header's value: a bracketed IPv6 literal, or what precedes a colon.
unfoldable pub header_host : Text → Option Text
unfolding split_on
header_host [] = first (split_on b':' [])
header_host (c ∷ cs) =
    if c == b'['
    then elim (first (split_on b']' cs)) [
      | none ↦ none
      | some inner ↦ some (b'[' ∷ inner ++ b']' ∷ [])
    ]
    else first (split_on b':' (c ∷ cs))

unfoldable pub clean_host : Text → Option Text
unfolding lower
clean_host raw =
    let host = to_ascii_lowercase (trim_end_dots raw) in if is_empty host then none else some host

unfoldable pub raw_host : Option Text → Option Text → Option Text
unfolding header_host
raw_host (some h) header = some h
raw_host none none = none
raw_host none (some value) = header_host value

-- `request_host`
unfoldable pub request_host : Option Text → Option Text → Option Text
unfolding raw_host clean_host
request_host uri_host header = elim (raw_host uri_host header) [
  | none ↦ none
  | some raw ↦ clean_host raw
]

unfoldable pub is_visible : Option SubscribeFilter → String → Service → Bool
unfolding filters_nothing allows
is_visible none group s = true
is_visible (some f) group s = filters_nothing f || allows f group s.name

-- The closure `visible` of `resolve_service`.
unfoldable pub visible : Option SubscribeFilter → List ServiceGroup → List Service
unfolding is_visible
visible subscribe_filter [] = []
visible subscribe_filter (g ∷ gs) =
    filter (is_visible subscribe_filter g.name) g.services ++ visible subscribe_filter gs

-- `eq_ignore_ascii_case`
unfoldable pub eq_ignore_ascii_case : Text → Text → Bool
unfolding lower
eq_ignore_ascii_case a b = to_ascii_lowercase a == to_ascii_lowercase b

unfoldable pub is_named : Text → Service → Bool
unfolding eq_ignore_ascii_case
is_named host s = eq_ignore_ascii_case (codes s.name) host

unfoldable pub has_domain : Text → Service → Bool
unfolding eq_ignore_ascii_case
has_domain host s = any (λ d. eq_ignore_ascii_case (trim_end_dots (codes d)) host) s.domains

unfoldable pub resolve_service : Text → DynamicConfig → Option SubscribeFilter → Option String
unfolding visible is_named has_domain
resolve_service host dc subscribe_filter =
    let services = visible subscribe_filter dc.service_groups in
    elim (find (is_named host) services) [
      | some s ↦ some s.name
      | none ↦ elim (find (has_domain host) services) [ none ↦ none | some s ↦ some s.name ]
    ]

pub data Rejection : Type 0 where
  connect_not_supported missing_host unknown_service service_not_http : Rejection

pub data Dispatch : Type 0 where
  rejected : ℕ → Rejection → Dispatch
  proxied : String → Dispatch

-- `dispatch`
unfoldable pub dispatch :
    String → Option Text → Option Text → Option SubscribeFilter → SharedState → Dispatch
unfolding request_host resolve_service service_is_http
dispatch method uri_host header subscribe_filter state =
    let served : Dispatch = elim (request_host uri_host header) [
      | none ↦ rejected 400 missing_host
      | some host ↦ elim (resolve_service host state.dynamic_config subscribe_filter) [
        | none ↦ rejected 404 unknown_service
        | some service ↦
            if service_is_http service state then proxied service else rejected 501 service_not_http
      ]
    ] in
    if method == "CONNECT" then rejected 501 connect_not_supported else served
