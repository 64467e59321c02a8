-- ===== src/Gossip/Addresses.antt =====
-- src/gossip/mod.rs: the addresses of received nodes, where a node told only its wildcard address.
use Prim.Native.Char.{code}
use stouter.Prelude.{String, Option, none, some, List, map, ◌==◌, nat_key, if◌then◌else◌}
use stouter.Config.{NodeInfo}

-- text.strip_prefix(prefix)
unfoldable pub strip_text : String → String → Option String
strip_text text String.[] = some text
strip_text String.[] (String.◌∷◌ p prefix) = none
strip_text (String.◌∷◌ c text) (String.◌∷◌ p prefix) =
    let rest = strip_text text prefix in if code c == code p then rest else none

-- The host part: `rsplit_once(':').map(|(h, _)| h)`
unfoldable pub rsplit_host : String → Option String
rsplit_host String.[] = none
rsplit_host (String.◌∷◌ c text) = elim (rsplit_host text) [
  | some host ↦ some (String.◌∷◌ c host)
  | none ↦ if code c == b':' then some "" else none
]

unfoldable pub append_text : String → String → String
append_text String.[] text = text
append_text (String.◌∷◌ c s) text = String.◌∷◌ c (append_text s text)

unfoldable pub fix_addr : String → NodeInfo → NodeInfo
unfolding strip_text rsplit_host append_text
fix_addr connected_addr node = elim (strip_text node.addr "0.0.0.0:") [
  | none ↦ node
  | some port ↦ elim (rsplit_host connected_addr) [
    | none ↦ node
    | some host ↦ record node { addr = append_text (append_text host ":") port }
  ]
]

unfoldable pub fix_unroutable_addrs : String → List NodeInfo → List NodeInfo
unfolding fix_addr
fix_unroutable_addrs connected_addr = map (fix_addr connected_addr)
