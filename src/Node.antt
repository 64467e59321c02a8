-- ===== src/Node.antt =====
-- src/node: the answers of a node to a tunnel request and to the registration of a node behind NAT,
-- and the bytes of those answers as src/subscribe/proxy.rs reads them.
pub mod Answers
use stouter.Prelude.{
  ℕ, zero, suc, ◌+◌, ◌-◌, ◌%◌, ◌^◌, max, min, String, Bool, true, false, not, ◌&&◌, Option, none,
  some, get_or, List, [], ◌∷◌, ◌++◌, Map, lookup, insert, length, ltb, ◌==◌, string_key, nat_key,
  if◌then◌else◌,
}
use stouter.Config.{Service, NodeInfo, unset_health}
use stouter.Gossip.Frames.{to_be_bytes, from_be_bytes, read_exact}
use stouter.Gossip.Merge.{is_set}
use stouter.State.{SharedState, instance_key}
use stouter.State.Pool.{push}

abbrev pub max_skew_ms : ℕ
max_skew_ms = 30_000

-- `a.abs_diff(b)`
abbrev pub abs_diff : ℕ → ℕ → ℕ
abs_diff a b = max (a - b) (b - a)

-- `send_tunnel_error`: a status byte, the length of the message as a `u32` and the message.
unfoldable pub tunnel_error : List ℕ → List ℕ
unfolding to_be_bytes
tunnel_error msg = 1 ∷ to_be_bytes (length msg % 2 ^ 32) ++ msg

-- What a node does with a tunnel request: it answers with an error, passes the request on to the
-- node behind a reverse connection, or forwards bytes to a local port.
pub data TunnelAnswer : Type 0 where
  shutting_down : TunnelAnswer
  skew_too_large : ℕ → TunnelAnswer
  relayed : String → String → ℕ → TunnelAnswer
  service_not_here : String → TunnelAnswer
  not_connected : ℕ → TunnelAnswer
  connected : ℕ → TunnelAnswer

-- `connect_local_service`, by the outcome of the connection to a local port.
unfoldable pub connect_local_service : (ℕ → Bool) → SharedState → String → TunnelAnswer
connect_local_service accepts state service_name =
    elim (lookup (state.config.node_id, service_name) state.service_index) [
      | none ↦ service_not_here service_name
      | some service ↦
          if accepts service.node_port
          then connected service.node_port
          else not_connected service.node_port
    ]

unfoldable pub handle_tunnel :
    Bool → ℕ → (ℕ → Bool) → SharedState → String → String → ℕ → TunnelAnswer
unfolding connect_local_service
handle_tunnel draining now_ms accepts state node_id service_name timestamp_ms =
    let skew = abs_diff now_ms timestamp_ms in
    if draining
    then shutting_down
    else if ltb max_skew_ms skew
    then skew_too_large skew
    else if is_set node_id && not (node_id == state.config.node_id)
    then relayed node_id service_name timestamp_ms
    else connect_local_service accepts state service_name

-- `handle_reverse_registration`: the new entry and the pooled stream, or a refusal.
unfoldable pub registered : ℕ → String → Map String NodeInfo → String → Map String NodeInfo
registered now our_addr kn node_id = elim (lookup node_id kn) [
  | some node ↦ insert node_id (record node { relay = some our_addr; last_seen = some now }) kn
  | none ↦
      insert node_id
        (record {
          id = node_id;
          addr = "";
          relay = some our_addr;
          last_seen = some now;
          health = unset_health;
        })
        kn
]

unfoldable pub handle_reverse_registration {ℓ} :
    {T : Type ℓ}
    → ℕ
    → ℕ
    → SharedState
    → Map String (List T)
    → String
    → ℕ
    → T
    → Option (SharedState × Map String (List T))
unfolding registered
handle_reverse_registration now now_ms state reverse_pool node_id timestamp_ms stream =
    if ltb max_skew_ms (abs_diff now_ms timestamp_ms)
    then none
    else some (
      record state {
        known_nodes = registered now state.config.peer_addr state.known_nodes node_id;
      },
      push node_id stream reverse_pool,
    )

-- How `send_and_check_tunnel` reads the answer.
pub data Checked : Type 0 where
  ready : List ℕ → Checked
  rejected : List ℕ → Checked
  cut_off : Checked

unfoldable pub read_error : List ℕ → Option (List ℕ × List ℕ)
unfolding read_exact from_be_bytes
read_error stream = elim (read_exact 4 stream) [
  | none ↦ none
  | some (len_buf, rest) ↦ read_exact (from_be_bytes len_buf) rest
]

unfoldable pub check_tunnel : List ℕ → Checked
unfolding read_error
check_tunnel [] = cut_off
check_tunnel (status ∷ stream) =
    if status == 0
    then ready stream
    else elim (read_error stream) [ none ↦ cut_off | some (msg, rest) ↦ rejected msg ]

-- `relay_tunnel` from the status byte on: what the subscriber receives of a whole answer. A status
-- of zero is followed by the bridged bytes; an error by its length and message only.
unfoldable pub relay_answer : List ℕ → List ℕ
unfolding read_exact from_be_bytes
relay_answer [] = []
relay_answer (status ∷ stream) =
    if status == 0 then status ∷ stream else elim (read_exact 4 stream) [
      | none ↦ status ∷ []
      | some (len_buf, rest) ↦ elim (read_exact (from_be_bytes len_buf) rest) [
        | none ↦ status ∷ len_buf
        | some (err_bytes, more) ↦ status ∷ len_buf ++ err_bytes
      ]
    ]
