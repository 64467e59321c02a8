-- ===== src/Subscribe/Tunnels.antt =====
-- `establish_tunnel` of src/subscribe/proxy.rs with `MuxPool` of src/mux.rs: where the connection of a
-- tunnel comes from. Opening a stream, waiting, connecting and the node's answer are arguments.
pub mod Sources
use stouter.Prelude.{
  String, Bool, true, false, Option, none, some, get_or, List, [], ◌∷◌, Map, lookup, insert, remove,
  contains_key, ◌==◌, string_key, if◌then◌else◌, Result, ok, err,
}
use stouter.Config.{NodeInfo}
use stouter.State.Pool.{try_take}

-- `MuxPool::open_stream`: a session that fails is removed.
unfoldable pub open_stream {ℓ κ} :
    {S : Type ℓ} {T : Type κ} → (S → Option T) → String → Map String S → Map String S × Option T
open_stream opens addr sessions = elim (lookup addr sessions) [
  | none ↦ (sessions, none)
  | some handle ↦ elim (opens handle) [
    | some stream ↦ (sessions, some stream)
    | none ↦ (remove addr sessions, none)
  ]
]

-- What a tunnel runs on.
pub data Used (T : Type 0) : Type 0 where
  via_mux via_reverse via_pool via_wait cold : T → Used T

pub data Failure : Type 0 where
  not_reachable not_connected : String → Failure
  refused : Failure

pub record Pools (S T : Type 0) : Type 0 where
  pub mux_pool : Map String S
  pub reverse_pool : Map String (List T)
  pub tunnel_pool : Map String (List T)

pub record Network (S T : Type 0) : Type 0 where
  pub opens : S → Option T
  pub waits : String → Option T
  pub connects : String → Option T
  pub accepts : T → Bool

-- `node.relay.as_deref().unwrap_or(&node.addr)`
abbrev pub connect_addr : NodeInfo → String
connect_addr n = get_or n.relay n.addr

-- The outcome, and the pools after it.
abbrev pub Tried : Type 0 → Type 0 → Type 0
Tried S T = Result Failure (Used T) × Pools S T

module _ {S T : Type 0} where
  -- `send_and_check_tunnel`
  unfoldable pub checked : Network S T → T → Used T → Result Failure (Used T)
  checked net stream used = if net.accepts stream then ok used else err refused

  -- The last sources: the wait for a reverse connection, or a new one.
  unfoldable pub last_source : Network S T → NodeInfo → Result Failure (Used T)
  unfolding checked
  last_source net n =
      let waited : Result Failure (Used T) = elim (net.waits n.id) [
        | none ↦ err (not_reachable n.id)
        | some stream ↦ checked net stream (via_wait stream)
      ] in
      let connected : Result Failure (Used T) = elim (net.connects (connect_addr n)) [
        | none ↦ err (not_connected (connect_addr n))
        | some stream ↦ checked net stream (cold stream)
      ] in
      if connect_addr n == "" then waited else connected

  -- The path without multiplexing.
  unfoldable pub single : Network S T → NodeInfo → Pools S T → Tried S T
  unfolding try_take last_source checked
  single net n p =
      let taken = try_take n.id p.reverse_pool in
      elim taken.1 [
        | some stream ↦
            (checked net stream (via_reverse stream), record p { reverse_pool = taken.0 })
        | none ↦
            let warm = try_take (connect_addr n) p.tunnel_pool in
            elim warm.1 [
              | some stream ↦ (
                checked net stream (via_pool stream),
                record p { reverse_pool = taken.0; tunnel_pool = warm.0 },
              )
              | none ↦
                  (last_source net n, record p { reverse_pool = taken.0; tunnel_pool = warm.0 })
            ]
      ]

  unfoldable pub establish_tunnel : Network S T → NodeInfo → Pools S T → Tried S T
  unfolding open_stream single checked
  establish_tunnel net n p =
      let opened = open_stream net.opens (connect_addr n) p.mux_pool in
      let muxed : Tried S T = elim opened.1 [
        | some stream ↦ (checked net stream (via_mux stream), record p { mux_pool = opened.0 })
        | none ↦ single net n (record p { mux_pool = opened.0 })
      ] in
      if connect_addr n == "" then single net n p else muxed
