-- ===== src/Subscribe/Tunnels/Sources.antt =====
-- The order of the sources in `establish_tunnel` of src/subscribe/proxy.rs.
use stouter.Prelude.{
  String, true, false, Option, none, some, List, [], ◌∷◌, ◌++◌, Map, lookup, insert, remove, ◌==◌,
  string_key, ◌≡◌, refl, ap, ◌∙◌, arith, Bool-cases, Option-cases, inl, inr, Result, ok, err,
}
use stouter.Config.{NodeInfo}
use stouter.State.Pool.{try_take, pop, idle}
use stouter.Subscribe.Tunnels.{
  Tried, open_stream, via_mux, via_reverse, via_pool, Pools, Network, connect_addr, checked,
  last_source, single, establish_tunnel, Used, Failure, refused, not_reachable, not_connected,
  via_wait, cold,
}

-- What a take does: nothing where nothing is idle, and else the newest connection is taken off.
data Take {T : Type 0} (key : String) (m : Map String (List T))
    : Map String (List T) × Option T → Type 0 where
  empty : idle key m ≡ [] → Take key m (m, none)
  newest :
      (rest : List T) (stream : T)
      → idle key m ≡ rest ++ stream ∷ []
      → Take key m (insert key rest m, some stream)

pop-some :
    {T : Type 0} (x : T) (xs : List T)
    → (rest : List T) × (last : T) × (pop (x ∷ xs) ≡ some (rest, last))
      × (x ∷ xs ≡ rest ++ last ∷ [])
unfolding pop
pop-some x [] = ([], x, refl, refl)
pop-some x (y ∷ ys) =
    let (rest, last, e, q) = pop-some y ys in (x ∷ rest, last, rw (pop, e) refl, ap (λ r. x ∷ r) q)

pop-Take :
    {T : Type 0} (key : String) (m : Map String (List T)) (vec : List T)
    → idle key m ≡ vec
    → Take key m
        (elim (pop vec) [ none ↦ (m, none) | some (rest, last) ↦ (insert key rest m, some last) ])
unfolding pop
pop-Take key m [] e = empty e
pop-Take key m (x ∷ xs) e =
    let (rest, last, q, whole) = pop-some x xs in rw q (newest rest last (e ∙ whole))

try_take-Take : {T : Type 0} (key : String) (m : Map String (List T)) → Take key m (try_take key m)
unfolding try_take
try_take-Take key m = elim (Option-cases (lookup key m)) [
  | inl e ↦ rw (try_take, e) (empty (ground arith))
  | inr (vec, e) ↦ rw (try_take, e) (pop-Take key m vec (ground arith))
]

module _ {S T : Type 0} (net : Network S T) (n : NodeInfo) where
  -- The sessions after multiplexing gave no stream; a session that failed is gone.
  pub data NoStream (sessions : Map String S) : Map String S → Type 0 where
    no_address : (connect_addr n == "") ≡ true → NoStream sessions sessions
    no_session : lookup (connect_addr n) sessions ≡ none → NoStream sessions sessions
    dead :
        (handle : S)
        → lookup (connect_addr n) sessions ≡ some handle
        → net.opens handle ≡ none
        → NoStream sessions (remove (connect_addr n) sessions)

  -- What a node's answer on a stream makes of it.
  pub data Answered (stream : T) (used : Used T) : Result Failure (Used T) → Type 0 where
    accepted : net.accepts stream ≡ true → Answered stream used (ok used)
    declined : net.accepts stream ≡ false → Answered stream used (err refused)

  checked-Answered : (stream : T) (used : Used T) → Answered stream used (checked net stream used)
  unfolding checked
  checked-Answered stream used = elim (Bool-cases (net.accepts stream)) [
    | inl e ↦ rw e (accepted e)
    | inr e ↦ rw e (declined e)
  ]

  -- The last source: a node without an address is waited for, and one with an address is connected to.
  pub data Last : Result Failure (Used T) → Type 0 where
    none_came :
        (connect_addr n == "") ≡ true → net.waits n.id ≡ none → Last (err (not_reachable n.id))
    came :
        {r : Result Failure (Used T)} (stream : T)
        → (connect_addr n == "") ≡ true
        → net.waits n.id ≡ some stream
        → Answered stream (via_wait stream) r
        → Last r
    no_connection :
        (connect_addr n == "") ≡ false
        → net.connects (connect_addr n) ≡ none
        → Last (err (not_connected (connect_addr n)))
    connected :
        {r : Result Failure (Used T)} (stream : T)
        → (connect_addr n == "") ≡ false
        → net.connects (connect_addr n) ≡ some stream
        → Answered stream (cold stream) r
        → Last r

  last_source-Last : Last (last_source net n)
  unfolding last_source
  last_source-Last = elim (Bool-cases (connect_addr n == "")) [
    | inl a ↦ elim (Option-cases (net.waits n.id)) [
      | inl e ↦ rw (a, e) (none_came a e)
      | inr (stream, e) ↦ rw (a, e) (came stream a e (checked-Answered stream (via_wait stream)))
    ]
    | inr a ↦ elim (Option-cases (net.connects (connect_addr n))) [
      | inl e ↦ rw (a, e) (no_connection a e)
      | inr (stream, e) ↦ rw (a, e) (connected stream a e (checked-Answered stream (cold stream)))
    ]
  ]

  -- The connection without multiplexing: the newest of the node's reverse connections, the newest warm
  -- one to its address, or else the last source.
  pub data Single (p : Pools S T) : Tried S T → Type 0 where
    reversed :
        {r : Result Failure (Used T)} (rest : List T) (stream : T)
        → idle n.id p.reverse_pool ≡ rest ++ stream ∷ []
        → Answered stream (via_reverse stream) r
        → Single p (r, record p { reverse_pool = insert n.id rest p.reverse_pool })
    warm :
        {r : Result Failure (Used T)} (rest : List T) (stream : T)
        → idle n.id p.reverse_pool ≡ []
        → idle (connect_addr n) p.tunnel_pool ≡ rest ++ stream ∷ []
        → Answered stream (via_pool stream) r
        → Single p (r, record p { tunnel_pool = insert (connect_addr n) rest p.tunnel_pool })
    last :
        {r : Result Failure (Used T)}
        → idle n.id p.reverse_pool ≡ []
        → idle (connect_addr n) p.tunnel_pool ≡ []
        → Last r
        → Single p (r, p)

  pub data Established (p : Pools S T) : Tried S T → Type 0 where
    muxed :
        {r : Result Failure (Used T)} (handle : S) (stream : T)
        → (connect_addr n == "") ≡ false
        → lookup (connect_addr n) p.mux_pool ≡ some handle
        → net.opens handle ≡ some stream
        → Answered stream (via_mux stream) r
        → Established p (r, p)
    unmuxed :
        {sessions : Map String S} {r : Tried S T}
        → NoStream p.mux_pool sessions
        → Single (record p { mux_pool = sessions }) r
        → Established p r

  warm-Single :
      (p : Pools S T) {r : Map String (List T) × Option T}
      → idle n.id p.reverse_pool ≡ []
      → Take (connect_addr n) p.tunnel_pool r
      → Single p (elim r.1 [
        | some stream ↦ (checked net stream (via_pool stream), record p { tunnel_pool = r.0 })
        | none ↦ (last_source net n, record p { tunnel_pool = r.0 })
      ])
  warm-Single p e (empty f) = last e f last_source-Last
  warm-Single p e (newest rest stream f) =
      warm rest stream e f (checked-Answered stream (via_pool stream))

  pick-Single :
      (p : Pools S T) {r : Map String (List T) × Option T}
      → Take n.id p.reverse_pool r
      → Single p (elim r.1 [
        | some stream ↦ (checked net stream (via_reverse stream), record p { reverse_pool = r.0 })
        | none ↦ elim (try_take (connect_addr n) p.tunnel_pool).1 [
          | some stream ↦ (
            checked net stream (via_pool stream),
            record p {
              reverse_pool = r.0;
              tunnel_pool = (try_take (connect_addr n) p.tunnel_pool).0;
            },
          )
          | none ↦ (
            last_source net n,
            record p {
              reverse_pool = r.0;
              tunnel_pool = (try_take (connect_addr n) p.tunnel_pool).0;
            },
          )
        ]
      ])
  pick-Single p (empty e) = warm-Single p e (try_take-Take (connect_addr n) p.tunnel_pool)
  pick-Single p (newest rest stream e) =
      reversed rest stream e (checked-Answered stream (via_reverse stream))

  single-Single : (p : Pools S T) → Single p (single net n p)
  unfolding single
  single-Single p = pick-Single p (try_take-Take n.id p.reverse_pool)

  data Opens (sessions : Map String S) : Map String S × Option T → Type 0 where
    opened :
        (handle : S) (stream : T)
        → lookup (connect_addr n) sessions ≡ some handle
        → net.opens handle ≡ some stream
        → Opens sessions (sessions, some stream)
    shut : {after : Map String S} → NoStream sessions after → Opens sessions (after, none)

  open_stream-Opens :
      (sessions : Map String S) → Opens sessions (open_stream net.opens (connect_addr n) sessions)
  unfolding open_stream
  open_stream-Opens sessions = elim (Option-cases (lookup (connect_addr n) sessions)) [
    | inl e ↦ rw (open_stream, e) (shut (no_session e))
    | inr (handle, e) ↦ elim (Option-cases (net.opens handle)) [
      | inl f ↦ rw (open_stream, e, f) (shut (dead handle e f))
      | inr (stream, f) ↦ rw (open_stream, e, f) (opened handle stream e f)
    ]
  ]

  mux-Established :
      (p : Pools S T) {r : Map String S × Option T}
      → (connect_addr n == "") ≡ false
      → Opens p.mux_pool r
      → Established p (elim r.1 [
        | some stream ↦ (checked net stream (via_mux stream), record p { mux_pool = r.0 })
        | none ↦ single net n (record p { mux_pool = r.0 })
      ])
  mux-Established p t (opened handle stream e f) =
      muxed handle stream t e f (checked-Answered stream (via_mux stream))
  mux-Established p t (shut {after = after} none_open) =
      unmuxed none_open (single-Single (record p { mux_pool = after }))

  -- A tunnel uses a stream on the session to the node's address, if one opens; else the newest reverse
  -- connection of the node; else the newest warm connection to its address; and only if there is none
  -- of these, it waits for a reverse connection, where the node has no address, or connects to it,
  -- where it has one, and fails where none comes. The tunnel is up if the node accepts it on that
  -- connection, and refused if it does not: no second one is tried. One connection at most leaves the
  -- pools, and a session that does not open a stream is removed.
  pub establish_tunnel-Established : (p : Pools S T) → Established p (establish_tunnel net n p)
  unfolding establish_tunnel
  establish_tunnel-Established p = elim (Bool-cases (connect_addr n == "")) [
    | inl t ↦ rw (establish_tunnel, t) (unmuxed (no_address t) (single-Single p))
    | inr t ↦ rw (establish_tunnel, t) (mux-Established p t (open_stream-Opens p.mux_pool))
  ]
