-- ===== src/Node/Answers.antt =====
-- What a subscriber learns of a tunnel's answer, from the node itself or through a relay.
use stouter.Prelude.{
  ℕ_discrete, ℕ, zero, suc, ◌%◌, ◌^◌, ◌<◌, none, some, List, [], ◌∷◌, ◌++◌, length, ◌==◌,
  string_key, nat_key, ◌≡◌, refl, arith, Bool-cases, Option-cases, inl, inr, ap,
}
use stouter.Gossip.Frames.{to_be_bytes, from_be_bytes, read_exact, be_bytes-trip, read_exact-append}
use stouter.State.{instance_key}
use stouter.Node.{tunnel_error, check_tunnel, read_error, rejected, relay_answer}

-- The bytes that were read can be read again, whatever follows them.
read_exact-taken :
    (n : ℕ) (bytes more taken rest : List ℕ)
    → read_exact n bytes ≡ some (taken, rest)
    → read_exact n (taken ++ more) ≡ some (taken, more)
unfolding read_exact
read_exact-taken zero bytes more taken rest h = let e : [] ≡ taken = ground arith in rw (← e)
read_exact-taken (suc n) [] more taken rest h = absurd (cc)
read_exact-taken (suc n) (b ∷ bytes) more taken rest h = elim (Option-cases (read_exact n bytes)) [
  | inl e ↦ absurd (ground arith)
  | inr (r, e) ↦
      let f : b ∷ r.0 ≡ taken = ground arith in rw (← f, read_exact-taken n bytes more r.0 r.1 e)
]

-- A subscriber reads the message of a refusal, shorter than 2 ^ 32 bytes, whatever follows it.
pub check_tunnel-tunnel_error :
    (msg rest : List ℕ)
    → length msg < 2 ^ 32
    → check_tunnel (tunnel_error msg ++ rest) ≡ rejected msg
unfolding tunnel_error check_tunnel to_be_bytes read_error read_exact ℕ_discrete
check_tunnel-tunnel_error msg rest bound =
    let small : length msg % 2 ^ 32 ≡ length msg = omega arith in
    rw (read_error, small, be_bytes-trip (length msg) bound, read_exact-append msg rest)

-- What is too short to be read is still so with nothing of it.
read_exact-none : (n : ℕ) (bytes : List ℕ) → read_exact n bytes ≡ none → read_exact n [] ≡ none
unfolding read_exact
read_exact-none zero bytes h = absurd (cc)
read_exact-none (suc n) bytes h = refl

append-[] : (bytes : List ℕ) → bytes ++ [] ≡ bytes
append-[] [] = refl
append-[] (b ∷ bytes) = ap (◌∷◌ b) (append-[] bytes)

-- A relay's subscriber learns what the node behind the relay answered: the same message, or that
-- the tunnel is ready and the same bytes after it, or that the answer was cut off.
pub check_tunnel-relay_answer :
    (stream : List ℕ) → check_tunnel (relay_answer stream) ≡ check_tunnel stream
unfolding relay_answer check_tunnel read_error
check_tunnel-relay_answer [] = refl
check_tunnel-relay_answer (status ∷ stream) = elim (Bool-cases (status == 0)) [
  | inl z ↦ ground arith
  | inr nz ↦ elim (Option-cases (read_exact 4 stream)) [
    | inl e ↦ ground (arith, e)
    | inr (r, e) ↦ elim (Option-cases (read_exact (from_be_bytes r.0) r.1)) [
      | inl f ↦
          let first : read_exact 4 (r.0 ++ []) ≡ some (r.0, []) =
            read_exact-taken 4 stream [] r.0 r.1 e in
          ground (arith, e, f, first, append-[] r.0, read_exact-none (from_be_bytes r.0) r.1 f)
      | inr (s, f) ↦
          let first : read_exact 4 (r.0 ++ s.0) ≡ some (r.0, s.0) =
            read_exact-taken 4 stream s.0 r.0 r.1 e in
          let second : read_exact (from_be_bytes r.0) (s.0 ++ []) ≡ some (s.0, []) =
            read_exact-taken (from_be_bytes r.0) r.1 [] s.0 s.1 f in
          ground (arith, e, f, first, second, append-[] s.0)
    ]
  ]
]
