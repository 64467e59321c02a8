-- ===== src/Subscribe/Balancer/Ejections.antt =====
-- What further failures do to a node that is ejected, among failures of any nodes.
use stouter.Prelude.{
  ℕ, ◌+◌, ◌*◌, ◌^◌, ◌≤◌, ◌<◌, String, true, false, Option, none, List, [], ◌∷◌, All, min,
  string_key, text_dec, ltb, ◌≡◌, refl, ap, ◌∙◌, arith,
}
use stouter.Subscribe.Balancer.{
  Inner, OutlierState, is_ejected, record_failure, base_ejection, max_ejection,
}
use stouter.Subscribe.Balancer.Outliers.{
  state_of, strike, strike-ejects, record_failure-ejected, state_of-record_failure, fail_counted,
  record_failure_step, if_same,
}

-- Failures of nodes at their times, and what was returned for each.
pub fail_all : Inner → List (String × ℕ) → Inner × List (String × Option ℕ)
fail_all s [] = (s, [])
fail_all s ((id, t) ∷ fs) =
    let one = record_failure s id t in
    let rest = fail_all one.0 fs in (rest.0, (id, one.1) ∷ rest.1)

-- The failures of the node are before a time.
abbrev pub Before : String → ℕ → List (String × ℕ) → Type 0
Before id end = All (λ f. f.0 ≡ id → f.1 < end)

-- No failure of the node ejects it again.
abbrev pub NoneEjects : String → List (String × Option ℕ) → Type 0
NoneEjects id = All (λ r. r.0 ≡ id → r.1 ≡ none)

record_failure-elsewhere :
    (s : Inner) (id j : String) (t : ℕ)
    → ¬ (j ≡ id)
    → state_of (record_failure s j t).0 id ≡ state_of s id
record_failure-elsewhere s id j t h = rw (state_of-record_failure s j id t) (ground arith)

fail_all-lasts :
    (id : String) (end : ℕ) (fs : List (String × ℕ)) (s : Inner)
    → ((u : ℕ) → is_ejected (state_of s id) u ≡ ltb u end)
    → Before id end fs
    → NoneEjects id (fail_all s fs).1 × (state_of (fail_all s fs).0 id ≡ state_of s id)
unfolding fail_all
fail_all-lasts id end [] s out h = (tt, refl)
fail_all-lasts id end ((j, t) ∷ fs) s out h =
    let one = record_failure s j t in
    let first : (j ≡ id → one.1 ≡ none) × (state_of one.0 id ≡ state_of s id) =
      elim (text_dec j id) [
        | yes e ↦
            let soon : t < end = h.0 e in
            let still : is_ejected (state_of s id) t ≡ true = out t ∙ ground arith in
            let (none_again, same) = record_failure-ejected s id t still in
            rw e (λ x. none_again, same id)
        | no n ↦ (λ e. absurd (n e), record_failure-elsewhere s id j t n)
      ] in
    let (rest, same) =
      fail_all-lasts id end fs one.0 (λ u. ap (λ o. is_ejected o u) first.1 ∙ out u) h.1 in
    ((first.0, rest), same ∙ first.1)

counted_once :
    (s : Inner) (id : String) (v : ℕ)
    → is_ejected (state_of s id) v ≡ false
    → (state_of s id).consecutive_failures ≡ 0
    → ((record_failure s id v).1 ≡ none)
      × ((state_of (record_failure s id v).0 id).consecutive_failures ≡ 1)
counted_once s id v free zero =
    let counts = fail_counted (state_of s id) v free (omega arith) in
    let (r, at) = record_failure_step s id v _ none counts in
    (r, ap (λ (o : OutlierState). o.consecutive_failures) (at id ∙ if_same id _ _) ∙ omega arith)

-- Three failures in a row eject a node, and then nodes fail in any order, the node itself only before
-- the end of its ejection. None of these failures ejects the node again or makes its ejection longer:
-- it ends exactly when the third failure said. The first failure from then on ejects nothing and is
-- counted as one. The node is in rotation at the first of the three, with no failure counted, its
-- ejections stay below 2 ^ 32, and the times of the three do not go back.
pub strike-lasts :
    (s : Inner) (id : String) (t₁ t₂ t₃ : ℕ) (fs : List (String × ℕ))
    → (state_of s id).consecutive_failures ≡ 0
    → (state_of s id).ejections + 1 < 2 ^ 32
    → is_ejected (state_of s id) t₁ ≡ false
    → t₁ ≤ t₂
    → t₂ ≤ t₃
    → Before id (t₃ + min (base_ejection * 2 ^ (state_of s id).ejections) max_ejection) fs
    → let d = min (base_ejection * 2 ^ (state_of s id).ejections) max_ejection in
      let after = fail_all (strike s id t₁ t₂ t₃).0 fs in
      NoneEjects id after.1
      × ((u : ℕ) → is_ejected (state_of after.0 id) u ≡ ltb u (t₃ + d))
      × ((v : ℕ)
          → t₃ + d ≤ v
          → ((record_failure after.0 id v).1 ≡ none)
            × ((state_of (record_failure after.0 id v).0 id).consecutive_failures ≡ 1))
strike-lasts s id t₁ t₂ t₃ fs z fits free le₁ le₂ h =
    let (d, length, results, out, counted, ejections, elsewhere) =
      strike-ejects s id t₁ t₂ t₃ z fits free le₁ le₂ in
    let d' = min (base_ejection * 2 ^ (state_of s id).ejections) max_ejection in
    let out' : (u : ℕ) → is_ejected (state_of (strike s id t₁ t₂ t₃).0 id) u ≡ ltb u (t₃ + d') =
      λ u. out u ∙ ap (λ x. ltb u (t₃ + x)) length in
    let (none_again, same) = fail_all-lasts id (t₃ + d') fs (strike s id t₁ t₂ t₃).0 out' h in
    let after = (fail_all (strike s id t₁ t₂ t₃).0 fs).0 in
    let ends : (u : ℕ) → is_ejected (state_of after id) u ≡ ltb u (t₃ + d') =
      λ u. ap (λ o. is_ejected o u) same ∙ out' u in
    (
      none_again,
      ends,
      λ v le.
          let over : is_ejected (state_of after id) v ≡ false = ends v ∙ ground arith in
          let zero : (state_of after id).consecutive_failures ≡ 0 =
            ap (λ (o : OutlierState). o.consecutive_failures) same ∙ counted in
          counted_once after id v over zero,
    )
