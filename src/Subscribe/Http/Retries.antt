-- ===== src/Subscribe/Http/Retries.antt =====
-- When a request of src/subscribe/http.rs is sent again, and which answer is kept meanwhile.
use mathlib.Core.List.{append_assoc}
use stouter.Prelude.{
  ℕ, String, true, Option, none, some, List, [], ◌∷◌, ◌++◌, string_key, nat_key, ◌≡◌, refl, In,
  here, there, All, ap, ◌∙◌,
}
use stouter.Subscribe.Http.{
  is_retryable_status, is_idempotent, answered, not_connected, failed, Sent,
}

-- What has to be so for a request to be sent again after what came of an earlier one: it cannot have
-- reached that node, or it is safe to repeat and the node could not serve it.
abbrev pub MayRepeat : String → String × Sent → Type 0
MayRepeat method (id, none) = ⊥
MayRepeat method (id, some failed) = ⊥
MayRepeat method (id, some not_connected) = Unit
MayRepeat method (id, some (answered status)) =
    (is_retryable_status status ≡ true) × (is_idempotent method ≡ true)

abbrev pub Unanswered : String × Sent → Type 0
Unanswered (id, none) = Unit
Unanswered (id, some failed) = Unit
Unanswered (id, some not_connected) = Unit
Unanswered (id, some (answered status)) = ⊥

-- Every request that another one follows may be repeated.
abbrev pub Repeats : String → List (String × Sent) → Type 0
Repeats method [] = Unit
Repeats method (e ∷ []) = Unit
Repeats method (e ∷ f ∷ sent) = MayRepeat method e × Repeats method (f ∷ sent)

module _ {ℓ} {A : Type ℓ} where
  pub In-last : (xs : List A) (x : A) → In x (xs ++ x ∷ [])
  In-last [] x = here
  In-last (y ∷ xs) x = there (In-last xs x)

  pub All-snoc {κ} : (P : A → Type κ) (xs : List A) (x : A) → All P xs → P x → All P (xs ++ x ∷ [])
  All-snoc P [] x h p = (p, tt)
  All-snoc P (y ∷ xs) x h p = (h.0, All-snoc P xs x h.1 p)

  pub In-middle : (xs : List A) (x : A) (ys : List A) → In x (xs ++ x ∷ ys)
  In-middle [] x ys = here
  In-middle (y ∷ xs) x ys = there (In-middle xs x ys)

  pub append-[] : (xs : List A) → xs ++ [] ≡ xs
  append-[] [] = refl
  append-[] (x ∷ xs) = rw (append-[] xs)

pub Repeats-All :
    (method : String) (sent : List (String × Sent))
    → All (MayRepeat method) sent
    → Repeats method sent
Repeats-All method [] h = tt
Repeats-All method (e ∷ []) h = tt
Repeats-All method (e ∷ f ∷ sent) h = (h.0, Repeats-All method (f ∷ sent) h.1)

pub Repeats-snoc :
    (method : String) (sent : List (String × Sent)) (e : String × Sent)
    → All (MayRepeat method) sent
    → Repeats method (sent ++ e ∷ [])
Repeats-snoc method [] e h = tt
Repeats-snoc method (d ∷ []) e h = (h.0, tt)
Repeats-snoc method (d ∷ f ∷ sent) e h = (h.0, Repeats-snoc method (f ∷ sent) e h.1)

-- The last answer that came is `status`, of the node `id`.
pub record LastAnswer (id : String) (status : ℕ) (sent : List (String × Sent)) : Type 0 where
  pub before : List (String × Sent)
  pub later : List (String × Sent)
  pub whole : sent ≡ before ++ (id, some (answered status)) ∷ later
  pub none_since : All Unanswered later

-- The answer to fall back on is the last that came, and without one there was none.
abbrev pub Held : Option (ℕ × String) → List (String × Sent) → Type 0
Held none sent = All Unanswered sent
Held (some (status, id)) sent = LastAnswer id status sent

-- What is fallen back on stays, past a request without an answer.
pub Held-more :
    (fallback : Option (ℕ × String)) (sent : List (String × Sent)) (e : String × Sent)
    → Held fallback sent
    → Unanswered e
    → Held fallback (sent ++ e ∷ [])
Held-more none sent e h u = All-snoc Unanswered sent e h u
Held-more (some (status, id)) sent e h u = record {
  before = h.before;
  later = h.later ++ e ∷ [];
  whole =
      ap (λ xs. xs ++ e ∷ []) h.whole
      ∙ append_assoc h.before ((id, some (answered status)) ∷ h.later) (e ∷ []);
  none_since = All-snoc Unanswered h.later e h.none_since u;
}

-- The last answer is one that came.
pub LastAnswer-In :
    {id : String} {status : ℕ} {sent : List (String × Sent)}
    → LastAnswer id status sent
    → In (id, some (answered status)) sent
LastAnswer-In {id} {status} h = rw h.whole (In-middle h.before (id, some (answered status)) h.later)
