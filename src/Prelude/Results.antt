-- ===== src/Prelude/Results.antt =====
-- `Result` of the source, and the first element that an `iter_mut().find` changes.
use mathlib.Core.Bool.{Bool, true, false}
use mathlib.Core.List.{List, [], ◌∷◌}
use mathlib.Core.Option
use mathlib.Core.Option.{Option, none, some}
use mathlib.Core.Path.{◌≡◌, refl, ap}
use native.Mathlib.Omega.{arith}
use mathlib.Core.List.{◌++◌}
use mathlib.Core.Logic.{◌⊎◌, inl, inr}
use stouter.Prelude.Lists.{any, find, In, here, there}
use stouter.Prelude.Tests.{if◌then◌else◌, Bool-cases}

pub data Result {ℓ κ} (E : Type ℓ) (A : Type κ) : Type (ℓ ⊔ κ) where
  ok : A → Result E A
  err : E → Result E A

infixl 5 ◌>>=◌ ◌>>◌
abbrev pub ◌>>=◌ {ℓ κ μ} :
    {E : Type ℓ} {A : Type κ} {B : Type μ} → Result E A → (A → Result E B) → Result E B
ok a >>= f = f a
err e >>= f = err e

abbrev pub ◌>>◌ {ℓ κ} : {E : Type ℓ} {B : Type κ} → Result E (Unit {0}) → Result E B → Result E B
m >> k = m >>= λ _. k

-- An early `return Err(e)` where the test holds.
abbrev pub fail_if {ℓ} : {E : Type ℓ} → Bool → E → Result E (Unit {0})
fail_if true e = err e
fail_if false e = ok tt

module _ {ℓ} {A : Type ℓ} (p : A → Bool) where
  -- `iter_mut().find(p)` with a write: the first element that passes is changed.
  unfoldable pub update_first : (A → A) → List A → List A
  update_first f [] = []
  update_first f (x ∷ xs) = if p x then f x ∷ xs else x ∷ update_first f xs

  -- The change stays in its place.
  pub update_first-splits :
      (f : A → A) (xs : List A) {x : A}
      → find p xs ≡ some x
      → (before : List A) × (after : List A) × (xs ≡ before ++ x ∷ after)
        × (any p before ≡ false)
        × (update_first f xs ≡ before ++ f x ∷ after)
  unfolding update_first
  update_first-splits f [] h = absurd (cc)
  update_first-splits f (y ∷ ys) {x} h = elim (Bool-cases (p y)) [
    | inl e ↦ let same : y ≡ x = ground arith in ([], ys, rw same refl, refl, rw (e, same) refl)
    | inr e ↦
        let (before, after, whole, fresh, changed) = update_first-splits f ys (ground arith) in
        (
          y ∷ before,
          after,
          ap (λ zs. y ∷ zs) whole,
          rw (e, fresh),
          rw e (ap (λ zs. y ∷ zs) changed),
        )
  ]

  pub find-none : (xs : List A) → find p xs ≡ none → any p xs ≡ false
  find-none [] h = refl
  find-none (x ∷ xs) h = ground (arith, find-none xs)

  pub none-find : (xs : List A) → any p xs ≡ false → find p xs ≡ none
  none-find [] h = refl
  none-find (x ∷ xs) h = ground (arith, none-find xs)

  pub find-any : (xs : List A) {x : A} → find p xs ≡ some x → any p xs ≡ true
  find-any [] h = absurd (cc)
  find-any (y ∷ xs) {x} h = ground (arith, find-any xs {x = x})

  pub find-In : (xs : List A) {x : A} → find p xs ≡ some x → In x xs × (p x ≡ true)
  find-In [] h = absurd (cc)
  find-In (y ∷ xs) {x} h = elim (Bool-cases (p y)) [
    | inl e ↦ let q : y ≡ x = ground arith in (rw q here, rw (← q) e)
    | inr e ↦ let (i, r) = find-In xs (ground arith) in (there i, r)
  ]

  pub find-append :
      (xs ys : List A) → find p (xs ++ ys) ≡ elim (find p xs) [ none ↦ find p ys | some x ↦ some x ]
  find-append [] ys = refl
  find-append (x ∷ xs) ys = ground (arith, find-append xs ys)

  -- The changed element is found if the change keeps its test.
  pub find-update_first_self :
      (f : A → A) (xs : List A)
      → ((x : A) → p x ≡ true → p (f x) ≡ true)
      → find p (update_first f xs) ≡ Option.map f (find p xs)
  unfolding update_first
  find-update_first_self f [] h = refl
  find-update_first_self f (x ∷ xs) h = ground (arith, find-update_first_self f xs h, h x)

  -- Another test finds what it found, if the change keeps the test and what passes `p` fails it.
  pub find-update_first_ne :
      (q : A → Bool) (f : A → A) (xs : List A)
      → ((x : A) → p x ≡ true → q x ≡ false)
      → ((x : A) → p x ≡ true → q (f x) ≡ false)
      → find q (update_first f xs) ≡ find q xs
  unfolding update_first
  find-update_first_ne q f [] h k = refl
  find-update_first_ne q f (x ∷ xs) h k = ground (arith, find-update_first_ne q f xs h k, h x, k x)

-- A sequence succeeds where its parts do.
pub >>-ok {ℓ κ} :
    {E : Type ℓ} {B : Type κ} (m : Result E (Unit {0})) {k : Result E B} {b : B}
    → (m >> k) ≡ ok b
    → (m ≡ ok tt) × (k ≡ ok b)
>>-ok (ok u) h = (refl, h)
>>-ok (err e) h = absurd (cc)

pub >>=-ok {ℓ κ μ} :
    {E : Type ℓ} {A : Type κ} {B : Type μ} (m : Result E A) {f : A → Result E B} {b : B}
    → (m >>= f) ≡ ok b
    → (a : A) × (m ≡ ok a) × (f a ≡ ok b)
>>=-ok (ok a) h = (a, refl, h)
>>=-ok (err e) h = absurd (cc)

pub fail_if-ok {ℓ} : {E : Type ℓ} (t : Bool) (e : E) → fail_if t e ≡ ok tt → t ≡ false
fail_if-ok true e h = absurd (cc)
fail_if-ok false e h = refl

pub fail_if_then-ok {ℓ κ} :
    {E : Type ℓ} {B : Type κ} (t : Bool) (e : E) (k : Result E B) {b : B}
    → (fail_if t e >> k) ≡ ok b
    → (t ≡ false) × (k ≡ ok b)
fail_if_then-ok true e k h = absurd (cc)
fail_if_then-ok false e k h = (refl, h)

pub Result-cases {ℓ κ} :
    {E : Type ℓ} {A : Type κ} (m : Result E A) → ((a : A) × (m ≡ ok a)) ⊎ ((e : E) × (m ≡ err e))
Result-cases (ok a) = inl (a, refl)
Result-cases (err e) = inr (e, refl)
