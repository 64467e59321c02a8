-- ===== src/Prelude/Lists.antt =====
-- Lists by Boolean tests and native numbers, under the library's and the source's names.
use Prim.Native.Nat.{ℕ, zero, suc, ◌+◌, ◌≤◌, ◌<◌}
use mathlib.Core.Bool.{Bool, true, false, ◌&&◌, ◌||◌}
use mathlib.Core.List.{List, [], ◌∷◌, ◌++◌, map}
use mathlib.Core.Option.{Option, none, some}
use mathlib.Core.Path.{◌≡◌, refl}
use native.Mathlib.Omega.{arith}
use stouter.Prelude.Keys.{Key, ◌==◌}
use stouter.Prelude.Tests.{if◌then◌else◌, Bool-cases}
use mathlib.Core.Logic.{◌⊎◌, inl, inr}

module _ {ℓ} {A : Type ℓ} where
  abbrev pub length : List A → ℕ
  length [] = 0
  length (x ∷ xs) = suc (length xs)

  abbrev pub is_empty : List A → Bool
  is_empty [] = true
  is_empty (x ∷ xs) = false

  abbrev pub filter : (A → Bool) → List A → List A
  filter p [] = []
  filter p (x ∷ xs) = let rest = filter p xs in if p x then x ∷ rest else rest

  abbrev pub any : (A → Bool) → List A → Bool
  any p [] = false
  any p (x ∷ xs) = p x || any p xs

  abbrev pub all : (A → Bool) → List A → Bool
  all p [] = true
  all p (x ∷ xs) = p x && all p xs

  abbrev pub find : (A → Bool) → List A → Option A
  find p [] = none
  find p (x ∷ xs) = if p x then some x else find p xs

  abbrev pub get_elem? : List A → ℕ → Option A
  get_elem? [] i = none
  get_elem? (x ∷ xs) zero = some x
  get_elem? (x ∷ xs) (suc i) = get_elem? xs i

  -- Every element has the property; by recursion, so that the tactics take it apart.
  abbrev pub All {κ} : (A → Type κ) → List A → Type κ
  All P [] = Unit
  All P (x ∷ xs) = P x × All P xs

pub List-cases {ℓ} :
    {A : Type ℓ} (xs : List A) → (xs ≡ []) ⊎ ((x : A) × (ys : List A) × (xs ≡ x ∷ ys))
List-cases [] = inl refl
List-cases (x ∷ ys) = inr (x, ys, refl)

-- An element of the list, with the place where it stands.
pub data In {ℓ} {A : Type ℓ} (x : A) : List A → Type ℓ where
  here : {xs : List A} → In x (x ∷ xs)
  there : {y : A} {xs : List A} → In x xs → In x (y ∷ xs)

module _ {ℓ} {A : Type ℓ} where
  pub All-at {κ} : (P : A → Type κ) {x : A} {xs : List A} → In x xs → All P xs → P x
  All-at P here h = h.0
  All-at P (there i) h = All-at P i h.1

  pub All-map {κ μ} :
      (P : A → Type κ) (Q : A → Type μ) (xs : List A) → ((x : A) → P x → Q x) → All P xs → All Q xs
  All-map P Q [] f h = tt
  All-map P Q (x ∷ xs) f h = (f x h.0, All-map P Q xs f h.1)

  pub All-of {κ} : (P : A → Type κ) (xs : List A) → ((x : A) → In x xs → P x) → All P xs
  All-of P [] f = tt
  All-of P (x ∷ xs) f = (f x here, All-of P xs (λ y i. f y (there i)))

  pub All-append {κ} : (P : A → Type κ) (xs ys : List A) → All P xs → All P ys → All P (xs ++ ys)
  All-append P [] ys h k = k
  All-append P (x ∷ xs) ys h k = (h.0, All-append P xs ys h.1 k)

  pub get_elem?-In : (xs : List A) (i : ℕ) {x : A} → get_elem? xs i ≡ some x → In x xs
  get_elem?-In [] i e = absurd (cc)
  get_elem?-In (y ∷ xs) zero {x} e = let p : y ≡ x = cc in rw p here
  get_elem?-In (y ∷ xs) (suc i) e = there (get_elem?-In xs i e)

  -- To prove something of each element of `x ∷ xs`.
  pub In-cons {κ} :
      (P : A → Type κ) {x : A} {xs : List A}
      → P x
      → ((y : A) → In y xs → P y)
      → (y : A) → In y (x ∷ xs)
      → P y
  In-cons P p f y here = p
  In-cons P p f y (there i) = f y i

  pub any-at : (p : A → Bool) {x : A} {xs : List A} → In x xs → p x ≡ true → any p xs ≡ true
  any-at p here e = ground arith
  any-at p (there i) e = ground (arith, any-at p i e)

  pub any-none : (p : A → Bool) (xs : List A) → any p xs ≡ false → All (λ x. p x ≡ false) xs
  any-none p [] h = tt
  any-none p (x ∷ xs) h = ground (arith, any-none p xs)

  pub any-some : (p : A → Bool) (xs : List A) → any p xs ≡ true → (x : A) × In x xs × (p x ≡ true)
  any-some p [] h = absurd (cc)
  any-some p (x ∷ xs) h = elim (Bool-cases (p x)) [
    | inl e ↦ (x, here, e)
    | inr e ↦ let (y, i, q) = any-some p xs (ground arith) in (y, there i, q)
  ]

  pub length-append : (xs ys : List A) → length (xs ++ ys) ≡ length xs + length ys
  length-append [] ys = omega arith
  length-append (x ∷ xs) ys = omega (arith, length-append xs ys)

  pub length-filter-le : (p : A → Bool) (xs : List A) → length (filter p xs) ≤ length xs
  length-filter-le p [] = omega arith
  length-filter-le p (x ∷ xs) = ground (arith, length-filter-le p xs)

  In-if :
      (b : Bool) (x : A) (rest : List A) {y : A}
      → In y (if b then x ∷ rest else rest)
      → ((y ≡ x) × (b ≡ true)) ⊎ In y rest
  In-if true x rest here = inl (refl, refl)
  In-if true x rest (there i) = inr i
  In-if false x rest i = inr i

  if-In :
      (b : Bool) (x : A) (rest : List A) {y : A} → In y rest → In y (if b then x ∷ rest else rest)
  if-In true x rest i = there i
  if-In false x rest i = i

  -- What is kept was there and passes the test.
  pub In-filter : (p : A → Bool) (xs : List A) {x : A} → In x (filter p xs) → In x xs × (p x ≡ true)
  In-filter p [] i = elim i [ ]
  In-filter p (x ∷ xs) i = elim (In-if (p x) x (filter p xs) i) [
    | inl (e, q) ↦ (rw e here, rw e q)
    | inr k ↦ let (j, q) = In-filter p xs k in (there j, q)
  ]

  pub filter-In : (p : A → Bool) {x : A} {xs : List A} → In x xs → p x ≡ true → In x (filter p xs)
  filter-In p here e = rw e here
  filter-In p (there {y = y} {xs = xs} i) e = if-In (p y) y (filter p xs) (filter-In p i e)

  pub filter-All : (p : A → Bool) (xs : List A) → All (λ x. p x ≡ true) xs → filter p xs ≡ xs
  filter-All p [] h = refl
  filter-All p (x ∷ xs) h = rw (h.0, filter-All p xs h.1)

  -- Nothing is kept exactly when nothing passes.
  pub filter-none : (p : A → Bool) (xs : List A) → any p xs ≡ false → filter p xs ≡ []
  filter-none p [] h = refl
  filter-none p (x ∷ xs) h = ground (arith, filter-none p xs)

  pub is_empty-filter :
      (p : A → Bool) (xs : List A) → is_empty (filter p xs) ≡ true → All (λ x. p x ≡ false) xs
  is_empty-filter p [] h = tt
  is_empty-filter p (x ∷ xs) h = ground (arith, is_empty-filter p xs)

  pub filter-append :
      (p : A → Bool) (xs ys : List A) → filter p (xs ++ ys) ≡ filter p xs ++ filter p ys
  filter-append p [] ys = refl
  filter-append p (x ∷ xs) ys = ground (arith, filter-append p xs ys)

pub In-map {ℓ κ} :
    {A : Type ℓ} {B : Type κ} (f : A → B) {x : A} {xs : List A} → In x xs → In (f x) (map f xs)
In-map f here = here
In-map f (there i) = there (In-map f i)

module _ {ℓ} {A : Type ℓ} ⦃key : Key A⦄ where
  abbrev pub contains : A → List A → Bool
  contains a = any (λ x. a == x)

  -- No two elements are equal.
  abbrev pub Distinct : List A → Type 0
  Distinct [] = Unit
  Distinct (x ∷ xs) = (contains x xs ≡ false) × Distinct xs

  -- What is not in `x ∷ seen` is not in `seen`, and `x` is not among it.
  pub fresh-cons :
      (x : A) (seen xs : List A)
      → All (λ y. contains y (x ∷ seen) ≡ false) xs
      → (contains x xs ≡ false) × All (λ y. contains y seen ≡ false) xs
  fresh-cons x seen [] h = (refl, tt)
  fresh-cons x seen (y ∷ ys) h =
      let (p, q) = fresh-cons x seen ys h.1 in let e = h.0 in (ground arith, (ground arith, q))

  pub contains-In : (a : A) {xs : List A} → In a xs → contains a xs ≡ true
  contains-In a i = any-at (λ x. a == x) i (ground arith)

  pub In-contains : (a : A) (xs : List A) → contains a xs ≡ true → In a xs
  In-contains a xs h =
      let (x, i, e) = any-some (λ x. a == x) xs h in let p : a ≡ x = ground arith in rw p i

  -- How often an element stands in the list.
  unfoldable pub count : A → List A → ℕ
  count a [] = 0
  count a (x ∷ xs) = (if x == a then 1 else 0) + count a xs

  contains-map-filter {κ} :
      {B : Type κ} (f : B → A) (p : B → Bool) (a : A) (xs : List B)
      → contains a (map f xs) ≡ false
      → contains a (map f (filter p xs)) ≡ false
  contains-map-filter f p a [] h = refl
  contains-map-filter f p a (x ∷ xs) h = ground (arith, contains-map-filter f p a xs)

  -- A part of a list without repetition has none.
  pub Distinct-map-filter {κ} :
      {B : Type κ} (f : B → A) (p : B → Bool) (xs : List B)
      → Distinct (map f xs)
      → Distinct (map f (filter p xs))
  Distinct-map-filter f p [] d = tt
  Distinct-map-filter f p (x ∷ xs) d = elim (Bool-cases (p x)) [
    | inl e ↦ rw e (contains-map-filter f p (f x) xs d.0, Distinct-map-filter f p xs d.1)
    | inr e ↦ rw e (Distinct-map-filter f p xs d.1)
  ]

  -- The list without the first occurrence of an element.
  unfoldable pub erase : A → List A → List A
  erase a [] = []
  erase a (x ∷ xs) = if x == a then xs else x ∷ erase a xs

  pub count-erase :
      (a b : A) (xs : List A)
      → In a xs
      → count b (erase a xs) + (if a == b then 1 else 0) ≡ count b xs
  unfolding count erase
  count-erase a b [] i = elim i [ ]
  count-erase a b (x ∷ xs) here = ground arith
  count-erase a b (x ∷ xs) (there i) = ground (arith, count-erase a b xs i)

  pub count-pos : {a : A} {xs : List A} → In a xs → 0 < count a xs
  unfolding count
  count-pos here = ground arith
  count-pos (there i) = ground (arith, count-pos i)

  pub count-le-length : (a : A) (xs : List A) → count a xs ≤ length xs
  unfolding count
  count-le-length a [] = omega arith
  count-le-length a (x ∷ xs) = ground (arith, count-le-length a xs)
