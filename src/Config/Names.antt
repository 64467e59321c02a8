-- ===== src/Config/Names.antt =====
-- `sort` and `dedup` of names in `Config::validate` of src/config.rs.
use stouter.Prelude.{
  ℕ, String, Bool, true, false, ◌||◌, List, [], ◌∷◌, ltb, contains, ◌==◌, string_key, nat_key,
  if◌then◌else◌, ◌≡◌, refl, arith, ◌∙◌,
}
use stouter.Config.Text.{codes}

-- The order of texts, by their code points.
unfoldable pub before : List ℕ → List ℕ → Bool
before [] y = true
before (a ∷ x) [] = false
before (a ∷ x) (b ∷ y) = let rest = before x y in if a == b then rest else ltb a b

unfoldable pub insert_name : String → List String → List String
unfolding before
insert_name a [] = a ∷ []
insert_name a (b ∷ rest) =
    let later = insert_name a rest in if before (codes a) (codes b) then a ∷ b ∷ rest else b ∷ later

unfoldable pub sort_names : List String → List String
unfolding insert_name
sort_names [] = []
sort_names (a ∷ rest) = insert_name a (sort_names rest)

unfoldable pub dedup_names : List String → List String
dedup_names [] = []
dedup_names (a ∷ []) = a ∷ []
dedup_names (a ∷ b ∷ rest) =
    let later = dedup_names (b ∷ rest) in if a == b then later else a ∷ later

contains-insert_name :
    (x a : String) (names : List String)
    → contains x (insert_name a names) ≡ ((x == a) || contains x names)
unfolding insert_name
contains-insert_name x a [] = refl
contains-insert_name x a (b ∷ rest) = ground (arith, contains-insert_name x a rest)

contains-sort_names :
    (x : String) (names : List String) → contains x (sort_names names) ≡ contains x names
unfolding sort_names
contains-sort_names x [] = refl
contains-sort_names x (a ∷ rest) =
    ground (arith, contains-sort_names x rest, contains-insert_name x a (sort_names rest))

contains-dedup_names :
    (x : String) (names : List String) → contains x (dedup_names names) ≡ contains x names
unfolding dedup_names
contains-dedup_names x [] = refl
contains-dedup_names x (a ∷ []) = refl
contains-dedup_names x (a ∷ b ∷ rest) = ground (arith, contains-dedup_names x (b ∷ rest))

-- Sorting and removing repetitions leaves the same names.
pub contains-names :
    (x : String) (names : List String)
    → contains x (dedup_names (sort_names names)) ≡ contains x names
contains-names x names = contains-dedup_names x (sort_names names) ∙ contains-sort_names x names
