-- ===== src/Config/Text.antt =====
-- Texts by their code points, for the tests of src/config.rs that look inside a text. On valid
-- UTF-8 these agree with the byte tests of the source.
use Prim.Native.Char.{code}
use stouter.Prelude.{
  ℕ, ◌+◌, String, Bool, false, ◌&&◌, ◌||◌, Option, none, some, List, [], ◌∷◌, ◌++◌, map, leb, ◌==◌,
  nat_key, if◌then◌else◌, ◌≡◌, refl, arith,
}

abbrev pub codes : String → List ℕ
codes String.[] = []
codes (String.◌∷◌ c s) = code c ∷ codes s

abbrev pub slash : ℕ
slash = b'/'

-- text.strip_prefix(prefix)
unfoldable pub strip_prefix : List ℕ → List ℕ → Option (List ℕ)
strip_prefix text [] = some text
strip_prefix [] (p ∷ prefix) = none
strip_prefix (c ∷ text) (p ∷ prefix) =
    let rest = strip_prefix text prefix in if c == p then rest else none

unfoldable pub starts_with : ℕ → List ℕ → Bool
starts_with c [] = false
starts_with c (x ∷ xs) = x == c

unfoldable pub ends_with : ℕ → List ℕ → Bool
ends_with c [] = false
ends_with c (x ∷ []) = x == c
ends_with c (x ∷ y ∷ xs) = ends_with c (y ∷ xs)

unfoldable pub is_ascii_uppercase : ℕ → Bool
is_ascii_uppercase c = leb b'A' c && leb c b'Z'

-- name.to_ascii_lowercase()
unfoldable pub to_ascii_lowercase : List ℕ → List ℕ
unfolding is_ascii_uppercase
to_ascii_lowercase = map (λ c. if is_ascii_uppercase c then c + 32 else c)

-- White space, a control character or no ASCII.
unfoldable pub is_unsafe : ℕ → Bool
is_unsafe c = leb c 32 || leb 127 c

-- What is stripped is the prefix, and only a prefix is.
pub strip_prefix-append :
    (text prefix : List ℕ) {rest : List ℕ}
    → strip_prefix text prefix ≡ some rest
    → text ≡ prefix ++ rest
unfolding strip_prefix
strip_prefix-append text [] h = ground arith
strip_prefix-append [] (p ∷ prefix) h = absurd (cc)
strip_prefix-append (c ∷ text) (p ∷ prefix) {rest} h =
    ground (arith, strip_prefix-append text prefix {rest = rest})

pub strip_prefix-of : (prefix rest : List ℕ) → strip_prefix (prefix ++ rest) prefix ≡ some rest
unfolding strip_prefix
strip_prefix-of [] rest = refl
strip_prefix-of (p ∷ prefix) rest = ground (arith, strip_prefix-of prefix rest)
