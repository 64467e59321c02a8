-- ===== src/Subscribe/Http/Bytes.antt =====
-- Texts of ASCII bytes as src/subscribe/http.rs splits, trims and encodes them.
use mathlib.Core.List.{reverse}
use stouter.Prelude.{
  ℕ, ◌+◌, ◌-◌, ◌*◌, ◌/◌, ◌%◌, Bool, ◌&&◌, ◌||◌, Option, none, some, List, [], ◌∷◌, leb, ltb, ◌==◌,
  nat_key, Key, ℕ_discrete, if◌then◌else◌, ◌≡◌, refl,
}

-- Texts are compared as lists of code points.
abbrev pub Text : Type 0
Text = List ℕ

unfoldable pub same_head :
    {a b : ℕ} {x y : Text} → Dec (a ≡ b) → Dec (x ≡ y) → Dec (Path Text (a ∷ x) (b ∷ y))
same_head (no n) e = no (λ p. n (cc))
same_head (yes p) (no n) = no (λ q. n (cc))
same_head (yes p) (yes q) = yes (λ i. p i ∷ q i)

unfoldable pub codes_dec : Discrete Text
unfolding same_head
codes_dec [] [] = yes refl
codes_dec [] (b ∷ y) = no (λ p. absurd (cc))
codes_dec (a ∷ x) [] = no (λ p. absurd (cc))
codes_dec (a ∷ x) (b ∷ y) = same_head (ℕ_discrete a b) (codes_dec x y)

instance abbrev pub text_key : Key Text
text_key = record { dec = codes_dec }

abbrev pub cons_first : ℕ → List Text → List Text
cons_first c [] = (c ∷ []) ∷ []
cons_first c (x ∷ xs) = (c ∷ x) ∷ xs

-- text.split(sep)
unfoldable pub split_on : ℕ → Text → List Text
split_on sep [] = [] ∷ []
split_on sep (c ∷ cs) =
    let rest = split_on sep cs in if c == sep then [] ∷ rest else cons_first c rest

-- White space among ASCII.
unfoldable pub is_space : ℕ → Bool
is_space c = c == 32 || leb 9 c && leb c 13

unfoldable pub trim_start : Text → Text
trim_start [] = []
trim_start (c ∷ cs) = if is_space c then trim_start cs else c ∷ cs

-- text.trim()
unfoldable pub trim : Text → Text
unfolding is_space trim_start
trim text = reverse (trim_start (reverse (trim_start text)))

-- format!("{b:02x}")
unfoldable pub hex_digit : ℕ → ℕ
hex_digit n = if ltb n 10 then b'0' + n else n + 87

unfoldable pub to_hex : List ℕ → Text
unfolding hex_digit
to_hex [] = []
to_hex (b ∷ bs) = hex_digit (b / 16) ∷ hex_digit (b % 16) ∷ to_hex bs

-- `char::to_digit(16)`
unfoldable pub digit_of : ℕ → Option ℕ
digit_of c =
    if leb b'0' c && leb c b'9'
    then some (c - b'0')
    else if leb b'a' c && leb c b'f'
    then some (c - 87)
    else if leb b'A' c && leb c b'F'
    then some (c - 55)
    else none

-- `u8::from_str_radix(.., 16)` of two characters, the first of which may be a sign.
unfoldable pub hex_pair : ℕ → ℕ → Option ℕ
unfolding digit_of
hex_pair a b = elim (digit_of b) [
  | none ↦ none
  | some low ↦
      if a == b'+'
      then some low
      else elim (digit_of a) [ none ↦ none | some high ↦ some (high * 16 + low) ]
]

-- The bytes of an even number of digits.
unfoldable pub of_hex : Text → Option (List ℕ)
unfolding hex_pair
of_hex [] = some []
of_hex (a ∷ []) = none
of_hex (a ∷ b ∷ text) = elim (hex_pair a b) [
  | none ↦ none
  | some byte ↦ elim (of_hex text) [ none ↦ none | some bytes ↦ some (byte ∷ bytes) ]
]
