-- ===== src/Subscribe/Http/Hex.antt =====
-- The hexadecimal texts of src/subscribe/http.rs, read back.
use stouter.Prelude.{
  ℕ, ◌+◌, ◌*◌, ◌/◌, ◌%◌, ◌<◌, false, some, List, [], ◌∷◌, ◌==◌, nat_key, ◌≡◌, refl, arith, All,
}
use stouter.Subscribe.Http.Bytes.{hex_digit, to_hex, digit_of, hex_pair, of_hex}

digit_of-hex_digit : (n : ℕ) → n < 16 → digit_of (hex_digit n) ≡ some n
unfolding digit_of hex_digit
digit_of-hex_digit n small = ground arith

hex_digit-unsigned : (n : ℕ) → n < 16 → (hex_digit n == 43) ≡ false
unfolding hex_digit
hex_digit-unsigned n small = ground arith

hex_pair-hex_digit :
    (h l : ℕ) → h < 16 → l < 16 → hex_pair (hex_digit h) (hex_digit l) ≡ some (h * 16 + l)
unfolding hex_pair
hex_pair-hex_digit h l a b =
    rw (hex_pair, digit_of-hex_digit l b, hex_digit-unsigned h a, digit_of-hex_digit h a) refl

pub hex_pair-byte : (b : ℕ) → b < 256 → hex_pair (hex_digit (b / 16)) (hex_digit (b % 16)) ≡ some b
hex_pair-byte b small =
    let whole : b / 16 * 16 + b % 16 ≡ b = omega arith in
    rw (hex_pair-hex_digit (b / 16) (b % 16) (omega arith) (omega arith), whole) refl

pub of_hex-to_hex : (bytes : List ℕ) → All (λ b. b < 256) bytes → of_hex (to_hex bytes) ≡ some bytes
unfolding to_hex of_hex
of_hex-to_hex [] small = refl
of_hex-to_hex (b ∷ bs) small = rw (of_hex, hex_pair-byte b small.0, of_hex-to_hex bs small.1) refl
