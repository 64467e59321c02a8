-- ===== src/Prelude/Keys.antt =====
-- Equality tests (`==` of the source) for every type with decidable equality.
use Prim.Native.Nat.{ℕ}
use Prim.Native.String.{String}
use mathlib.Core.Bool.{Bool, true, false, false≢true}
use mathlib.Core.Logic.{ite}
use mathlib.Core.Path.{◌≡◌, refl}
use native.Mathlib.Decide.{ℕ_discrete}
use text.Mathlib.Text.{◌==◌ as str_eq}
use text.Mathlib.TextEquality.{eq_iff}

decide_by {ℓ} : {P : Type ℓ} (b : Bool) → (b ≡ true → P) → (P → b ≡ true) → Dec P
decide_by true f g = yes (f refl)
decide_by false f g = no (λ p. false≢true (g p))

unfoldable pub text_dec : Discrete String
unfolding decide_by
text_dec s t = decide_by (str_eq s t) (eq_iff s t).0 (eq_iff s t).1

pub record Key {ℓ} (K : Type ℓ) : Type ℓ where
  pub dec : Discrete K

infix 50 ◌==◌
abbrev pub ◌==◌ {ℓ} : {K : Type ℓ} ⦃key : Key K⦄ → K → K → Bool
◌==◌ ⦃key⦄ a b = ite (key.dec a b) true false

instance abbrev pub nat_key : Key ℕ
nat_key = record { dec = ℕ_discrete }

instance abbrev pub string_key : Key String
string_key = record { dec = text_dec }

text_dec_runs : (◌==◌ {K = String} "a" "a" ≡ true) × (◌==◌ {K = String} "a" "b" ≡ false)
unfolding text_dec
text_dec_runs = (refl, refl)
