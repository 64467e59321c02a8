-- ===== src/Subscribe/Http/Headers.antt =====
-- The headers of src/subscribe/http.rs. The `http` crate's map of headers is an interface: names are
-- in lower case, and a name may have several values.
use stouter.Prelude.{
  ℕ, ◌+◌, Bool, true, not, ◌&&◌, Option, none, some, List, [], ◌∷◌, ◌++◌, filter, map, leb, nat_key,
  is_empty, if◌then◌else◌, ◌≡◌, ◌≢◌, contains, All,
}
use stouter.Subscribe.Http.Bytes.{Text, text_key, split_on, trim}

-- `HeaderMap`, and `to_str` and `from_str` of `HeaderValue`.
pub record HeaderMap (H V : Type 0) : Type 0 where
  pub get_all : H → Text → List V
  pub remove : H → Text → H
  pub insert : H → Text → V → H
  pub to_str : V → Option Text
  pub from_str : Text → Option V
  pub remove_same : (h : H) (n : Text) → get_all (remove h n) n ≡ []
  pub remove_other : (h : H) (n m : Text) → n ≢ m → get_all (remove h n) m ≡ get_all h m
  pub insert_same : (h : H) (n : Text) (v : V) → get_all (insert h n v) n ≡ v ∷ []
  pub insert_other : (h : H) (n m : Text) (v : V) → n ≢ m → get_all (insert h n v) m ≡ get_all h m
  pub printable :
      (t : Text)
      → All (λ c. (leb 32 c && leb c 126) ≡ true) t
      → (v : V) × (from_str t ≡ some v) × (to_str v ≡ some t)

abbrev pub host : Text
host = b'h' ∷ b'o' ∷ b's' ∷ b't' ∷ []

abbrev pub traceparent : Text
traceparent = b't' ∷ b'r' ∷ b'a' ∷ b'c' ∷ b'e' ∷ b'p' ∷ b'a' ∷ b'r' ∷ b'e' ∷ b'n' ∷ b't' ∷ []

abbrev pub connection : Text
connection = b'c' ∷ b'o' ∷ b'n' ∷ b'n' ∷ b'e' ∷ b'c' ∷ b't' ∷ b'i' ∷ b'o' ∷ b'n' ∷ []

abbrev pub keep_alive : Text
keep_alive = b'k' ∷ b'e' ∷ b'e' ∷ b'p' ∷ b'-' ∷ b'a' ∷ b'l' ∷ b'i' ∷ b'v' ∷ b'e' ∷ []

abbrev pub proxy_connection : Text
proxy_connection =
    b'p' ∷ b'r' ∷ b'o' ∷ b'x' ∷ b'y' ∷ b'-' ∷ b'c' ∷ b'o' ∷ b'n' ∷ b'n' ∷ b'e' ∷ b'c' ∷ b't' ∷ b'i'
    ∷ b'o' ∷ b'n' ∷ []

abbrev pub proxy_authenticate : Text
proxy_authenticate =
    b'p' ∷ b'r' ∷ b'o' ∷ b'x' ∷ b'y' ∷ b'-' ∷ b'a' ∷ b'u' ∷ b't' ∷ b'h' ∷ b'e' ∷ b'n' ∷ b't' ∷ b'i'
    ∷ b'c' ∷ b'a' ∷ b't' ∷ b'e' ∷ []

abbrev pub proxy_authorization : Text
proxy_authorization =
    b'p' ∷ b'r' ∷ b'o' ∷ b'x' ∷ b'y' ∷ b'-' ∷ b'a' ∷ b'u' ∷ b't' ∷ b'h' ∷ b'o' ∷ b'r' ∷ b'i' ∷ b'z'
    ∷ b'a' ∷ b't' ∷ b'i' ∷ b'o' ∷ b'n' ∷ []

abbrev pub te : Text
te = b't' ∷ b'e' ∷ []

abbrev pub trailer : Text
trailer = b't' ∷ b'r' ∷ b'a' ∷ b'i' ∷ b'l' ∷ b'e' ∷ b'r' ∷ []

abbrev pub transfer_encoding : Text
transfer_encoding =
    b't' ∷ b'r' ∷ b'a' ∷ b'n' ∷ b's' ∷ b'f' ∷ b'e' ∷ b'r' ∷ b'-' ∷ b'e' ∷ b'n' ∷ b'c' ∷ b'o' ∷ b'd'
    ∷ b'i' ∷ b'n' ∷ b'g' ∷ []

abbrev pub upgrade : Text
upgrade = b'u' ∷ b'p' ∷ b'g' ∷ b'r' ∷ b'a' ∷ b'd' ∷ b'e' ∷ []

-- `HOP_BY_HOP`
abbrev pub hop_by_hop : List Text
hop_by_hop =
    connection ∷ keep_alive ∷ proxy_connection ∷ proxy_authenticate ∷ proxy_authorization ∷ te
    ∷ trailer ∷ transfer_encoding ∷ upgrade ∷ []

-- `text.to_ascii_lowercase()`
unfoldable pub lower : ℕ → ℕ
lower c = if leb b'A' c && leb c b'Z' then c + 32 else c

abbrev pub to_ascii_lowercase : Text → Text
to_ascii_lowercase text = map lower text

abbrev pub first {ℓ} : {A : Type ℓ} → List A → Option A
first [] = none
first (x ∷ xs) = some x

module _ {H V : Type 0} (map_of : HeaderMap H V) where
  -- `filter_map(|v| v.to_str().ok())` and `flat_map(|v| v.split(','))`
  unfoldable pub pieces : List V → List Text
  unfolding split_on
  pieces [] = []
  pieces (v ∷ vs) = elim (map_of.to_str v) [
    | none ↦ pieces vs
    | some text ↦ split_on b',' text ++ pieces vs
  ]

  unfoldable pub connection_tokens : H → List Text
  unfolding pieces trim lower
  connection_tokens h =
      filter (λ t. not (is_empty t))
        (map (λ t. to_ascii_lowercase (trim t)) (pieces (map_of.get_all h connection)))

  unfoldable pub is_upgrade : H → Bool
  unfolding connection_tokens
  is_upgrade h = not (is_empty (map_of.get_all h upgrade)) && contains upgrade (connection_tokens h)

  unfoldable pub remove_all : List Text → H → H
  remove_all [] h = h
  remove_all (n ∷ ns) h = remove_all ns (map_of.remove h n)

  -- The upgrade that is put back.
  unfoldable pub restore : Option V → Option V → H → Option H
  restore none value h = some h
  restore (some v) none h = none
  restore (some v) (some value) h =
      some (map_of.insert (map_of.insert h upgrade v) connection value)

  -- `strip_hop_by_hop`; `none` is a value that `from_static` refuses.
  unfoldable pub strip_hop_by_hop : H → Bool → Option H
  unfolding connection_tokens remove_all restore
  strip_hop_by_hop h keep_upgrade =
      let named = connection_tokens h in
      let kept = first (map_of.get_all h upgrade) in
      let bare = remove_all (hop_by_hop ++ named) h in
      if keep_upgrade then restore kept (map_of.from_str upgrade) bare else some bare
