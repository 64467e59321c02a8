-- ===== src/Subscribe/Http/Authority.antt =====
-- The authority that src/subscribe/http.rs makes of a node's id and reads back. What the `http` crate
-- parses around it is left out.
use mathlib.Core.List.{reverse, reverse-reverse, append-nil, append_assoc, reverse-append}
use stouter.Prelude.{
  ℕ, zero, suc, ◌+◌, ◌-◌, ◌*◌, ◌/◌, ◌%◌, ◌<◌, ◌≤◌, Bool, true, false, not, ◌&&◌, Option, none, some,
  List, [], ◌∷◌, ◌++◌, filter, leb, ltb, ◌==◌, nat_key, if◌then◌else◌, ◌≡◌, refl, sym, ap, ◌∙◌,
  arith, All, filter-All, filter-append,
}
use stouter.Subscribe.Http.Bytes.{Text, hex_digit, to_hex, of_hex, split_on, cons_first}
use stouter.Subscribe.Http.Hex.{of_hex-to_hex}

-- "stouter"
abbrev pub node_host_suffix : Text
node_host_suffix = 115 ∷ 116 ∷ 111 ∷ 117 ∷ 116 ∷ 101 ∷ 114 ∷ []

-- The rest of a piece with `room` places left, and the pieces that follow.
unfoldable pub chunks_from : ℕ → ℕ → Text → Text × List Text
chunks_from size room [] = ([], [])
chunks_from size zero (c ∷ cs) =
    let rest = chunks_from size (size - 1) cs in ([], (c ∷ rest.0) ∷ rest.1)
chunks_from size (suc room) (c ∷ cs) = let rest = chunks_from size room cs in (c ∷ rest.0, rest.1)

-- `text.chunks(size)`
unfoldable pub chunks : ℕ → Text → List Text
unfolding chunks_from
chunks size [] = []
chunks size (c ∷ cs) = let rest = chunks_from size (size - 1) cs in (c ∷ rest.0) ∷ rest.1

-- `labels.join(sep)`
unfoldable pub join : ℕ → List Text → Text
join sep [] = []
join sep (x ∷ []) = x
join sep (x ∷ y ∷ rest) = x ++ sep ∷ join sep (y ∷ rest)

abbrev pub concat : List Text → Text
concat [] = []
concat (x ∷ xs) = x ++ concat xs

-- The host of `node_uri`.
unfoldable pub node_host : List ℕ → Text
unfolding chunks join to_hex
node_host node_id = join b'.' (chunks 62 (to_hex node_id)) ++ b'.' ∷ node_host_suffix

unfoldable pub strip_prefix : Text → Text → Option Text
strip_prefix [] text = some text
strip_prefix (p ∷ ps) [] = none
strip_prefix (p ∷ ps) (c ∷ cs) = if p == c then strip_prefix ps cs else none

-- `text.strip_suffix(suffix)`
unfoldable pub strip_suffix : Text → Text → Option Text
unfolding strip_prefix
strip_suffix suffix text = elim (strip_prefix (reverse suffix) (reverse text)) [
  | none ↦ none
  | some rest ↦ some (reverse rest)
]

-- `node_id_from_uri`, of the URI's host.
unfoldable pub node_id_from_host : Text → Option (List ℕ)
unfolding strip_suffix split_on of_hex
node_id_from_host host = elim (strip_suffix node_host_suffix host) [
  | none ↦ none
  | some dotted ↦ elim (strip_suffix (b'.' ∷ []) dotted) [
    | none ↦ none
    | some labels ↦ of_hex (concat (split_on b'.' labels))
  ]
]

strip_prefix-append : (p text : Text) → strip_prefix p (p ++ text) ≡ some text
unfolding strip_prefix
strip_prefix-append [] text = refl
strip_prefix-append (p ∷ ps) text = ground (arith, strip_prefix-append ps text)

strip_suffix-append : (suffix text : Text) → strip_suffix suffix (text ++ suffix) ≡ some text
unfolding strip_suffix
strip_suffix-append suffix text =
    rw
      (
        strip_suffix,
        reverse-append text suffix,
        strip_prefix-append (reverse suffix) (reverse text),
        reverse-reverse text,
      )
      refl

concat-cons_first : (c : ℕ) (pieces : List Text) → concat (cons_first c pieces) ≡ c ∷ concat pieces
concat-cons_first c [] = refl
concat-cons_first c (x ∷ xs) = refl

concat-split_on :
    (sep : ℕ) (text : Text) → concat (split_on sep text) ≡ filter (λ c. not (c == sep)) text
unfolding split_on
concat-split_on sep [] = refl
concat-split_on sep (c ∷ cs) =
    ground (arith, concat-split_on sep cs, concat-cons_first c (split_on sep cs))

-- The pieces make up the text again, but for the separators.
filter-join :
    (keep : ℕ → Bool) (sep : ℕ) (pieces : List Text)
    → keep sep ≡ false
    → filter keep (join sep pieces) ≡ filter keep (concat pieces)
unfolding join
filter-join keep sep [] e = refl
filter-join keep sep (x ∷ []) e = rw (append-nil x) refl
filter-join keep sep (x ∷ y ∷ rest) e =
    rw
      (
        filter-append keep x (sep ∷ join sep (y ∷ rest)),
        e,
        filter-join keep sep (y ∷ rest) e,
        filter-append keep x (concat (y ∷ rest)),
      )
      refl

concat-chunks_from :
    (size room : ℕ) (text : Text)
    → (chunks_from size room text).0 ++ concat (chunks_from size room text).1 ≡ text
unfolding chunks_from
concat-chunks_from size room [] = refl
concat-chunks_from size zero (c ∷ cs) =
    ap (λ (t : Text). c ∷ t) (concat-chunks_from size (size - 1) cs)
concat-chunks_from size (suc room) (c ∷ cs) =
    ap (λ (t : Text). c ∷ t) (concat-chunks_from size room cs)

concat-chunks : (size : ℕ) (text : Text) → concat (chunks size text) ≡ text
unfolding chunks
concat-chunks size [] = refl
concat-chunks size (c ∷ cs) = ap (λ (t : Text). c ∷ t) (concat-chunks_from size (size - 1) cs)

hex_digit-dotless : (n : ℕ) → n < 16 → not (hex_digit n == 46) ≡ true
unfolding hex_digit
hex_digit-dotless n small = ground arith

to_hex-dotless :
    (bytes : List ℕ) → All (λ b. b < 256) bytes → All (λ c. not (c == 46) ≡ true) (to_hex bytes)
unfolding to_hex
to_hex-dotless [] small = tt
to_hex-dotless (b ∷ bs) small = (
  hex_digit-dotless (b / 16) (let s = small.0 in omega arith),
  (hex_digit-dotless (b % 16) (omega arith), to_hex-dotless bs small.1),
)

labels-concat :
    (bytes : List ℕ)
    → All (λ b. b < 256) bytes
    → concat (split_on b'.' (join b'.' (chunks 62 (to_hex bytes)))) ≡ to_hex bytes
unfolding stouter.Prelude.ℕ_discrete
labels-concat bytes small =
    concat-split_on b'.' (join b'.' (chunks 62 (to_hex bytes)))
    ∙ filter-join (λ c. not (c == b'.')) b'.' (chunks 62 (to_hex bytes)) refl
    ∙ ap (filter (λ c. not (c == b'.'))) (concat-chunks 62 (to_hex bytes))
    ∙ filter-All (λ c. not (c == b'.')) (to_hex bytes) (to_hex-dotless bytes small)

node_id_from_host-labels :
    (labels : Text)
    → node_id_from_host (labels ++ b'.' ∷ node_host_suffix) ≡ of_hex (concat (split_on b'.' labels))
unfolding node_id_from_host
node_id_from_host-labels labels =
    let dotted : strip_suffix node_host_suffix (labels ++ b'.' ∷ node_host_suffix)
        ≡ some (labels ++ b'.' ∷ []) =
      ap (strip_suffix node_host_suffix) (sym (append_assoc labels (b'.' ∷ []) node_host_suffix))
      ∙ strip_suffix-append node_host_suffix (labels ++ b'.' ∷ []) in
    rw (node_id_from_host, dotted, strip_suffix-append (b'.' ∷ []) labels) refl

-- For a node's id of any bytes, the id read from the host of `node_uri` is that id, however many
-- labels the host has.
pub node_id_from_host-node_host :
    (node_id : List ℕ)
    → All (λ b. b < 256) node_id
    → node_id_from_host (node_host node_id) ≡ some node_id
unfolding node_host
node_id_from_host-node_host node_id small =
    node_id_from_host-labels (join b'.' (chunks 62 (to_hex node_id)))
    ∙ ap of_hex (labels-concat node_id small)
    ∙ of_hex-to_hex node_id small
