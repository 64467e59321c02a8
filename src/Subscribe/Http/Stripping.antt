-- ===== src/Subscribe/Http/Stripping.antt =====
-- What `strip_hop_by_hop` of src/subscribe/http.rs leaves of a request's headers.
use stouter.Prelude.{
  Bool, true, false, Option, none, some, List, [], ◌∷◌, ◌++◌, ◌==◌, nat_key, if◌then◌else◌, ◌≡◌,
  ◌≢◌, contains, refl, sym, ◌∙◌, arith,
}
use stouter.Subscribe.Http.Bytes.{Text, text_key, codes_dec}
use stouter.Subscribe.Http.Headers.{
  HeaderMap, upgrade, connection, hop_by_hop, first, connection_tokens, remove_all, restore,
  strip_hop_by_hop,
}

pub test-same : (a b : Text) → a ≡ b → (a == b) ≡ true
test-same a b e = ground arith

pub test-other : (a b : Text) → a ≢ b → (a == b) ≡ false
test-other a b e = ground arith

module _ {H V : Type 0} (headers : HeaderMap H V) where
  -- The values of a name after the removals.
  unfoldable pub bare : List Text → H → Text → List V
  bare names h n = if contains n names then [] else headers.get_all h n

  get_all-remove_all :
      (names : List Text) (h : H) (n : Text)
      → headers.get_all (remove_all headers names h) n ≡ bare names h n
  unfolding remove_all bare
  get_all-remove_all [] h n = refl
  get_all-remove_all (m ∷ names) h n = elim (codes_dec n m) [
    | yes e ↦
        let gone : headers.get_all (headers.remove h m) n ≡ [] = rw e (headers.remove_same h m) in
        let t = test-same n m e in get_all-remove_all names (headers.remove h m) n ∙ ground arith
    | no ne ↦
        let same = headers.remove_other h m n (λ p. ne (sym p)) in
        let t = test-other n m ne in get_all-remove_all names (headers.remove h m) n ∙ ground arith
  ]

  -- The values that an upgrade puts back, and else those that are left.
  unfoldable pub stripped_values : Option (V × V) → List Text → H → Text → List V
  unfolding bare
  stripped_values none names h n = bare names h n
  stripped_values (some (kept, value)) names h n =
      if n == connection then value ∷ [] else if n == upgrade then kept ∷ [] else bare names h n

  get_all-inserted :
      (h : H) (a b : Text) (kept value : V) (n : Text)
      → headers.get_all (headers.insert (headers.insert h a kept) b value) n
        ≡ (if n == b then value ∷ [] else if n == a then kept ∷ [] else headers.get_all h n)
  get_all-inserted h a b kept value n = elim (codes_dec n b) [
    | yes e ↦ rw (test-same n b e, e) (headers.insert_same (headers.insert h a kept) b value)
    | no ne ↦
        rw
          (
            test-other n b ne,
            headers.insert_other (headers.insert h a kept) b n value (λ p. ne (sym p)),
          )
          (elim (codes_dec n a) [
            | yes e ↦ rw (test-same n a e, e) (headers.insert_same h a kept)
            | no nu ↦ rw (test-other n a nu) (headers.insert_other h a n kept (λ p. nu (sym p)))
          ])
  ]

  -- What is put back: the upgrade of a request that keeps it, if it has one.
  unfoldable pub put_back : Bool → Option V → V → Option (V × V)
  put_back false kept value = none
  put_back true none value = none
  put_back true (some kept) value = some (kept, value)

  pub record Stripped (h : H) (keep_upgrade : Bool) : Type 0 where
    pub left : H
    pub value : V
    pub stripped : strip_hop_by_hop headers h keep_upgrade ≡ some left
    pub reads : headers.to_str value ≡ some upgrade
    pub values :
        (n : Text)
        → headers.get_all left n
          ≡ stripped_values
              (put_back keep_upgrade (first (headers.get_all h upgrade)) value)
              (hop_by_hop ++ connection_tokens headers h)
              h
              n

  upgrade-Printable :
      (v : V) × (headers.from_str upgrade ≡ some v) × (headers.to_str v ≡ some upgrade)
  upgrade-Printable =
      headers.printable upgrade (refl, (refl, (refl, (refl, (refl, (refl, (refl, tt)))))))

  restored :
      (h bare_h : H) (names : List Text) (kept : Option V) (keep : Bool) (value : V)
      → ((n : Text) → headers.get_all bare_h n ≡ bare names h n)
      → (left : H) × ((if keep then restore headers kept (some value) bare_h else some bare_h)
          ≡ some left)
        × ((n : Text)
            → headers.get_all left n ≡ stripped_values (put_back keep kept value) names h n)
  unfolding restore stripped_values put_back bare
  restored h bare_h names kept false value f = (bare_h, refl, f)
  restored h bare_h names none true value f = (bare_h, refl, f)
  restored h bare_h names (some u) true value f = (
    headers.insert (headers.insert bare_h upgrade u) connection value,
    refl,
    λ n. get_all-inserted bare_h upgrade connection u value n ∙ rw (f n) refl,
  )

  -- For every name, what stands under it after `strip_hop_by_hop`: nothing for a hop-by-hop name or a
  -- name that `Connection` lists, the values of before for any other; but `Upgrade` with its first
  -- value and `Connection: upgrade` where an upgrade is kept.
  pub strip_hop_by_hop-Stripped : (h : H) (keep_upgrade : Bool) → Stripped h keep_upgrade
  unfolding strip_hop_by_hop
  strip_hop_by_hop-Stripped h keep_upgrade =
      let (value, made, reads) = upgrade-Printable in
      let names = hop_by_hop ++ connection_tokens headers h in
      let (left, e, f) =
        restored h (remove_all headers names h) names (first (headers.get_all h upgrade))
          keep_upgrade value (get_all-remove_all names h) in
      record { left = left; value = value; stripped = rw made e; reads = reads; values = f }
