-- ===== src/Builder/Mapping/Paths.antt =====
-- Values set at a path of web/src/app/builder/page.tsx are read back, and those apart from it are
-- kept.
use meergate.Base.{
  String, ◌≡◌, ◌≢◌, refl, sym, ◌⊎◌, inl, inr, some, List, [], ◌∷◌, str_eq, eq_iff, arith,
  if◌then◌else◌,
}
use meergate.Builder.Mapping.{
  Json, Fields, text, tree, end, field, get, set, child, get_parts, set_parts,
}

-- Neither path leads through the other.
unfoldable pub Apart : String → List String → String → List String → Type 0
Apart k [] j js = k ≢ j
Apart k (k' ∷ ks) j [] = k ≢ j
Apart k (k' ∷ ks) j (j' ∷ js) = (k ≢ j) ⊎ ((k ≡ j) × Apart k' ks j' js)

module _ {A : Type 0} where
  pub get-set :
      (k j : String) (v : Json A) (fs : Fields A)
      → get j (set k v fs) ≡ (if str_eq k j then some v else get j fs)
  unfolding get set
  get-set k j v end = refl
  get-set k j v (field i w fs) =
      ground (arith, eq_iff k j, eq_iff i k, eq_iff i j, get-set k j v fs)

  pub get-set_self : (k : String) (v : Json A) (fs : Fields A) → get k (set k v fs) ≡ some v
  get-set_self k v fs = ground (arith, eq_iff k k, get-set k k v fs)

  pub get-set_other :
      (k j : String) (v : Json A) (fs : Fields A) → k ≢ j → get j (set k v fs) ≡ get j fs
  get-set_other k j v fs k≢j = ground (arith, eq_iff k j, get-set k j v fs)

  pub get_parts-set_parts :
      (k : String) (ks : List String) (value : String) (fs : Fields A)
      → get_parts k ks (set_parts k ks value fs) ≡ some (text value)
  unfolding get_parts set_parts
  get_parts-set_parts k [] value fs = get-set_self k (text value) fs
  get_parts-set_parts k (j ∷ js) value fs =
      let c = child (get k fs) in
      rw (
        get-set_self k (tree c.0 (set_parts j js value c.1)) fs,
        get_parts-set_parts j js value c.1,
      )

  -- What stands under another key is the same.
  get_parts-set_other :
      (k j : String) (js : List String) (v : Json A) (fs : Fields A)
      → k ≢ j
      → get_parts j js (set k v fs) ≡ get_parts j js fs
  unfolding get_parts
  get_parts-set_other k j [] v fs k≢j = get-set_other k j v fs k≢j
  get_parts-set_other k j (i ∷ is) v fs k≢j = rw (get-set_other k j v fs k≢j)

  pub get_parts-set-Apart :
      (k : String) (ks : List String) (j : String) (js : List String) (value : String)
      → (fs : Fields A) → Apart k ks j js
      → get_parts j js (set_parts k ks value fs) ≡ get_parts j js fs
  unfolding set_parts Apart get_parts
  get_parts-set-Apart k [] j js value fs k≢j = get_parts-set_other k j js (text value) fs k≢j
  get_parts-set-Apart k (k' ∷ ks) j [] value fs k≢j =
      let c = child (get k fs) in
      get_parts-set_other k j [] (tree c.0 (set_parts k' ks value c.1)) fs k≢j
  get_parts-set-Apart k (k' ∷ ks) j (j' ∷ js) value fs (inl k≢j) =
      let c = child (get k fs) in
      get_parts-set_other k j (j' ∷ js) (tree c.0 (set_parts k' ks value c.1)) fs k≢j
  get_parts-set-Apart k (k' ∷ ks) j (j' ∷ js) value fs (inr (k≡j, apart)) =
      let c = child (get k fs) in
      rw (
        sym k≡j,
        get-set_self k (tree c.0 (set_parts k' ks value c.1)) fs,
        get_parts-set-Apart k' ks j' js value c.1 apart,
      )
