-- ===== src/Builder/Editor/Validity/Changes.antt =====
-- web/src/app/builder/page.tsx: adding, deleting and changing nodes of a valid diagram.
use meergate.Base.{
  ℕ, ◌≤◌, ◌<◌, ◌≡◌, refl, ◌∙◌, String, true, false, not, ◌&&◌, Option, none, some, List, [], ◌∷◌,
  ◌++◌, ◌==◌, filter, map, All, IfKnown, if◌then◌else◌, Bool-cases, inl, inr, arith, All-append,
  All-weaken,
}
use meergate.Builder.{StepData, Node, Edge}
use meergate.Builder.Editor.{
  Editor, remove_node, add_step, delete_node, update_node, update_node_data, unselect,
}
use meergate.Builder.Editor.Validity.{has_node, IsDistinct, IsAttached, IsValid}

-- The edges that do not touch the node `id`.
kept_edges : ℕ → List Edge → List Edge
kept_edges id es = filter (λ e. not (e.source == id) && not (e.target == id)) es

unselect-kept :
    (id c : ℕ) (o : Option ℕ) → IfKnown (λ k. k ≤ c) o → IfKnown (λ k. k ≤ c) (unselect id o)
unselect-kept id c none h = tt
unselect-kept id c (some k) h = elim (Bool-cases (k == id)) [ inl e ↦ rw e tt | inr e ↦ rw e h ]

module _ {V : Type 0} where
  has_node-append :
      (k : ℕ) (ns : List (Node V)) (n : Node V)
      → has_node k (ns ++ n ∷ []) ≡ (if has_node k ns then true else n.id == k)
  has_node-append k [] n = ground arith
  has_node-append k (m ∷ ms) n = ground (arith, has_node-append k ms n)

  -- A number above all ids is none of them.
  has_node-above :
      (k c : ℕ) (ns : List (Node V)) → All (λ n. n.id ≤ c) ns → c < k → has_node k ns ≡ false
  has_node-above k c [] h lt = refl
  has_node-above k c (n ∷ ns) h lt =
      let out : (n.id == k) ≡ false = ground (arith, h.0) in rw out (has_node-above k c ns h.1 lt)

  IsDistinct-append :
      (c : ℕ) (ns : List (Node V)) (n : Node V)
      → All (λ m. m.id ≤ c) ns
      → c < n.id
      → IsDistinct ns
      → IsDistinct (ns ++ n ∷ [])
  IsDistinct-append c [] n h lt d = (refl, tt)
  IsDistinct-append c (m ∷ ms) n h lt d =
      (ground (arith, has_node-append m.id ms n, d.0, h.0), IsDistinct-append c ms n h.1 lt d.1)

  pub add_step-IsValid : (t : String) (b : Editor V) → IsValid b → IsValid (add_step t b)
  unfolding add_step
  add_step-IsValid t b v = record {
    distinct = IsDistinct-append b.node_id_counter b.nodes _ v.counted (omega arith) v.distinct;
    counted =
        All-append _ b.nodes _ (All-weaken _ _ b.nodes (λ n h. omega arith) v.counted)
          (omega arith, tt);
    attached =
        All-weaken _ _ b.edges
          (λ e h. (
            rw (has_node-append e.source b.nodes _, h.0) refl,
            rw (has_node-append e.target b.nodes _, h.1) refl,
          ))
          v.attached;
    selection = omega arith;
  }

  -- Deleting the node `id`.
  module _ (id : ℕ) where
    without : List (Node V) → List (Node V)
    without ns = filter (λ n. not (n.id == id)) ns

    has_node-without :
        (k : ℕ) (ns : List (Node V))
        → has_node k (without ns) ≡ (if k == id then false else has_node k ns)
    unfolding without
    has_node-without k [] = ground arith
    has_node-without k (n ∷ ns) = ground (arith, has_node-without k ns)

    IsDistinct-without : (ns : List (Node V)) → IsDistinct ns → IsDistinct (without ns)
    unfolding without
    IsDistinct-without [] d = tt
    IsDistinct-without (n ∷ ns) d = elim (Bool-cases (n.id == id)) [
      | inl e ↦ rw e (IsDistinct-without ns d.1)
      | inr e ↦ rw e ((has_node-without n.id ns ∙ (rw (e, d.0) refl)), IsDistinct-without ns d.1)
    ]

    All-without : (P : Node V → Type 0) (ns : List (Node V)) → All P ns → All P (without ns)
    unfolding without
    All-without P [] h = tt
    All-without P (n ∷ ns) h = elim (Bool-cases (n.id == id)) [
      | inl e ↦ rw e (All-without P ns h.1)
      | inr e ↦ rw e (h.0, All-without P ns h.1)
    ]

    kept_edges-IsAttached :
        (ns : List (Node V)) (es : List Edge)
        → All (IsAttached ns) es
        → All (IsAttached (without ns)) (kept_edges id es)
    unfolding kept_edges
    kept_edges-IsAttached ns [] h = tt
    kept_edges-IsAttached ns (e ∷ es) h =
        let rest = kept_edges-IsAttached ns es h.1 in
        elim (Bool-cases (e.source == id)) [
          | inl p ↦ rw p rest
          | inr p ↦ elim (Bool-cases (e.target == id)) [
            | inl q ↦ rw (p, q) rest
            | inr q ↦
                rw (p, q)
                  (
                    (
                      has_node-without e.source ns ∙ (rw (p, h.0.0) refl),
                      has_node-without e.target ns ∙ (rw (q, h.0.1) refl),
                    ),
                    rest,
                  )
          ]
        ]

    pub remove_node-IsValid : (b : Editor V) → IsValid b → IsValid (remove_node id b)
    unfolding remove_node without kept_edges
    remove_node-IsValid b v = record {
      distinct = IsDistinct-without b.nodes v.distinct;
      counted = All-without _ b.nodes v.counted;
      attached = kept_edges-IsAttached b.nodes b.edges v.attached;
      selection = v.selection;
    }

    pub delete_node-IsValid : (b : Editor V) → IsValid b → IsValid (delete_node id b)
    unfolding delete_node without kept_edges
    delete_node-IsValid b v = record {
      distinct = IsDistinct-without b.nodes v.distinct;
      counted = All-without _ b.nodes v.counted;
      attached = kept_edges-IsAttached b.nodes b.edges v.attached;
      selection = unselect-kept id b.node_id_counter b.selected v.selection;
    }

  -- Changing the data of a node leaves the ids.
  module _ (id : ℕ) (f : StepData V → StepData V) where
    ids-update : (n : Node V) → (update_node id f n).id ≡ n.id
    ids-update n = ground arith

    has_node-update :
        (k : ℕ) (ns : List (Node V)) → has_node k (map (update_node id f) ns) ≡ has_node k ns
    has_node-update k [] = refl
    has_node-update k (n ∷ ns) = rw (ids-update n, has_node-update k ns) refl

    IsDistinct-update :
        (ns : List (Node V)) → IsDistinct ns → IsDistinct (map (update_node id f) ns)
    IsDistinct-update [] d = tt
    IsDistinct-update (n ∷ ns) d =
        (rw (ids-update n) (has_node-update n.id ns ∙ d.0), IsDistinct-update ns d.1)

    All-update :
        (c : ℕ) (ns : List (Node V))
        → All (λ n. n.id ≤ c) ns
        → All (λ n. n.id ≤ c) (map (update_node id f) ns)
    All-update c [] h = tt
    All-update c (n ∷ ns) h = (omega (arith, ids-update n, h.0), All-update c ns h.1)

    pub update_node_data-IsValid : (b : Editor V) → IsValid b → IsValid (update_node_data id f b)
    unfolding update_node_data
    update_node_data-IsValid b v = record {
      distinct = IsDistinct-update b.nodes v.distinct;
      counted = All-update b.node_id_counter b.nodes v.counted;
      attached =
          All-weaken _ _ b.edges
            (λ e h.
              (has_node-update e.source b.nodes ∙ h.0, has_node-update e.target b.nodes ∙ h.1))
            v.attached;
      selection = v.selection;
    }
