-- ===== src/Builder/Sequence.antt =====
-- web/src/app/builder/page.tsx: what becomes of a node without incoming edges when the diagram is
-- written to a manifest and read again.
use meergate.Base.{
  ℕ, suc, ◌+◌, ◌≡◌, refl, ap, sym, subst, Bool, List, [], ◌∷◌, ◌++◌, map, length, Any,
  Any-append_left, Any-append_right, inl, arith, none,
}
use meergate.Builder.{
  Step, Node, Edge, edges_from, edges_of_step, step_of_node, build_steps, incoming, previous_edge,
  depends_on_of,
}
use meergate.Builder.Editor.{Editor, apply_manifest}

-- The edge that joins the node of the index `i` to the next.
abbrev pub sequence_edge : ℕ → Edge
sequence_edge i = record { source = i + 1; target = i + 1 + 1 }

previous_edge-add : (i : ℕ) → previous_edge (i + 1) ≡ sequence_edge i ∷ []
previous_edge-add i =
    let next : suc i + 1 ≡ i + 1 + 1 = omega arith in
    let same : suc i ≡ i + 1 = omega arith in
    subst (λ k. previous_edge k ≡ sequence_edge i ∷ []) same
      (ap {A = ℕ} (λ k. record { source = i + 1; target = k } ∷ []) next)

module _ {V : Type 0} where
  edges_of_step-previous :
      (all : List (Step V)) (i : ℕ) (s : Step V)
      → s.depends_on ≡ none
      → edges_of_step all (i + 1) s ≡ sequence_edge i ∷ []
  unfolding edges_of_step
  edges_of_step-previous all i s h = rw h (previous_edge-add i)

  edges_from-sequence :
      (all : List (Step V)) (i : ℕ) (pre : List (Step V)) (m n : Step V) (post : List (Step V))
      → n.depends_on ≡ none
      → Any (λ e. e ≡ sequence_edge (i + length pre)) (edges_from all i (pre ++ m ∷ n ∷ post))
  unfolding edges_from
  edges_from-sequence all i [] m n post h = Any-append_right _ (edges_of_step all i m) _ (
      Any-append_left _ (edges_of_step all (i + 1) n) _ (
        subst (Any (λ e. e ≡ sequence_edge (i + 0))) (sym (edges_of_step-previous all i n h))
          (inl (ap sequence_edge (omega arith)))))
  edges_from-sequence all i (s ∷ pre) m n post h = Any-append_right _ (edges_of_step all i s) _ (
      subst (λ k. Any (λ e. e ≡ sequence_edge k) (edges_from all (i + 1) (pre ++ m ∷ n ∷ post)))
        (omega arith) (edges_from-sequence all (i + 1) pre m n post h))

  map-append :
      (f : Node V → Step V) (xs ys : List (Node V)) → map f (xs ++ ys) ≡ map f xs ++ map f ys
  map-append f [] ys = refl
  map-append f (x ∷ xs) ys = ap (λ l. f x ∷ l) (map-append f xs ys)

  length-map : (f : Node V → Step V) (xs : List (Node V)) → length (map f xs) ≡ length xs
  length-map f [] = refl
  length-map f (x ∷ xs) = ap suc (length-map f xs)

  -- A node that is not the first and that no edge leads to has, after the diagram is written to a
  -- manifest and read again, an edge from the node before it: that nothing leads to it is lost.
  pub build_steps-sequence :
      (truthy : V → Bool) (has_keys : V → Bool) (pre : List (Node V)) (m n : Node V)
      (post : List (Node V)) (edges : List Edge) (b : Editor V)
      → incoming n.id edges ≡ []
      → let steps = build_steps truthy has_keys (pre ++ m ∷ n ∷ post) edges in
        Any (λ e. e ≡ sequence_edge (length pre)) (apply_manifest truthy steps b).edges
  unfolding build_steps step_of_node depends_on_of apply_manifest
  build_steps-sequence truthy has_keys pre m n post edges b h =
      let nodes = pre ++ m ∷ n ∷ post in
      let f = step_of_node truthy has_keys nodes edges in
      let free : (f n).depends_on ≡ none = rw h refl in
      let all = map f nodes in
      subst (λ l. Any (λ e. e ≡ sequence_edge (length pre)) (edges_from all 0 l))
        (sym (map-append f pre (m ∷ n ∷ post)))
        (subst
          (λ k.
            Any (λ e. e ≡ sequence_edge k) (edges_from all 0 (map f pre ++ f m ∷ f n ∷ map f post)))
          (omega (arith, length-map f pre))
          (edges_from-sequence all 0 (map f pre) (f m) (f n) (map f post) free))
