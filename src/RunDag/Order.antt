-- ===== src/RunDag/Order.antt =====
-- web/src/components/run-dag-viewer.tsx, `topologicalBatches`: the batches of the whole loop.
use mathlib.Core.List.{Perm, append-nil}
use mathlib.Core.List.Perm
use meergate.Base.{
  ℕ, zero, suc, ◌+◌, ◌<◌, ◌≡◌, refl, sym, ◌∙◌, subst, inl, inr, true, false, Option, none, some,
  List, [], ◌∷◌, ◌++◌, filter, length, All, arith, Bool-cases, Dict, fun_ext,
}
use meergate.RunDag.{
  ManifestStep, Graph, is_ready, finish_batch, is_empty, batches_from, build_graph, indices_from,
  topological_batches,
}
use meergate.RunDag.Counting.{
  edges_to, IsDistinct, Has, filter-IsDistinct, indices_from-IsDistinct, length-indices_from,
}
use meergate.RunDag.Edges.{IsBalanced, build_graph-IsBalanced}
use meergate.RunDag.Sources.{dependencies, count-build_graph}
use meergate.RunDag.Rounds.{
  IsRound, finish_batch-IsRound, ready_batch, stuck_batch, flatten, IsOrdered,
}

All-weaken {ℓ} :
    {A : Type ℓ} (P Q : A → Type 0) (xs : List A) → ((x : A) → P x → Q x) → All P xs → All Q xs
All-weaken P Q [] f h = tt
All-weaken P Q (x ∷ xs) f h = (f x h.0, All-weaken P Q xs f h.1)

Has-self : (ns : List ℕ) → All (λ b. Has b ns) ns
Has-self [] = tt
Has-self (n ∷ ns) = (inl refl, All-weaken _ _ ns (λ x h. inr h) (Has-self ns))

empty_batch : (b : List ℕ) → is_empty b ≡ true → b ≡ []
empty_batch [] e = refl
empty_batch (n ∷ b) e = cc

batch_pos : (b : List ℕ) → is_empty b ≡ false → 0 < length b
batch_pos [] e = cc
batch_pos (n ∷ b) e = omega arith

module _ (g : Graph) where
  -- What the loop returns for the steps that remain.
  record IsPlan (ns : List ℕ) (r : Option (List (List ℕ))) : Type 0 where
    pub batches : List (List ℕ)
    pub found : r ≡ some batches
    pub split : Perm ns (flatten batches)
    pub edges : (t : ℕ) → edges_to g t ns ≡ edges_to g t (flatten batches)
    pub ordered : IsOrdered (edges_to g) batches

  edges_to-append :
      (t : ℕ) (xs ys : List ℕ) → edges_to g t (xs ++ ys) ≡ edges_to g t xs + edges_to g t ys
  unfolding edges_to
  edges_to-append t [] ys = omega arith
  edges_to-append t (x ∷ xs) ys = omega (arith, edges_to-append t xs ys)

  stuck-IsPlan : (ns : List ℕ) → All (λ t. 0 < edges_to g t ns) ns → IsPlan ns (some (ns ∷ []))
  stuck-IsPlan ns h = record {
    batches = ns ∷ [];
    found = refl;
    split = rw (append-nil ns) (Perm.refl ns);
    edges = λ t. rw (append-nil ns);
    ordered = inr (refl, h);
  }

  round-IsPlan :
      (ns b : List ℕ) (r : List ℕ × Dict ℕ ℕ) (rest : Option (List (List ℕ)))
      → IsRound g ns b r
      → All (λ t. edges_to g t ns ≡ 0) b
      → IsPlan r.0 rest
      → IsPlan ns (elim rest [ none ↦ none | some bs ↦ some (b ∷ bs) ])
  round-IsPlan ns b r rest round free plan =
      let same = λ (t : ℕ).
        round.edges t ∙ (rw (plan.edges t)) ∙ sym (edges_to-append t b (flatten plan.batches)) in
      record {
        batches = b ∷ plan.batches;
        found = rw plan.found;
        split = Perm.trans round.split (Perm.append (Perm.refl b) plan.split);
        edges = same;
        ordered = inl (All-weaken _ _ b (λ t e. sym (same t) ∙ e) free, plan.ordered);
      }

  -- With more fuel than steps the loop ends.
  batches_from-IsPlan :
      (fuel : ℕ) (ns : List ℕ) (deg : Dict ℕ ℕ)
      → length ns < fuel
      → IsDistinct ns
      → IsBalanced g ns deg
      → IsPlan ns (batches_from fuel g ns deg)
  unfolding batches_from edges_to
  batches_from-IsPlan zero ns deg h d b = absurd (omega arith)
  batches_from-IsPlan (suc fuel) [] deg h d b = record {
    batches = [];
    found = refl;
    split = Perm.refl [];
    edges = λ t. refl;
    ordered = tt;
  }
  batches_from-IsPlan (suc fuel) (n ∷ ns) deg h d b =
      let batch = filter (is_ready deg) (n ∷ ns) in
      elim (Bool-cases (is_empty batch)) [
        | inl e ↦
            rw e
              (stuck-IsPlan (n ∷ ns) (stuck_batch g deg (n ∷ ns) b (n ∷ ns) (empty_batch batch e)))
        | inr e ↦
            let (has, free) = ready_batch g deg (n ∷ ns) b (n ∷ ns) (Has-self (n ∷ ns)) in
            let r = finish_batch g batch (n ∷ ns) deg in
            let round =
              finish_batch-IsRound g batch (n ∷ ns) deg d
                (filter-IsDistinct (is_ready deg) (n ∷ ns) d) has b in
            rw e (
              round-IsPlan (n ∷ ns) batch r (batches_from fuel g r.0 r.1) round free (
                batches_from-IsPlan fuel r.0 r.1 (omega (arith, round.size, batch_pos batch e))
                  round.distinct round.balanced))
      ]

-- The dependencies of step `t` that name a step of a list.
pub dependencies_on : List ManifestStep → ℕ → List ℕ → ℕ
dependencies_on steps t [] = 0
dependencies_on steps t (m ∷ ms) = dependencies steps t m + dependencies_on steps t ms

edges_to-build_graph :
    (steps : List ManifestStep) (t : ℕ) (ms : List ℕ)
    → edges_to (build_graph steps) t ms ≡ dependencies_on steps t ms
unfolding edges_to dependencies_on
edges_to-build_graph steps t [] = refl
edges_to-build_graph steps t (m ∷ ms) =
    omega (arith, count-build_graph steps t m, edges_to-build_graph steps t ms)

-- The loop returns batches in which every step of the run stands exactly once. No step depends on a
-- step of its own or of a later batch, unless its batch is the last, and there every step depends
-- on some step of that batch: the batch of a cycle.
pub topological_batches_lem :
    (steps : List ManifestStep)
    → (batches : List (List ℕ)) × (topological_batches steps ≡ some batches)
      × Perm (indices_from 0 (length steps)) (flatten batches)
      × IsOrdered (dependencies_on steps) batches
unfolding topological_batches
topological_batches_lem steps =
    let n = length steps in
    let g = build_graph steps in
    let plan =
      batches_from-IsPlan g (suc n) (indices_from 0 n) g.in_degree
        (omega (arith, length-indices_from 0 n)) (indices_from-IsDistinct 0 n)
        (build_graph-IsBalanced steps) in
    (
      plan.batches,
      plan.found,
      plan.split,
      subst (λ f. IsOrdered f plan.batches)
          (fun_ext (λ t. fun_ext (λ ms. edges_to-build_graph steps t ms))) plan.ordered,
    )
