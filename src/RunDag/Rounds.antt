-- ===== src/RunDag/Rounds.antt =====
-- web/src/components/run-dag-viewer.tsx: one round of the loop, and the loop. The in-degrees keep
-- counting the edges from the steps that remain, so no subtraction stops at 0.
use mathlib.Core.List.{Perm}
use mathlib.Core.List.Perm
use meergate.Base.{
  ℕ, ◌+◌, ◌-◌, ◌<◌, ◌≡◌, ◌⊎◌, inl, inr, List, [], ◌∷◌, ◌++◌, filter, length, All, arith, Bool-cases,
  or_else, lookup, insert, lookup-insert, Dict, nat_eq,
}
use meergate.RunDag.{Graph, targets, is_ready, delete, lower, finish_batch}
use meergate.RunDag.Counting.{
  count, edges_to, IsDistinct, Misses, Has, delete-IsDistinct, delete-perm, edges_to-delete,
  length-delete, Has-delete,
}
use meergate.RunDag.Edges.{IsBalanced}

lookup-lower :
    (t : ℕ) (ts : List ℕ) (deg : Dict ℕ ℕ)
    → or_else (lookup t (lower ts deg)) 0 ≡ or_else (lookup t deg) 0 - count t ts
unfolding lower count
lookup-lower t [] deg = omega arith
lookup-lower t (x ∷ xs) deg =
    let down = or_else (lookup x deg) 0 - 1 in
    ground (arith, lookup-lower t xs (insert x down deg), lookup-insert x t down deg)

All-Has-delete :
    (n : ℕ) (ns bs : List ℕ)
    → Misses n bs
    → All (λ b. Has b ns) bs
    → All (λ b. Has b (delete n ns)) bs
All-Has-delete n ns [] m h = tt
All-Has-delete n ns (b ∷ bs) m h = (Has-delete n b ns h.0 m.0, All-Has-delete n ns bs m.1 h.1)

module _ (g : Graph) where
  -- What the loop over the batch leaves of the remaining steps.
  pub record IsRound (ns bs : List ℕ) (r : List ℕ × Dict ℕ ℕ) : Type 0 where
    pub distinct : IsDistinct r.0
    pub balanced : IsBalanced g r.0 r.1
    pub split : Perm ns (bs ++ r.0)
    pub size : length ns ≡ length bs + length r.0
    pub edges : (t : ℕ) → edges_to g t ns ≡ edges_to g t bs + edges_to g t r.0

  pub finish_batch-IsRound :
      (bs ns : List ℕ) (deg : Dict ℕ ℕ)
      → IsDistinct ns
      → IsDistinct bs
      → All (λ b. Has b ns) bs
      → IsBalanced g ns deg
      → IsRound ns bs (finish_batch g bs ns deg)
  unfolding finish_batch edges_to
  finish_batch-IsRound [] ns deg d e h b = record {
    distinct = d;
    balanced = b;
    split = Perm.refl ns;
    size = omega arith;
    edges = λ t. omega arith;
  }
  finish_batch-IsRound (n ∷ bs) ns deg d e h b =
      let ns' = delete n ns in
      let deg' = lower (targets g n) deg in
      let less = λ (t : ℕ). edges_to-delete g t n ns d h.0 in
      let r =
        finish_batch-IsRound bs ns' deg' (delete-IsDistinct n ns d) e.1
          (All-Has-delete n ns bs e.0 h.1)
          (λ t. omega (arith, lookup-lower t (targets g n) deg, b t, less t)) in
      record {
        distinct = r.distinct;
        balanced = r.balanced;
        split = Perm.trans (delete-perm n ns d h.0) (Perm.cons n r.split);
        size = omega (arith, length-delete n ns d h.0, r.size);
        edges = λ t. omega (arith, less t, r.edges t);
      }

  -- The members of a batch are ready, and remain.
  pub ready_batch :
      (deg : Dict ℕ ℕ) (ns : List ℕ)
      → IsBalanced g ns deg
      → (ms : List ℕ) → All (λ b. Has b ns) ms
      → All (λ b. Has b ns) (filter (is_ready deg) ms)
        × All (λ t. edges_to g t ns ≡ 0) (filter (is_ready deg) ms)
  ready_batch deg ns b [] h = (tt, tt)
  ready_batch deg ns b (m ∷ ms) h =
      let (has, none_left) = ready_batch deg ns b ms h.1 in
      elim (Bool-cases (is_ready deg m)) [
        | inl e ↦ rw e ((h.0, has), (ground (arith, b m), none_left))
        | inr e ↦ rw e (has, none_left)
      ]

  -- Where nothing is ready, every step that remains has an edge from one that remains.
  pub stuck_batch :
      (deg : Dict ℕ ℕ) (ns : List ℕ)
      → IsBalanced g ns deg
      → (ms : List ℕ) → filter (is_ready deg) ms ≡ []
      → All (λ t. 0 < edges_to g t ns) ms
  stuck_batch deg ns b [] e = tt
  stuck_batch deg ns b (m ∷ ms) e = elim (Bool-cases (is_ready deg m)) [
    | inl r ↦ cc (rw r at e)
    | inr r ↦ (ground (arith, b m), stuck_batch deg ns b ms (rw r at e))
  ]

abbrev pub flatten : List (List ℕ) → List ℕ
flatten [] = []
flatten (b ∷ bs) = b ++ flatten bs

module _ (edges : ℕ → List ℕ → ℕ) where
  -- No step of a batch has an edge from a step of its own or a later batch; but a last batch may
  -- be one in which every step has an edge from a step of that batch.
  abbrev pub IsOrdered : List (List ℕ) → Type 0
  IsOrdered [] = Unit
  IsOrdered (b ∷ bs) =
      (All (λ t. edges t (b ++ flatten bs) ≡ 0) b × IsOrdered bs)
      ⊎ ((bs ≡ []) × All (λ t. 0 < edges t b) b)
