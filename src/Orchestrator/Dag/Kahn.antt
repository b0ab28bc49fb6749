-- ===== src/Orchestrator/Dag/Kahn.antt =====
-- The cycle detection of orchestrator/dag.go: what the `for len(queue) > 0` loop computes.
use agent_orchestrator_go.Base.{
  ℕ, zero, suc, ◌+◌, ◌-◌, ◌≤◌, ◌<◌, ◌≡◌, refl, sym, ◌∙◌, ap, ℤ, pos, decrement, Bool, true, false,
  List, [], ◌∷◌, ◌++◌, some, arith, if◌then◌else◌, length, update_at, All, is_zero, is_zero-le,
  occurrences, sum_below-ext, sum_below-occurrences, sum_below-add, sum_below-le, sum_below_full,
  sum_below_one, All-append,
}
use agent_orchestrator_go.Orchestrator.Dag.{Children, relax, kahn, degree_is_zero}
use agent_orchestrator_go.Orchestrator.Dag.Degrees.{
  pending, pending-cons, parent-closed, pending-eq-zero, IsBounded, Holds, lowered_at,
  Holds-lowered, degree_is_zero_lem, Relaxed, enough-lowered, lowered-sub, positive_at,
  queue-lowered,
}

All-if :
    {A : Type 0} (P : A → Type 0) (b : Bool) (xs : List A) (x : A)
    → P x
    → All P xs
    → All P (if b then xs ++ x ∷ [] else xs)
All-if P true xs x px pxs = All-append P xs (x ∷ []) pxs (px, tt)
All-if P false xs x px pxs = pxs

relax-Relaxed :
    (n : ℕ) (cs queue : List ℕ) (degree : ℕ → ℕ) (degrees : List ℤ)
    → Holds n degree degrees
    → All (λ c. c < n) cs
    → ((x : ℕ) → occurrences x cs ≤ degree x)
    → Relaxed n degree cs queue (relax cs degrees queue)
unfolding relax
relax-Relaxed n [] queue degree degrees holds bounded enough = record {
  degrees_after = λ c lt. ground (arith, holds c lt);
  queue_after = λ x lt. ground arith;
  queue_bounded = λ h. h;
}
relax-Relaxed n (c ∷ cs) queue degree degrees holds bounded enough =
    let low = update_at c decrement degrees in
    let low_holds = Holds-lowered n c degree degrees holds (positive_at n c cs degree enough) in
    let queue' = if degree_is_zero c low then queue ++ c ∷ [] else queue in
    let rest =
      relax-Relaxed n cs queue' (lowered_at c degree) low low_holds bounded.1
        (enough-lowered n c cs degree enough) in
    record {
      degrees_after = λ x lt.
          rest.degrees_after x lt ∙ ap (λ k. some (pos k)) (lowered-sub n c cs degree enough x);
      queue_after = λ x lt. ground (
        arith,
        rest.queue_after x lt,
        lowered-sub n c cs degree enough x,
        queue-lowered n c cs degree enough queue x,
        degree_is_zero_lem n c (lowered_at c degree) low low_holds bounded.0,
      );
      queue_bounded =
          λ h. rest.queue_bounded (All-if (λ x. x < n) (degree_is_zero c low) queue c bounded.0 h);
    }

-- A list of nodes, the latest first, in which every node stands after all of its parents.
abbrev pub IsTopological : ℕ → Children → List ℕ → Type 0
IsTopological n children [] = Unit
IsTopological n children (x ∷ earlier) =
    ((p : ℕ) → p < n → 0 < occurrences x (children p) → 0 < occurrences p earlier)
    × IsTopological n children earlier

-- What holds of the nodes taken from the queue, and of the queue.
pub record Visiting (n : ℕ) (children : Children) (visited queue : List ℕ) : Type 0 where
  pub counted :
      (x : ℕ)
      → x < n
      → occurrences x visited + occurrences x queue ≡ is_zero (pending n children visited x)
  pub visited_bounded : All (λ x. x < n) visited
  pub queue_bounded : All (λ x. x < n) queue
  pub ordered : IsTopological n children visited

module _ (n : ℕ) (children : Children) where
  -- At most one place in the queue for each node.
  visited-le :
      (visited queue : List ℕ)
      → Visiting n children visited queue
      → length visited + length queue ≤ n
  visited-le visited queue v = omega (
    arith,
    sum_below-occurrences n visited v.visited_bounded,
    sum_below-occurrences n queue v.queue_bounded,
    sum_below-add n (λ x. occurrences x visited) (λ x. occurrences x queue),
    sum_below-le n (λ x. occurrences x visited + occurrences x queue)
        (λ x lt. omega (arith, v.counted x lt, is_zero-le (pending n children visited x))),
  )

  module _ (bounded : IsBounded n children) (visited : List ℕ) (cur : ℕ) (queue : List ℕ)
      (v : Visiting n children visited (cur ∷ queue)) where
    cur-new : (occurrences cur visited ≡ 0) × (pending n children visited cur ≡ 0)
    cur-new = ground (arith, v.counted cur v.queue_bounded.0)

    enough-cur : (x : ℕ) → occurrences x (children cur) ≤ pending n children visited x
    enough-cur x = omega (arith, pending-cons n children visited cur x v.queue_bounded.0 cur-new.0)

    pending-cur :
        (x : ℕ)
        → pending n children visited x - occurrences x (children cur)
          ≡ pending n children (cur ∷ visited) x
    pending-cur x = omega (arith, pending-cons n children visited cur x v.queue_bounded.0 cur-new.0)

    Visiting-relax :
        (degrees : List ℤ)
        → Holds n (pending n children visited) degrees
        → Visiting n children (cur ∷ visited) (relax (children cur) degrees queue).1
          × Holds n (pending n children (cur ∷ visited)) (relax (children cur) degrees queue).0
    Visiting-relax degrees holds =
        let r =
          relax-Relaxed n (children cur) queue (pending n children visited) degrees holds
            (bounded cur) enough-cur in
        (
          record {
            counted = λ x lt. ground (arith, r.queue_after x lt, v.counted x lt, pending-cur x);
            visited_bounded = (v.queue_bounded.0, v.visited_bounded);
            queue_bounded = r.queue_bounded v.queue_bounded.1;
            ordered =
                (λ p lt edge. parent-closed n children visited p cur lt cur-new.1 edge, v.ordered);
          },
          λ x lt. r.degrees_after x lt ∙ ap (λ k. some (pos k)) (pending-cur x),
        )

  -- The loop ends by its test, with the number of visited nodes.
  pub kahn_lem :
      (fuel : ℕ) (visited queue : List ℕ) (degrees : List ℤ)
      → IsBounded n children
      → Visiting n children visited queue
      → Holds n (pending n children visited) degrees
      → n ≤ fuel + length visited
      → (final : List ℕ) × (kahn fuel children queue degrees (length visited) ≡ some (length final))
        × Visiting n children final []
  unfolding kahn
  kahn_lem zero visited [] degrees bounded v holds enough = (visited, refl, v)
  kahn_lem zero visited (cur ∷ queue) degrees bounded v holds enough =
      absurd (omega (arith, visited-le visited (cur ∷ queue) v))
  kahn_lem (suc fuel) visited [] degrees bounded v holds enough = (visited, refl, v)
  kahn_lem (suc fuel) visited (cur ∷ queue) degrees bounded v holds enough =
      let (v', holds') = Visiting-relax bounded visited cur queue v degrees holds in
      let next = relax (children cur) degrees queue in
      kahn_lem fuel (cur ∷ visited) next.1 next.0 bounded v' holds' (omega arith)

  -- If every node is visited, each is visited once.
  pub visited_all :
      (visited : List ℕ)
      → Visiting n children visited []
      → length visited ≡ n
      → (x : ℕ) → x < n
      → occurrences x visited ≡ 1
  visited_all visited v full =
      sum_below_full n (λ x. occurrences x visited)
        (λ x lt. omega (arith, v.counted x lt, is_zero-le (pending n children visited x)))
        (omega (arith, sum_below-occurrences n visited v.visited_bounded))

  -- A ranking that grows along every edge rules cycles out.
  abbrev pub IsRanking : (ℕ → ℕ) → Type 0
  IsRanking rank = (p c : ℕ) → p < n → c < n → 0 < occurrences c (children p) → rank p < rank c

  module _ (rank : ℕ → ℕ) (ranking : IsRanking rank) (visited : List ℕ)
      (v : Visiting n children visited []) where
    visits_below : (k x : ℕ) → x < n → rank x < k → occurrences x visited ≡ 1
    visits_below zero x lt below = elim below [ ]
    visits_below (suc k) x lt below =
        let free = pending-eq-zero n children visited x (λ p plt edge.
          omega (arith, visits_below k p plt (omega (arith, ranking p x plt lt edge)))) in
        ground (arith, v.counted x lt, free)

    -- With a ranking every node is visited.
    pub visited_ranked : length visited ≡ n
    visited_ranked =
        let all_one =
          sum_below-ext n (λ x. occurrences x visited) (λ _. 1)
            (λ x lt. visits_below (suc (rank x)) x lt (omega arith)) in
        sym (sum_below-occurrences n visited v.visited_bounded) ∙ all_one ∙ sum_below_one n
