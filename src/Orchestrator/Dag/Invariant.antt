-- ===== src/Orchestrator/Dag/Invariant.antt =====
-- The invariant of the scheduler of orchestrator/dag.go while steps are marked done.
use mathlib.Core.Option
use native.Mathlib.Decide.{ℕ_discrete}
use agent_orchestrator_go.Base.{
  ℕ, zero, suc, ◌+◌, ◌-◌, ◌≤◌, ◌<◌, ◌≡◌, refl, sym, ◌∙◌, ap, ℤ, pos, negsuc, decrement, Bool, true,
  false, List, [], ◌∷◌, Option, some, none, arith, ◌==◌, if◌then◌else◌, length, get_elem?, All,
  occurrences, is_zero, update_at, get_elem?-update_at, length-update_at, length-map, subst, ==_iff,
  sum_below-occurrences, sum_below-ext, sum_below_one, sum_below_le,
}
use agent_orchestrator_go.Orchestrator.Dag.{
  Children, DagNode, DagScheduler, degrees_of, set_degree, lower_children, mark_done, ready_steps,
  zero_indices, degree_is_zero,
}
use agent_orchestrator_go.Orchestrator.Dag.Degrees.{
  pending, pending-cons, pending-eq-zero, IsBounded,
}
use agent_orchestrator_go.Orchestrator.Dag.Kahn.{IsRanking}

-- The in-degree that a node has: -1 once it is done.
abbrev pub node_degree : ℕ → Children → List ℕ → ℕ → ℤ
node_degree n children closed x =
    if occurrences x closed == 0 then pos (pending n children closed x) else negsuc 0

-- `closed` holds the steps marked done, the latest first.
pub record IsScheduler (d : DagScheduler) (closed : List ℕ) : Type 0 where
  pub bounded : IsBounded (length d.nodes) d.children
  pub degrees :
      (x : ℕ)
      → x < length d.nodes
      → get_elem? (degrees_of d.nodes) x ≡ some (node_degree (length d.nodes) d.children closed x)
  pub closed_free :
      (x : ℕ) → 0 < occurrences x closed → pending (length d.nodes) d.children closed x ≡ 0
  pub closed_once : (x : ℕ) → occurrences x closed ≤ 1
  pub closed_bounded : All (λ x. x < length d.nodes) closed
  pub rank : ℕ → ℕ
  pub ranking : IsRanking (length d.nodes) d.children rank

-- `occurrences x (zero_indices i ds)`: whether the degree of `x` is zero.
zero_indices-below : (i x : ℕ) (ds : List ℤ) → x < i → occurrences x (zero_indices i ds) ≡ 0
zero_indices-below i x [] lt = refl
zero_indices-below i x (d ∷ ds) lt = ground (arith, zero_indices-below (suc i) x ds)

pub occurrences-zero_indices :
    (i j : ℕ) (ds : List ℤ)
    → occurrences (i + j) (zero_indices i ds) ≡ (if degree_is_zero j ds then 1 else 0)
occurrences-zero_indices i j [] = refl
occurrences-zero_indices i zero (d ∷ ds) = ground (arith, zero_indices-below (suc i) (i + 0) ds)
occurrences-zero_indices i (suc j) (d ∷ ds) =
    let next : suc i + j ≡ i + suc j = omega arith in
    ground (
      arith,
      occurrences-zero_indices (suc i) j ds,
      next,
      ap (λ x. occurrences x (zero_indices (suc i) ds)) next,
    )

pub zero_indices_bounded :
    (i n : ℕ) (ds : List ℤ) → i + length ds ≤ n → All (λ x. x < n) (zero_indices i ds)
zero_indices_bounded i n [] le = tt
zero_indices_bounded i n (d ∷ ds) le = ground (arith, zero_indices_bounded (suc i) n ds)

-- `d` decremented `k` times.
abbrev lower_by : ℕ → ℤ → ℤ
lower_by zero d = d
lower_by (suc k) d = lower_by k (decrement d)

lower_by_pos : (k m : ℕ) → k ≤ m → lower_by k (pos m) ≡ pos (m - k)
lower_by_pos zero m le = ground arith
lower_by_pos (suc k) zero le = absurd (omega arith)
lower_by_pos (suc k) (suc m) le = ground (arith, lower_by_pos k m (omega arith))

lower_by_once :
    (b : Bool) (k : ℕ) (o : Option ℤ)
    → Option.map (lower_by k) (if b then Option.map decrement o else o)
      ≡ Option.map (lower_by ((if b then 1 else 0) + k)) o
lower_by_once true k none = refl
lower_by_once true k (some d) =
    let one_more : suc k ≡ 1 + k = omega arith in ap (λ j. some (lower_by j d)) one_more
lower_by_once false k o =
    let same : k ≡ 0 + k = omega arith in ap (λ j. Option.map (lower_by j) o) same

degrees_of-update_at :
    (i : ℕ) (f : ℤ → ℤ) (nodes : List DagNode)
    → degrees_of (update_at i (set_degree f) nodes) ≡ update_at i f (degrees_of nodes)
degrees_of-update_at i f [] = refl
degrees_of-update_at zero f (x ∷ nodes) = refl
degrees_of-update_at (suc i) f (x ∷ nodes) =
    ap (λ ds. x.in_degree ∷ ds) (degrees_of-update_at i f nodes)

length-lower_children :
    (cs : List ℕ) (nodes : List DagNode) → length (lower_children cs nodes) ≡ length nodes
unfolding lower_children
length-lower_children [] nodes = refl
length-lower_children (c ∷ cs) nodes =
    length-lower_children cs (update_at c (set_degree decrement) nodes)
    ∙ length-update_at c (set_degree decrement) nodes

-- Each child is lowered as often as it stands among the children.
get_elem?-lower_children :
    (x : ℕ) (cs : List ℕ) (nodes : List DagNode)
    → get_elem? (degrees_of (lower_children cs nodes)) x
      ≡ Option.map (lower_by (occurrences x cs)) (get_elem? (degrees_of nodes) x)
unfolding lower_children
get_elem?-lower_children x [] nodes = ground arith
get_elem?-lower_children x (c ∷ cs) nodes =
    get_elem?-lower_children x cs (update_at c (set_degree decrement) nodes)
    ∙ ap (λ ds. Option.map (lower_by (occurrences x cs)) (get_elem? ds x))
        (degrees_of-update_at c decrement nodes)
    ∙ ap (Option.map (lower_by (occurrences x cs)))
        (get_elem?-update_at x c decrement (degrees_of nodes))
    ∙ lower_by_once (x == c) (occurrences x cs) (get_elem? (degrees_of nodes) x)

reset_one :
    (b : Bool) (o : Option ℤ) {e : ℤ}
    → o ≡ some e
    → (if b then Option.map (λ _. negsuc 0) o else o) ≡ some (if b then negsuc 0 else e)
reset_one true o h = ground (arith, h)
reset_one false o h = h

degree_step :
    (same : Bool) (o k p p' : ℕ)
    → p ≡ p' + k
    → (0 < o → p ≡ 0)
    → (same ≡ true → p ≡ 0)
    → lower_by k (if same then negsuc 0 else if o == 0 then pos p else negsuc 0)
      ≡ (if ((if same then 1 else 0) + o) == 0 then pos p' else negsuc 0)
degree_step true o zero p p' sum closed marked = ground arith
degree_step true o (suc k) p p' sum closed marked = absurd (omega (arith, marked refl))
degree_step false zero k p p' sum closed marked = ground (arith, lower_by_pos k p (omega arith))
degree_step false (suc o) zero p p' sum closed marked = ground arith
degree_step false (suc o) (suc k) p p' sum closed marked =
    absurd (omega (arith, closed (omega arith)))

pub length-mark_done :
    (idx : ℕ) (d : DagScheduler) → length (mark_done idx d).nodes ≡ length d.nodes
unfolding mark_done
length-mark_done idx d =
    length-lower_children (d.children idx) (update_at idx (set_degree (λ _. negsuc 0)) d.nodes)
    ∙ length-update_at idx (set_degree (λ _. negsuc 0)) d.nodes

pub children-mark_done : (idx : ℕ) (d : DagScheduler) → (mark_done idx d).children ≡ d.children
unfolding mark_done
children-mark_done idx d = refl

module _ (d : DagScheduler) (closed : List ℕ) (s : IsScheduler d closed) where
  -- The ready steps are exactly those not done whose parents are all done.
  pub ready_iff :
      (x : ℕ)
      → x < length d.nodes
      → occurrences x (ready_steps d) ≡ (
          if occurrences x closed == 0
          then is_zero (pending (length d.nodes) d.children closed x)
          else 0)
  unfolding ready_steps
  ready_iff x lt = ground (arith, occurrences-zero_indices 0 x (degrees_of d.nodes), s.degrees x lt)

  pub ready_steps-bounded : All (λ x. x < length d.nodes) (ready_steps d)
  unfolding ready_steps
  ready_steps-bounded =
      zero_indices_bounded 0 (length d.nodes) (degrees_of d.nodes)
        (omega (arith, length-map d.nodes (λ n. n.in_degree)))

  -- Each step is done at most once.
  pub length-closed-le : length closed ≤ length d.nodes
  length-closed-le = omega (
    arith,
    sum_below-occurrences (length d.nodes) closed s.closed_bounded,
    sum_below_le (length d.nodes) (λ x. occurrences x closed) (λ _. 1) (λ x lt. s.closed_once x),
    sum_below_one (length d.nodes),
  )

  closed_below :
      ready_steps d ≡ [] → (k x : ℕ) → x < length d.nodes → s.rank x < k → occurrences x closed ≡ 1
  closed_below idle zero x lt below = elim below [ ]
  closed_below idle (suc k) x lt below =
      let free = pending-eq-zero (length d.nodes) d.children closed x (λ p plt edge.
        omega (arith, closed_below idle k p plt (omega (arith, s.ranking p x plt lt edge)))) in
      ground (arith, ready_iff x lt, free, s.closed_once x, ap (occurrences x) idle)

  -- Where a scheduler keeps its invariant and no step is ready, all steps are done: it never gets
  -- stuck.
  pub all_closed : ready_steps d ≡ [] → length closed ≡ length d.nodes
  all_closed idle =
      sym (sum_below-occurrences (length d.nodes) closed s.closed_bounded)
      ∙ sum_below-ext (length d.nodes) (λ x. occurrences x closed) (λ _. 1)
          (λ x lt. closed_below idle (suc (s.rank x)) x lt (omega arith))
      ∙ sum_below_one (length d.nodes)

  pub ready-free :
      (x : ℕ)
      → x < length d.nodes
      → 0 < occurrences x (ready_steps d)
      → (occurrences x closed ≡ 0) × (pending (length d.nodes) d.children closed x ≡ 0)
  ready-free x lt ready = ground (arith, ready_iff x lt)

  -- Marking a step done that nothing is pending for.
  module _ (idx : ℕ) (lt : idx < length d.nodes) (new : occurrences idx closed ≡ 0)
      (free : pending (length d.nodes) d.children closed idx ≡ 0) where
    degree-mark_done :
        (x : ℕ)
        → x < length d.nodes
        → get_elem? (degrees_of (mark_done idx d).nodes) x
          ≡ some (node_degree (length d.nodes) d.children (idx ∷ closed) x)
    unfolding mark_done
    degree-mark_done x xlt =
        get_elem?-lower_children x (d.children idx)
          (update_at idx (set_degree (λ _. negsuc 0)) d.nodes)
        ∙ ap (λ ds. Option.map (lower_by (occurrences x (d.children idx))) (get_elem? ds x))
            (degrees_of-update_at idx (λ _. negsuc 0) d.nodes)
        ∙ ap (Option.map (lower_by (occurrences x (d.children idx)))) (
            get_elem?-update_at x idx (λ _. negsuc 0) (degrees_of d.nodes)
            ∙ reset_one (x == idx) (get_elem? (degrees_of d.nodes) x) (s.degrees x xlt))
        ∙ ap some (
            degree_step (x == idx) (occurrences x closed) (occurrences x (d.children idx))
              (pending (length d.nodes) d.children closed x)
              (pending (length d.nodes) d.children (idx ∷ closed) x)
              (pending-cons (length d.nodes) d.children closed idx x lt new) (s.closed_free x)
              (λ same.
                ap (pending (length d.nodes) d.children closed) ((==_iff x idx).0 same) ∙ free))

    still_free :
        (x : ℕ)
        → 0 < occurrences x (idx ∷ closed)
        → pending (length d.nodes) d.children (idx ∷ closed) x ≡ 0
    still_free x done = elim (ℕ_discrete x idx) [
      | yes e ↦ omega (
        arith,
        pending-cons (length d.nodes) d.children closed idx x lt new,
        ap (pending (length d.nodes) d.children closed) e ∙ free,
      )
      | no ne ↦ omega (
        arith,
        pending-cons (length d.nodes) d.children closed idx x lt new,
        s.closed_free x (ground arith),
      )
    ]

    pub mark_free-IsScheduler : IsScheduler (mark_done idx d) (idx ∷ closed)
    unfolding mark_done
    mark_free-IsScheduler =
        let same = length-mark_done idx d in
        record {
          bounded = subst (λ n. IsBounded n d.children) (sym same) s.bounded;
          degrees = λ x xlt.
              degree-mark_done x (rw same at xlt)
              ∙ ap (λ n. some (node_degree n d.children (idx ∷ closed) x)) (sym same);
          closed_free =
              λ x done. ap (λ n. pending n d.children (idx ∷ closed) x) same ∙ still_free x done;
          closed_once = λ x. ground (arith, s.closed_once x);
          closed_bounded =
              subst (λ n. All (λ x. x < n) (idx ∷ closed)) (sym same) (lt, s.closed_bounded);
          rank = s.rank;
          ranking = subst (λ n. IsRanking n d.children s.rank) (sym same) s.ranking;
        }
