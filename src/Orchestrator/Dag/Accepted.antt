-- ===== src/Orchestrator/Dag/Accepted.antt =====
-- Which plans `newDAGScheduler` (orchestrator/dag.go) accepts.
use agent_orchestrator_go.Base.{
  ℕ, suc, ◌≡◌, ◌≢◌, refl, subst, List, [], ◌∷◌, ◌++◌, some, none, Text, text_eq, text_eq_iff, false,
  ok, arith, get_elem?, All, Bool-cases, inl, inr,
}
use agent_orchestrator_go.Planner.Plan.{PlanStep}
use agent_orchestrator_go.Orchestrator.Dag.{
  Children, DagNode, DagScheduler, Index, find_id, index_steps, link_deps, link_steps, no_children,
  build_dag, append_child, pos,
}
use agent_orchestrator_go.Orchestrator.Dag.Correct.{
  RanksDependencies, All-get, build_dag_of_ranking,
}

-- The ids of the steps are present and distinct, and every dependency is one of them.
abbrev pub DistinctIds : List PlanStep → Type 0
DistinctIds [] = Unit
DistinctIds (s ∷ steps) = All (λ (t : PlanStep). s.step_id ≢ t.step_id) steps × DistinctIds steps

abbrev pub IsStepId : List PlanStep → Text → Type 0
IsStepId steps id = (j : ℕ) × (t : PlanStep) × (get_elem? steps j ≡ some t) × (t.step_id ≡ id)

pub record IsWellFormed (steps : List PlanStep) : Type 0 where
  pub present : All (λ (s : PlanStep). s.step_id ≢ []) steps
  pub distinct : DistinctIds steps
  pub known : All (λ (s : PlanStep). All (IsStepId steps) s.depends_on) steps

abbrev Found : Index → Text → Type 0
Found ids k = (p : ℕ) × (find_id k ids ≡ some p)

find_id-append-none :
    (k j : Text) (i : ℕ) (ids : Index)
    → find_id k ids ≡ none
    → j ≢ k
    → find_id k (ids ++ (j, i) ∷ []) ≡ none
unfolding find_id
find_id-append-none k j i [] h ne = ground (arith, text_eq_iff j k, ne)
find_id-append-none k j i ((l, p) ∷ ids) h ne = ground (arith, h, find_id-append-none k j i ids)

Found-append : (k j : Text) (i : ℕ) (ids : Index) → Found ids k → Found (ids ++ (j, i) ∷ []) k
unfolding find_id
Found-append k j i [] (p, h) = cc
Found-append k j i ((l, q) ∷ ids) (p, h) = elim (Bool-cases (text_eq l k)) [
  | inl here ↦ (q, rw (here, find_id) refl)
  | inr later ↦
      let (r, e) = Found-append k j i ids (p, rw (later, find_id) at h) in
      (r, rw (later, find_id) e)
]

Found-last : (k : Text) (i : ℕ) (ids : Index) → Found (ids ++ (k, i) ∷ []) k
unfolding find_id
Found-last k i [] = (i, ground (arith, text_eq_iff k k))
Found-last k i ((l, q) ∷ ids) = elim (Bool-cases (text_eq l k)) [
  | inl here ↦ (q, rw (here, find_id) refl)
  | inr later ↦ let (r, e) = Found-last k i ids in (r, rw (later, find_id) e)
]

still_free :
    (j : Text) (i : ℕ) (ids : Index) (steps : List PlanStep)
    → All (λ (s : PlanStep). find_id s.step_id ids ≡ none) steps
    → All (λ (t : PlanStep). j ≢ t.step_id) steps
    → All (λ (s : PlanStep). find_id s.step_id (ids ++ (j, i) ∷ []) ≡ none) steps
still_free j i ids [] free others = tt
still_free j i ids (s ∷ steps) free others = (
  find_id-append-none s.step_id j i ids free.0 others.0,
  still_free j i ids steps free.1 others.1,
)

index_steps-accepts :
    (i : ℕ) (steps : List PlanStep) (ids : Index)
    → All (λ (s : PlanStep). s.step_id ≢ []) steps
    → DistinctIds steps
    → All (λ (s : PlanStep). find_id s.step_id ids ≡ none) steps
    → (ids' : Index) × (index_steps i steps ids ≡ ok ids')
      × All (λ (s : PlanStep). Found ids' s.step_id) steps
      × ((k : Text) → Found ids k → Found ids' k)
unfolding index_steps
index_steps-accepts i [] ids present distinct free = (ids, refl, tt, λ k h. h)
index_steps-accepts i (s ∷ steps) ids present distinct free =
    let next = ids ++ (s.step_id, i) ∷ [] in
    let (ids', indexed, found, kept) =
      index_steps-accepts (suc i) steps next present.1 distinct.1
        (still_free s.step_id i ids steps free.1 distinct.0) in
    let named : text_eq s.step_id [] ≡ false =
      ground (arith, text_eq_iff s.step_id [], present.0) in
    (
      ids',
      rw (named, index_steps, free.0) indexed,
      (kept s.step_id (Found-last s.step_id i ids), found),
      λ k h. kept k (Found-append k s.step_id i ids h),
    )

link_deps-accepts :
    (ids : Index) (i : ℕ) (id : Text) (deps : List Text) (children : Children) (n : ℕ)
    → All (Found ids) deps
    → (r : Children × ℕ) × (link_deps ids i id deps children n ≡ ok r)
unfolding link_deps
link_deps-accepts ids i id [] children n h = ((children, n), refl)
link_deps-accepts ids i id (dep ∷ deps) children n ((p, found), h) =
    let (r, e) = link_deps-accepts ids i id deps (append_child p i children) (suc n) h in
    (r, rw (found, link_deps) e)

link_steps-accepts :
    (ids : Index) (i : ℕ) (steps : List PlanStep) (children : Children)
    → All (λ (s : PlanStep). All (Found ids) s.depends_on) steps
    → (r : List DagNode × Children) × (link_steps ids i steps children ≡ ok r)
unfolding link_steps
link_steps-accepts ids i [] children h = (([], children), refl)
link_steps-accepts ids i (s ∷ steps) children h =
    let ((linked, n), e) = link_deps-accepts ids i s.step_id s.depends_on children 0 h.0 in
    let (r, e') = link_steps-accepts ids (suc i) steps linked h.1 in
    ((record { index = i; step = s; in_degree = pos n } ∷ r.0, r.1), rw (e, link_steps, e') refl)

deps-Found :
    (steps : List PlanStep) (ids : Index)
    → All (λ (s : PlanStep). Found ids s.step_id) steps
    → (deps : List Text) → All (IsStepId steps) deps
    → All (Found ids) deps
deps-Found steps ids found [] h = tt
deps-Found steps ids found (dep ∷ deps) ((j, t, at, named), h) = (
  subst (Found ids) named (All-get (λ s. Found ids s.step_id) steps j t found at),
  deps-Found steps ids found deps h,
)

steps-Found :
    (steps : List PlanStep) (ids : Index)
    → All (λ (s : PlanStep). Found ids s.step_id) steps
    → (some_steps : List PlanStep)
    → All (λ (s : PlanStep). All (IsStepId steps) s.depends_on) some_steps
    → All (λ (s : PlanStep). All (Found ids) s.depends_on) some_steps
steps-Found steps ids found [] h = tt
steps-Found steps ids found (s ∷ rest) h =
    (deps-Found steps ids found s.depends_on h.0, steps-Found steps ids found rest h.1)

none_indexed : (steps : List PlanStep) → All (λ (s : PlanStep). find_id s.step_id [] ≡ none) steps
unfolding find_id
none_indexed [] = tt
none_indexed (s ∷ steps) = (refl, none_indexed steps)

-- Where the ids of the steps are present and distinct, every dependency is the id of a step, and a rank of
-- the ids grows from each dependency to its step, the plan is accepted: only a missing, doubled or unknown
-- id or a cycle is refused.
pub build_dag-accepts :
    (steps : List PlanStep) (rank : Text → ℕ)
    → IsWellFormed steps
    → RanksDependencies rank steps
    → (d : DagScheduler) × (build_dag steps ≡ ok d)
build_dag-accepts steps rank formed ranks =
    let (ids, indexed, found, kept) =
      index_steps-accepts 0 steps [] formed.present formed.distinct (none_indexed steps) in
    let (after, linked) =
      link_steps-accepts ids 0 steps no_children (steps-Found steps ids found steps formed.known) in
    (
      record { nodes = after.0; children = after.1 },
      build_dag_of_ranking steps ids after rank indexed linked ranks,
    )
