-- ===== src/Orchestrator/Dag/Links.antt =====
-- What the loops of `newDAGScheduler` (orchestrator/dag.go) over the steps build: the in-degrees
-- and the children agree, and every dependency is an edge.
use agent_orchestrator_go.Base.{
  ℕ, zero, suc, ◌+◌, ◌≤◌, ◌<◌, ◌≡◌, ◌≢◌, refl, sym, ◌∙◌, ap, ℤ, pos, Bool, true, false, List, [],
  ◌∷◌, ◌++◌, some, arith, ◌==◌, if◌then◌else◌, length, get_elem?, All, occurrences,
  occurrences-append, sum_below_change, sum_below-ext, sum_below-eq-zero, ok, Text, subst,
  ok-injective, ok_ne_err, Result-cases, All-append, text_eq_iff, Option-cases, inl, inr, ◌⊎◌,
}
use native.Mathlib.Nat.{add-zero}
use native.Mathlib.Decide.{ℕ_discrete}
use agent_orchestrator_go.Planner.Plan.{PlanStep}
use agent_orchestrator_go.Orchestrator.Dag.{
  Children, DagNode, Index, find_id, index_steps, append_child, link_deps, link_steps, degrees_of,
}
use agent_orchestrator_go.Orchestrator.Dag.Degrees.{pending, open_edges, IsBounded}

-- Every index in the map is a node.
abbrev pub IndexBelow : ℕ → Index → Type 0
IndexBelow n ids = (k : Text) (i : ℕ) → find_id k ids ≡ some i → i < n

-- The edges into `i` that its dependencies ask for.
abbrev pub HasEdges : Index → Children → ℕ → List Text → Type 0
HasEdges ids children i deps =
    All (λ dep. (p : ℕ) × (find_id dep ids ≡ some p) × (0 < occurrences i (children p))) deps

pub occurrences-append_child :
    (x p i q : ℕ) (children : Children)
    → occurrences x (append_child p i children q)
      ≡ occurrences x (children q) + (if q == p then (if x == i then 1 else 0) else 0)
occurrences-append_child x p i q children =
    ground (arith, occurrences-append x (children q) (i ∷ []))

module _ (n : ℕ) where
  pub IsBounded-append_child :
      (p i : ℕ) (children : Children)
      → i < n
      → IsBounded n children
      → IsBounded n (append_child p i children)
  IsBounded-append_child p i children lt bounded q = All-append_child q (q == p) (bounded q)
    where
      All-append_child :
          (q : ℕ) (b : Bool)
          → All (λ c. c < n) (children q)
          → All (λ c. c < n) (if b then children q ++ i ∷ [] else children q)
      All-append_child q true h = All-append (λ c. c < n) (children q) (i ∷ []) h (lt, tt)
      All-append_child q false h = h

  pending-append_child :
      (p i : ℕ) (children : Children)
      → p < n
      → pending n (append_child p i children) [] i ≡ suc (pending n children [] i)
  unfolding pending
  pending-append_child p i children lt =
      let change =
        sum_below_change n (open_edges (append_child p i children) [] i) (open_edges children [] i)
          p lt (λ x ne. ground (arith, occurrences-append_child i p i x children)) in
      ground (arith, change, occurrences-append_child i p i p children)

-- `p` is the index of one of the dependencies.
abbrev pub Names : Index → List Text → ℕ → Type 0
Names ids [] p = ⊥
Names ids (dep ∷ deps) p = (find_id dep ids ≡ some p) ⊎ Names ids deps p

-- What the loop over the dependencies of step `i` has done.
pub record Linked (n : ℕ) (ids : Index) (i : ℕ) (deps : List Text) (children : Children) (k : ℕ)
    (after : Children × ℕ) : Type 0 where
  pub bounded : IsBounded n after.0
  pub others : (c p : ℕ) → c ≢ i → occurrences c (after.0 p) ≡ occurrences c (children p)
  pub more : (p : ℕ) → occurrences i (children p) ≤ occurrences i (after.0 p)
  pub count : pending n after.0 [] i + k ≡ pending n children [] i + after.1
  pub edges : HasEdges ids after.0 i deps
  pub sources :
      (p : ℕ) → 0 < occurrences i (after.0 p) → (0 < occurrences i (children p)) ⊎ Names ids deps p

link_deps-Linked :
    (n : ℕ) (ids : Index) (i : ℕ) (id : Text) (deps : List Text) (children : Children) (k : ℕ)
    (after : Children × ℕ)
    → IndexBelow n ids
    → i < n
    → IsBounded n children
    → link_deps ids i id deps children k ≡ ok after
    → Linked n ids i deps children k after
unfolding link_deps
link_deps-Linked n ids i id [] children k after below lt bounded e =
    subst (Linked n ids i [] children k) (ok-injective e) (record {
      bounded = bounded;
      others = λ c p ne. refl;
      more = λ p. omega arith;
      count = refl;
      edges = tt;
      sources = λ p h. inl h;
    })
link_deps-Linked n ids i id (dep ∷ deps) children k after below lt bounded e =
    elim (Option-cases (find_id dep ids)) [
      | inl none_found ↦ ok_ne_err (rw (none_found, link_deps) at e)
      | inr (p, found) ↦
          let rest =
            link_deps-Linked n ids i id deps (append_child p i children) (suc k) after below lt
              (IsBounded-append_child n p i children lt bounded) (rw (found, link_deps) at e) in
          record {
            bounded = rest.bounded;
            others = λ c q ne.
                ground (arith, rest.others c q ne, occurrences-append_child c p i q children);
            more = λ q. ground (arith, rest.more q, occurrences-append_child i p i q children);
            count =
                omega (arith, rest.count, pending-append_child n p i children (below dep p found));
            edges = (
              (p, found, ground (arith, rest.more p, occurrences-append_child i p i p children)),
              rest.edges,
            );
            sources = λ q h. elim (rest.sources q h) [
              | inr later ↦ inr (inr later)
              | inl seen ↦ elim (ℕ_discrete q p) [
                | yes here ↦ inr (inl (found ∙ ap some (sym here)))
                | no other ↦ inl (ground (arith, seen, occurrences-append_child i p i q children))
              ]
            ];
          }
    ]

-- The edges of every step from `i` on.
abbrev pub StepsHaveEdges : Index → Children → ℕ → List PlanStep → Type 0
StepsHaveEdges ids children i [] = Unit
StepsHaveEdges ids children i (s ∷ steps) =
    HasEdges ids children i s.depends_on × StepsHaveEdges ids children (suc i) steps

HasEdges-mono :
    (ids : Index) (before after : Children) (i : ℕ) (deps : List Text)
    → ((p : ℕ) → occurrences i (before p) ≡ occurrences i (after p))
    → HasEdges ids before i deps
    → HasEdges ids after i deps
HasEdges-mono ids before after i [] same h = tt
HasEdges-mono ids before after i (dep ∷ deps) same ((p, found, edge), h) =
    ((p, found, omega (arith, same p)), HasEdges-mono ids before after i deps same h)

-- What the loop over the steps from `i` on has done.
pub record Built (n : ℕ) (ids : Index) (i : ℕ) (steps : List PlanStep) (children : Children)
    (after : List DagNode × Children) : Type 0 where
  pub bounded : IsBounded n after.1
  pub others : (c p : ℕ) → c < i → occurrences c (after.1 p) ≡ occurrences c (children p)
  pub nodes_length : length after.0 ≡ length steps
  pub degrees :
      (j : ℕ)
      → j < length steps
      → get_elem? (degrees_of after.0) j ≡ some (pos (pending n after.1 [] (i + j)))
  pub edges : StepsHaveEdges ids after.1 i steps
  pub sources :
      (j p : ℕ)
      → j < length steps
      → 0 < occurrences (i + j) (after.1 p)
      → (s : PlanStep) × (get_elem? steps j ≡ some s) × Names ids s.depends_on p

pending-congr :
    (n c : ℕ) (before after : Children)
    → ((p : ℕ) → occurrences c (before p) ≡ occurrences c (after p))
    → pending n before [] c ≡ pending n after [] c
unfolding pending
pending-congr n c before after same =
    sum_below-ext n (open_edges before [] c) (open_edges after [] c) (λ p lt. same p)

pending-fresh :
    (n c : ℕ) (children : Children)
    → ((p : ℕ) → occurrences c (children p) ≡ 0)
    → pending n children [] c ≡ 0
unfolding pending
pending-fresh n c children fresh = sum_below-eq-zero n (open_edges children [] c) (λ p lt. fresh p)

-- The first step of the loop, and the rest of it.
link_steps-cons :
    (ids : Index) (i : ℕ) (s : PlanStep) (steps : List PlanStep) (children : Children)
    (after : List DagNode × Children)
    → link_steps ids i (s ∷ steps) children ≡ ok after
    → (linked : Children × ℕ) × (rest : List DagNode × Children) × (link_deps ids i s.step_id
          s.depends_on children 0
        ≡ ok linked)
      × (link_steps ids (suc i) steps linked.0 ≡ ok rest)
      × (after ≡ (record { index = i; step = s; in_degree = pos linked.1 } ∷ rest.0, rest.1))
unfolding link_steps
link_steps-cons ids i s steps children after e =
    elim (Result-cases (link_deps ids i s.step_id s.depends_on children 0)) [
      | inl (linked, e₁) ↦ elim (Result-cases (link_steps ids (suc i) steps linked.0)) [
        | inl (rest, e₂) ↦ (linked, rest, e₁, e₂, ground (arith, e, e₁, e₂))
        | inr (x, e₂) ↦ ok_ne_err {a = after} {e = x} (ground (arith, e, e₁, e₂))
      ]
      | inr (x, e₁) ↦ ok_ne_err {a = after} {e = x} (ground (arith, e, e₁))
    ]

degrees-cons :
    (n i d : ℕ) (children : Children) (ds : List ℤ) (k : ℕ)
    → pending n children [] i ≡ d
    → ((j : ℕ) → j < k → get_elem? ds j ≡ some (pos (pending n children [] (suc i + j))))
    → (j : ℕ) → j < suc k
    → get_elem? (pos d ∷ ds) j ≡ some (pos (pending n children [] (i + j)))
degrees-cons n i d children ds k now later zero lt = ground (arith, add-zero i)
degrees-cons n i d children ds k now later (suc j) lt =
    later j (omega arith) ∙ ap (λ x. some (pos (pending n children [] x))) (omega arith)

sources-cons :
    (ids : Index) (i : ℕ) (s : PlanStep) (steps : List PlanStep) (children : Children)
    → ((p : ℕ) → 0 < occurrences i (children p) → Names ids s.depends_on p)
    → ((j p : ℕ)
        → j < length steps
        → 0 < occurrences (suc i + j) (children p)
        → (t : PlanStep) × (get_elem? steps j ≡ some t) × Names ids t.depends_on p)
    → (j p : ℕ) → j < suc (length steps)
    → 0 < occurrences (i + j) (children p)
    → (t : PlanStep) × (get_elem? (s ∷ steps) j ≡ some t) × Names ids t.depends_on p
sources-cons ids i s steps children now later zero p lt h = (s, refl, now p (rw add-zero at h))
sources-cons ids i s steps children now later (suc j) p lt h =
    later j p (omega arith) (subst (λ x. 0 < occurrences x (children p)) (omega arith) h)

pub link_steps-Built :
    (n : ℕ) (ids : Index) (i : ℕ) (steps : List PlanStep) (children : Children)
    (after : List DagNode × Children)
    → IndexBelow n ids
    → i + length steps ≤ n
    → IsBounded n children
    → ((c p : ℕ) → i ≤ c → occurrences c (children p) ≡ 0)
    → link_steps ids i steps children ≡ ok after
    → Built n ids i steps children after
unfolding link_steps
link_steps-Built n ids i [] children after below le bounded fresh e =
    subst (Built n ids i [] children) (ok-injective e) (record {
      bounded = bounded;
      others = λ c p lt. refl;
      nodes_length = refl;
      degrees = λ j lt. absurd (omega arith);
      edges = tt;
      sources = λ j p lt. absurd (omega arith);
    })
link_steps-Built n ids i (s ∷ steps) children after below le bounded fresh e =
    let (linked, rest, e₁, e₂, same) = link_steps-cons ids i s steps children after e in
    let l =
      link_deps-Linked n ids i s.step_id s.depends_on children 0 linked below (omega arith) bounded
        e₁ in
    let b =
      link_steps-Built n ids (suc i) steps linked.0 rest below (omega arith) l.bounded
        (λ c p lt. omega (arith, l.others c p (omega arith), fresh c p (omega arith))) e₂ in
    rw same (record {
      bounded = b.bounded;
      others = λ c p lt. omega (arith, b.others c p (omega arith), l.others c p (omega arith));
      nodes_length = ap suc b.nodes_length;
      degrees =
          degrees-cons n i linked.1 rest.1 (degrees_of rest.0) (length steps)
            (omega (
              arith,
              l.count,
              pending-fresh n i children (λ p. fresh i p (omega arith)),
              pending-congr n i linked.0 rest.1 (λ p. sym (b.others i p (omega arith))),
            ))
            b.degrees;
      edges = (
        HasEdges-mono ids linked.0 rest.1 i s.depends_on (λ p. sym (b.others i p (omega arith)))
            l.edges,
        b.edges,
      );
      sources =
          sources-cons ids i s steps rest.1
            (λ p h. elim (l.sources p (omega (arith, b.others i p (omega arith)))) [
              | inl old ↦ absurd (omega (arith, fresh i p (omega arith)))
              | inr named ↦ named
            ])
            b.sources;
    })

pub find_id-append :
    (k id : Text) (i j : ℕ) (ids : Index)
    → find_id k (ids ++ (id, i) ∷ []) ≡ some j
    → (find_id k ids ≡ some j) ⊎ (j ≡ i) × (id ≡ k)
unfolding find_id
find_id-append k id i j [] e = ground (arith, text_eq_iff id k)
find_id-append k id i j ((m, v) ∷ ids) e = ground (arith, find_id-append k id i j ids)

-- `idToIndex` maps to the indices seen so far.
pub index_steps-IndexBelow :
    (n i : ℕ) (steps : List PlanStep) (ids after : Index)
    → i + length steps ≤ n
    → IndexBelow n ids
    → index_steps i steps ids ≡ ok after
    → IndexBelow n after
unfolding index_steps
index_steps-IndexBelow n i [] ids after le below e = subst (IndexBelow n) (ok-injective e) below
index_steps-IndexBelow n i (s ∷ steps) ids after le below e =
    index_steps-IndexBelow n (suc i) steps (ids ++ (s.step_id, i) ∷ []) after (omega arith)
      (λ k j found. ground (arith, below k j, find_id-append k s.step_id i j ids found))
      (ground (arith, e))

-- Every text in the map is the id of the step at its index.
abbrev pub IndexNames : List PlanStep → Index → Type 0
IndexNames all ids =
    (k : Text) (j : ℕ)
    → find_id k ids ≡ some j
    → (s : PlanStep) × (get_elem? all j ≡ some s) × (s.step_id ≡ k)

pub index_steps-IndexNames :
    (all : List PlanStep) (i : ℕ) (steps : List PlanStep) (ids after : Index)
    → ((j : ℕ) → get_elem? steps j ≡ get_elem? all (i + j))
    → IndexNames all ids
    → index_steps i steps ids ≡ ok after
    → IndexNames all after
unfolding index_steps
index_steps-IndexNames all i [] ids after suffix names e =
    subst (IndexNames all) (ok-injective e) names
index_steps-IndexNames all i (s ∷ steps) ids after suffix names e =
    index_steps-IndexNames all (suc i) steps (ids ++ (s.step_id, i) ∷ []) after
      (λ j. suffix (suc j) ∙ ap (get_elem? all) (omega arith))
      (λ k j found. elim (find_id-append k s.step_id i j ids found) [
        | inl old ↦ names k j old
        | inr (here, named) ↦
            (s, ap (get_elem? all) (here ∙ sym (add-zero i)) ∙ sym (suffix 0), named)
      ])
      (ground (arith, e))
