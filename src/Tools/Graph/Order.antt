-- ===== src/Tools/Graph/Order.antt =====
-- rain-engine-core/src/engine.rs: which nodes `ready_nodes` takes, and in which order.
use mathlib.Core.List.{Perm, perm_middle}
use mathlib.Core.List.Perm
use rain_engine.Prelude.{
  ◌≡◌, ◌≢◌, refl, ◌≤◌, true, false, not, some, none, Bool, Option, List, [], ◌∷◌, ◌++◌, all, All,
  retain, Bool-cases, arith, inl, inr,
}
use rain_engine.Prelude.Int.{◌≤ℤ◌}
use rain_engine.Prelude.Assoc
use rain_engine.Prelude.Assoc.{Assoc}
use rain_engine.Prelude.Sort.{insert_by, sort_by, sort_by-perm}
use rain_engine.Host.{Host}
use rain_engine.Types.Tools.{ToolDependency, ToolNode, ToolExecutionGraph, ToolNodeStatus}
use rain_engine.Tools.Graph.{ready_nodes, is_ready, is_succeeded, before, is_terminal_status}

module _ {h : Host} where
  -- The first has no lower priority, and with the same priority the model did not list it later.
  abbrev pub InOrder : ToolNode h → ToolNode h → Type 0
  InOrder x y =
      (y.priority ≤ℤ x.priority) × (x.priority ≤ℤ y.priority → x.provider_order ≤ y.provider_order)

  abbrev pub AllInOrder : List (ToolNode h) → Type 0
  AllInOrder [] = Unit
  AllInOrder (x ∷ xs) = All (InOrder x) xs × AllInOrder xs

  before-InOrder : (x y : ToolNode h) → before x y ≡ true → InOrder x y
  unfolding before
  before-InOrder x y e = (grind arith, λ l. grind arith)

  after-InOrder : (x y : ToolNode h) → before x y ≡ false → InOrder y x
  unfolding before
  after-InOrder x y e = (grind arith, λ l. grind arith)

  InOrder-trans : (x y z : ToolNode h) → InOrder x y → InOrder y z → InOrder x z
  InOrder-trans x y z a b = (omega arith, λ l. grind arith)

  All-InOrder :
      (x y : ToolNode h) (zs : List (ToolNode h))
      → InOrder x y
      → All (InOrder y) zs
      → All (InOrder x) zs
  All-InOrder x y [] o a = tt
  All-InOrder x y (z ∷ zs) o a = (InOrder-trans x y z o a.0, All-InOrder x y zs o a.1)

module _ {ℓ κ} {A : Type ℓ} (P : A → Type κ) where
  All-insert_by :
      (le : A → A → Bool) (x : A) (xs : List A) → P x → All P xs → All P (insert_by le x xs)
  unfolding insert_by
  All-insert_by le x [] p a = (p, tt)
  All-insert_by le x (y ∷ ys) p a = elim (Bool-cases (le x y)) [
    | inl e ↦ rw e (p, a)
    | inr e ↦ rw e (a.0, All-insert_by le x ys p a.1)
  ]

  All-sort_by : (le : A → A → Bool) (xs : List A) → All P xs → All P (sort_by le xs)
  unfolding sort_by
  All-sort_by le [] a = tt
  All-sort_by le (x ∷ xs) a = All-insert_by le x (sort_by le xs) a.0 (All-sort_by le xs a.1)

  All-retain :
      (test : A → Bool) → ((x : A) → test x ≡ true → P x) → (xs : List A) → All P (retain test xs)
  All-retain test sound [] = tt
  All-retain test sound (x ∷ xs) = elim (Bool-cases (test x)) [
    | inl e ↦ rw e (sound x e, All-retain test sound xs)
    | inr e ↦ rw e (All-retain test sound xs)
  ]

-- What a test keeps and what it leaves out are the whole list.
retain-perm {ℓ} :
    {A : Type ℓ} (test : A → Bool) (xs : List A)
    → Perm (retain test xs ++ retain (λ x. not (test x)) xs) xs
retain-perm test [] = Perm.refl _
retain-perm test (x ∷ xs) = elim (Bool-cases (test x)) [
  | inl e ↦ rw e (Perm.cons x (retain-perm test xs))
  | inr e ↦ rw e (
      Perm.trans (perm_middle (retain test xs) (retain (λ x. not (test x)) xs))
        (Perm.cons x (retain-perm test xs)))
]

met :
    (statuses : Assoc ToolNodeStatus) (ds : List ToolDependency)
    → all (λ (d : ToolDependency). is_succeeded (Assoc.get d.call_id statuses)) ds ≡ true
    → All (λ (d : ToolDependency). Assoc.get d.call_id statuses ≡ some ToolNodeStatus.succeeded) ds
met statuses [] e = tt
met statuses (d ∷ ds) e =
    (succeeded (Assoc.get d.call_id statuses) (ground arith), met statuses ds (ground arith))
  where
    succeeded :
        (o : Option ToolNodeStatus) → is_succeeded o ≡ true → o ≡ some ToolNodeStatus.succeeded
    succeeded o e = ground arith

unmet :
    (statuses : Assoc ToolNodeStatus) (ds : List ToolDependency)
    → All (λ (d : ToolDependency). Assoc.get d.call_id statuses ≡ some ToolNodeStatus.succeeded) ds
    → all (λ (d : ToolDependency). is_succeeded (Assoc.get d.call_id statuses)) ds ≡ true
unmet statuses [] a = refl
unmet statuses (d ∷ ds) a = rw (a.0) (unmet statuses ds a.1)

not_final :
    (status : Option ToolNodeStatus)
    → status ≢ some ToolNodeStatus.succeeded
    → status ≢ some ToolNodeStatus.failed
    → status ≢ some ToolNodeStatus.skipped
    → status ≢ some ToolNodeStatus.timed_out
    → is_terminal_status status ≡ false
unfolding is_terminal_status
not_final none a b c d = refl
not_final (some ToolNodeStatus.succeeded) a b c d = absurd (a refl)
not_final (some ToolNodeStatus.failed) a b c d = absurd (b refl)
not_final (some ToolNodeStatus.skipped) a b c d = absurd (c refl)
not_final (some ToolNodeStatus.timed_out) a b c d = absurd (d refl)
not_final (some _) a b c d = refl

module _ {h : Host} where
  AllInOrder-insert_by :
      (x : ToolNode h) (xs : List (ToolNode h)) → AllInOrder xs → AllInOrder (insert_by before x xs)
  unfolding insert_by
  AllInOrder-insert_by x [] a = (tt, tt)
  AllInOrder-insert_by x (y ∷ ys) a = elim (Bool-cases (before x y)) [
    | inl e ↦ let o = before-InOrder x y e in rw e ((o, All-InOrder x y ys o a.0), a)
    | inr e ↦ rw e (
      All-insert_by (InOrder y) before x ys (after-InOrder x y e) a.0,
      AllInOrder-insert_by x ys a.1,
    )
  ]

  AllInOrder-sort_by : (xs : List (ToolNode h)) → AllInOrder (sort_by before xs)
  unfolding sort_by
  AllInOrder-sort_by [] = tt
  AllInOrder-sort_by (x ∷ xs) = AllInOrder-insert_by x (sort_by before xs) (AllInOrder-sort_by xs)

  -- The last status of the node, if it has one, is not final, and that of each call that it depends on
  -- is that it succeeded.
  pub record MayRun (statuses : Assoc ToolNodeStatus) (node : ToolNode h) : Type 0 where
    pub not_succeeded : Assoc.get node.call_id statuses ≢ some ToolNodeStatus.succeeded
    pub not_failed : Assoc.get node.call_id statuses ≢ some ToolNodeStatus.failed
    pub not_skipped : Assoc.get node.call_id statuses ≢ some ToolNodeStatus.skipped
    pub not_timed_out : Assoc.get node.call_id statuses ≢ some ToolNodeStatus.timed_out
    pub dependencies_met :
        All
          (λ (d : ToolDependency). Assoc.get d.call_id statuses ≡ some ToolNodeStatus.succeeded)
          node.dependencies

  ready-MayRun :
      (statuses : Assoc ToolNodeStatus) (node : ToolNode h)
      → is_ready statuses node ≡ true
      → MayRun statuses node
  unfolding is_ready is_terminal_status
  ready-MayRun statuses node e = record {
    not_succeeded = λ x. ground arith;
    not_failed = λ x. ground arith;
    not_skipped = λ x. ground arith;
    not_timed_out = λ x. ground arith;
    dependencies_met = met statuses node.dependencies (ground arith);
  }

  MayRun-ready :
      (statuses : Assoc ToolNodeStatus) (node : ToolNode h)
      → MayRun statuses node
      → is_ready statuses node ≡ true
  unfolding is_ready is_terminal_status
  MayRun-ready statuses node m =
      rw
        (
          not_final (Assoc.get node.call_id statuses) m.not_succeeded m.not_failed m.not_skipped
              m.not_timed_out,
          unmet statuses node.dependencies m.dependencies_met,
        )
        refl

  -- The nodes to run are in order: of each two, the first has no lower priority, and with the same
  -- priority no later place among the model's calls. Each of them may run, and the graph has, in any
  -- order, these nodes and others that may not.
  pub ready_nodes-AllInOrder :
      (graph : ToolExecutionGraph h) (statuses : Assoc ToolNodeStatus)
      → AllInOrder (ready_nodes graph statuses)
        × All (MayRun statuses) (ready_nodes graph statuses)
        × ((others : List (ToolNode h)) × Perm (ready_nodes graph statuses ++ others) graph.nodes
            × All (λ node. ¬ MayRun statuses node) others)
  unfolding ready_nodes
  ready_nodes-AllInOrder graph statuses = (
    AllInOrder-sort_by (retain (is_ready statuses) graph.nodes),
    All-sort_by (MayRun statuses) before (retain (is_ready statuses) graph.nodes)
        (All-retain (MayRun statuses) (is_ready statuses) (ready-MayRun statuses) graph.nodes),
    (
      retain (λ node. not (is_ready statuses node)) graph.nodes,
      Perm.trans
          (Perm.append (sort_by-perm before (retain (is_ready statuses) graph.nodes)) (Perm.refl _))
          (retain-perm (is_ready statuses) graph.nodes),
      All-retain (λ node. ¬ MayRun statuses node) (λ node. not (is_ready statuses node))
          (λ node e m. let r = MayRun-ready statuses node m in ground arith) graph.nodes,
    ),
  )
