-- ===== src/Tools/Execute/Termination.antt =====
-- rain-engine-core/src/engine.rs: the loop of `execute_planned_calls` ends.
use rain_engine.Prelude.{
  ℕ, zero, suc, ◌≤◌, ◌<◌, ◌≡◌, refl, arith, inl, inr, Bool, true, false, not, Option, none, some,
  List, [], ◌∷◌, any, str_eq, eq_refl, Bool-cases, if◌then◌else◌,
}
use rain_engine.Host.{Host}
use rain_engine.Types.Tools.{ToolNode, ToolExecutionGraph, ok}
use rain_engine.Types.Requests.{AgentContext}
use rain_engine.World.{Outside}
use rain_engine.World.Exec.{◌>>=◌}
use rain_engine.World.Returns.{Returns, Returns-pure, Returns-bind}
use rain_engine.Engine.Context.{AgentEngine}
use rain_engine.Tools.Execute.{Batch, run_ready}
use rain_engine.Prelude.{all, retain, take, length}
use rain_engine.Prelude.Sort.{sort_by}
use rain_engine.Tools.Graph.{ready_nodes, is_ready, before}
use rain_engine.Tools.Graph.Ready.{all-insert_by}
use rain_engine.Tools.Prepare.{is_empty}
use rain_engine.World.{World}
use rain_engine.World.Grows.{JoinsAll}
use rain_engine.World.Exec.{pure}
use rain_engine.Tools.Execute.{max_ready, ready_now, execute_rounds, enough_rounds}
use rain_engine.Tools.Execute.Settles.{is_settled, unsettled, unsettled_le, unsettled_lt, newly_of}
use rain_engine.Tools.Execute.Skips.{Returns-skip_blocked_nodes}
use rain_engine.Tools.Execute.Joins.{has_node, Returns-run_ready}

-- A test of all of a list is a test of all that is kept, sorted or taken of it.
module _ {ℓ} {A : Type ℓ} (test : A → Bool) where
  all-retain :
      (keep : A → Bool) (xs : List A) → all test xs ≡ true → all test (retain keep xs) ≡ true
  all-retain keep [] a = refl
  all-retain keep (x ∷ xs) a = ground (arith, all-retain keep xs)

  all-sorted :
      (le : A → A → Bool) (xs : List A) → all test xs ≡ true → all test (sort_by le xs) ≡ true
  unfolding sort_by
  all-sorted le [] a = refl
  all-sorted le (x ∷ xs) a =
      all-insert_by le test x _ (ground arith) (all-sorted le xs (ground arith))

  all-take : (n : ℕ) (xs : List A) → all test xs ≡ true → all test (take n xs) ≡ true
  all-take zero xs a = refl
  all-take (suc n) [] a = refl
  all-take (suc n) (x ∷ xs) a =
      let later : all test (take n xs) ≡ true = all-take n xs (ground arith) in ground arith

  all-kept : (xs : List A) → all test (retain test xs) ≡ true
  all-kept [] = refl
  all-kept (x ∷ xs) = ground (arith, all-kept xs)

  all-not : (xs : List A) → any test xs ≡ false → all (λ x. not (test x)) xs ≡ true
  all-not [] e = refl
  all-not (x ∷ xs) e = ground (arith, all-not xs)

  all-picked :
      (keep : A → Bool) (le : A → A → Bool) (n : ℕ) (xs : List A)
      → all test xs ≡ true
      → all test (take n (sort_by le (retain keep xs))) ≡ true
  all-picked keep le n xs a = all-take n _ (all-sorted le _ (all-retain keep xs a))

  all-picked_kept :
      (le : A → A → Bool) (n : ℕ) (xs : List A)
      → all test (take n (sort_by le (retain test xs))) ≡ true
  all-picked_kept le n xs = all-take n _ (all-sorted le _ (all-kept xs))

module _ {h : Host} (outside : Outside h) (engine : AgentEngine h) (context : AgentContext h)
    (graph : ToolExecutionGraph h) (step : ℕ) where
  -- A node that is ready is a node of the graph and is not settled.
  first_ready :
      (b : Batch h) (node : ToolNode h) (ready : List (ToolNode h))
      → ready_now outside engine context graph step b ≡ node ∷ ready
      → (has_node outside engine context graph step node.call_id ≡ true)
        × (is_settled b node.call_id ≡ false)
  unfolding ready_nodes is_ready is_settled
  first_ready b node ready e = (
    elim (Bool-cases (has_node outside engine context graph step node.call_id)) [
      | inl t ↦ t
      | inr f ↦
          let others : all (λ (n : ToolNode h). not (str_eq n.call_id node.call_id))
                (ready_now outside engine context graph step b)
              ≡ true =
            all-picked (λ (n : ToolNode h). not (str_eq n.call_id node.call_id))
              (is_ready b.statuses) before (max_ready context.metadata.policy) graph.nodes
              (all-not (λ (n : ToolNode h). str_eq n.call_id node.call_id) graph.nodes f) in
          let first : all (λ (n : ToolNode h). not (str_eq n.call_id node.call_id)) (node ∷ ready)
              ≡ true =
            rw e at others in
          ground (arith, eq_refl node.call_id)
    ],
    (let all_ready : all (is_ready b.statuses) (ready_now outside engine context graph step b)
            ≡ true =
          all-picked_kept (is_ready b.statuses) before (max_ready context.metadata.policy)
            graph.nodes in
        let first : all (is_ready b.statuses) (node ∷ ready) ≡ true = rw e at all_ready in
        ground arith),
  )

  -- The loop has a result, not `none`.
  abbrev pub Ends : Option (Batch h) → Type 0
  Ends r = ¬ (r ≡ none)

  Returns-round :
      (fuel : ℕ) (b : Batch h) (skipped : Bool) (ready : List (ToolNode h))
      → JoinsAll outside
      → unsettled b graph.nodes ≤ fuel
      → (skipped ≡ true → unsettled b graph.nodes < fuel)
      → ready_now outside engine context graph step b ≡ ready
      → ((b' : Batch h)
          → unsettled b' graph.nodes < fuel
          → Returns Ends (execute_rounds outside engine context graph step fuel b'))
      → Returns Ends (
          if is_empty ready
          then if skipped
            then execute_rounds outside engine context graph step fuel b
            else pure (some b)
          else run_ready outside engine context graph step ready b
            >>= execute_rounds outside engine context graph step fuel)
  Returns-round fuel b true [] all l s e again = again b (s refl)
  Returns-round fuel b false [] all l s e again = Returns-pure _ (λ none_left. cc)
  Returns-round fuel b skipped (node ∷ ready) all l s e again =
      let first = first_ready b node ready e in
      Returns-bind _ _
        (Returns-run_ready outside engine context graph step node ready b all first.0)
        λ b' p. again b' (
          let fewer : unsettled b' graph.nodes < unsettled b graph.nodes =
            unsettled_lt b b' graph.nodes p.0
              (newly_of b b' graph.nodes node.call_id first.0 first.1 p.1) in
          omega arith)

  pub Returns-execute_rounds :
      (fuel : ℕ) (b : Batch h)
      → JoinsAll outside
      → unsettled b graph.nodes < fuel
      → Returns Ends (execute_rounds outside engine context graph step fuel b)
  unfolding execute_rounds
  Returns-execute_rounds zero b all l = absurd (omega arith)
  Returns-execute_rounds (suc fuel) b all l =
      Returns-bind _ _ (Returns-skip_blocked_nodes outside engine context graph step graph.nodes b)
        λ r skips.
          let fewer : unsettled r.0 graph.nodes ≤ unsettled b graph.nodes =
            unsettled_le b r.0 graph.nodes skips.0 in
          Returns-round fuel r.0 r.1 _ all (omega arith)
            (λ t.
              let less : unsettled r.0 graph.nodes < unsettled b graph.nodes =
                unsettled_lt b r.0 graph.nodes skips.0 (skips.1 t) in
              omega arith)
            refl (λ b' l'. Returns-execute_rounds fuel b' all l')

  unsettled-length : (b : Batch h) (ns : List (ToolNode h)) → unsettled b ns ≤ length ns
  unsettled-length b [] = omega arith
  unsettled-length b (n ∷ ns) = ground (arith, unsettled-length b ns)

module _ {h : Host} where
  -- Where every spawned task is joined, the loop over a graph ends: one round for each node and one
  -- more are enough, whatever the batch starts from, the skills answer and the order of the tasks is.
  pub execute_rounds_end :
      (outside : Outside h) (engine : AgentEngine h) (context : AgentContext h)
      (graph : ToolExecutionGraph h) (step : ℕ) (b : Batch h) (w : World h)
      → JoinsAll outside
      → ¬ ((execute_rounds outside engine context graph step (enough_rounds graph) b w).0 ≡ ok none)
  execute_rounds_end outside engine context graph step b w all e =
      (Returns-execute_rounds outside engine context graph step (enough_rounds graph) b all (
          let few : unsettled b graph.nodes ≤ length graph.nodes =
            unsettled-length outside engine context graph step b graph.nodes in
          omega arith)).at
        w none e refl
