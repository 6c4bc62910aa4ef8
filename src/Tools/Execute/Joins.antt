-- ===== src/Tools/Execute/Joins.antt =====
-- rain-engine-core/src/engine.rs: what `execute_planned_calls` comes to when the spawned calls are joined.
use rain_engine.Prelude.{
  ℕ, zero, suc, ◌<◌, ◌≡◌, ◌∙◌, refl, sym, arith, inl, inr, String, Bool, true, false, Option, none,
  some, List, [], ◌∷◌, any, find, str_eq, eq_iff, Bool-cases,
}
use rain_engine.Host.{Host}
use rain_engine.Types.Tools.{ToolNode, ToolExecutionGraph, ToolResultRecord}
use rain_engine.Types.Requests.{AgentContext}
use rain_engine.World.{Outside}
use rain_engine.World.Returns.{Returns, Returns-pure, Returns-after, Returns-bind}
use rain_engine.Engine.Context.{AgentEngine}
use rain_engine.Tools.Graph.{final_status_for_result}
use rain_engine.Tools.Attempts.{PreparedCall, run_prepared_call}
use rain_engine.Tools.Execute.{Batch, settle, run_spawned, join_at, join_results, run_ready}
use rain_engine.Prelude.{all, take}
use rain_engine.World.Grows.{JoinsAll}
use rain_engine.World.Returns.{Returns-ask, Returns-imp}
use rain_engine.Types.Policy.{EnginePolicy}
use rain_engine.Tools.Execute.{max_parallel}
use rain_engine.Tools.Execute.Settles.{
  is_settled, Advances, Advances-refl, Advances-trans, settle-Advances, settle_settled,
  final_status_terminal,
}
use rain_engine.Tools.Execute.Spawns.{
  has_call, has_result, Covers, CoversFirst, Returns-prepare_nodes,
}

-- A test of all of a list is a test of all that is kept, sorted or taken of it.
module _ {ℓ} {A : Type ℓ} (test : A → Bool) where
  found : (xs : List A) (x : A) → find test xs ≡ some x → test x ≡ true
  found [] x e = cc
  found (y ∷ xs) x e = elim (Bool-cases (test y)) [
    | inl t ↦ let same : y ≡ x = ground arith in rw same at t
    | inr f ↦ found xs x (ground arith)
  ]

  not_found : (xs : List A) → find test xs ≡ none → any test xs ≡ false
  not_found [] e = refl
  not_found (x ∷ xs) e = ground (arith, not_found xs)

module _ {h : Host} where
  call_id-run_prepared_call :
      (at : ℕ) (p : PreparedCall h) → (run_prepared_call at p).call_id ≡ p.call_id
  unfolding run_prepared_call
  call_id-run_prepared_call at p = refl

module _ {h : Host} (outside : Outside h) (engine : AgentEngine h) (context : AgentContext h)
    (graph : ToolExecutionGraph h) (step : ℕ) where
  Returns-run_spawned :
      (calls : List (PreparedCall h))
      → Returns
          (λ rs. (id : String) → has_result id rs ≡ has_call id calls)
          (run_spawned outside engine context graph step calls)
  unfolding run_spawned
  Returns-run_spawned [] = Returns-pure _ (λ id. refl)
  Returns-run_spawned (p ∷ ps) = Returns-after _ _ λ at.
      Returns-bind _ _ (Returns-run_spawned ps)
        λ rs same. Returns-pure _ (λ id. rw (call_id-run_prepared_call at p, same id) refl)

  abbrev pub has_node : String → Bool
  has_node id = any (λ (n : ToolNode h). str_eq n.call_id id) graph.nodes

  -- A batch goes on, and the calls of the graph that have a result are settled.
  abbrev Joins : List (ToolResultRecord h) → Batch h → Batch h → Type 0
  Joins results b b' =
      Advances b b'
      × ((id : String)
          → has_result id results ≡ true
          → has_node id ≡ true
          → is_settled b' id ≡ true)

  Joins-none :
      (r : ToolResultRecord h) (b : Batch h)
      → find (λ (n : ToolNode h). str_eq n.call_id r.call_id) graph.nodes ≡ none
      → Joins (r ∷ []) b b
  Joins-none r b e = (
    Advances-refl b,
    λ id q n.
        let named : r.call_id ≡ id = (eq_iff r.call_id id).0 (ground arith) in
        let gone : has_node r.call_id ≡ false = not_found _ graph.nodes e in
        let gone' : has_node id ≡ false = rw named at gone in cc,
  )

  Joins-some :
      (r : ToolResultRecord h) (b : Batch h) (node : ToolNode h)
      → find (λ (n : ToolNode h). str_eq n.call_id r.call_id) graph.nodes ≡ some node
      → Joins (r ∷ []) b (settle node.call_id (final_status_for_result r) r b)
  Joins-some r b node e = (
    settle-Advances node.call_id _ r b (final_status_terminal r),
    λ id q n.
        let named : r.call_id ≡ id = (eq_iff r.call_id id).0 (ground arith) in
        let same : node.call_id ≡ r.call_id =
          (eq_iff node.call_id r.call_id).0 (found _ graph.nodes node e) in
        rw (sym (same ∙ named)) (settle_settled node.call_id _ r b (final_status_terminal r)),
  )

  Joins-cons :
      (r : ToolResultRecord h) (rs : List (ToolResultRecord h)) (a b c : Batch h)
      → Joins (r ∷ []) a b
      → Joins rs b c
      → Joins (r ∷ rs) a c
  Joins-cons r rs a b c p q = (
    Advances-trans a b c p.0 q.0,
    λ id e n. elim (Bool-cases (str_eq r.call_id id)) [
      | inl t ↦ q.0.kept id (p.1 id (ground arith) n)
      | inr f ↦ q.1 id (ground arith) n
    ],
  )

  Returns-join_at :
      (r : ToolResultRecord h) (b : Batch h) (node : Option (ToolNode h))
      → find (λ (n : ToolNode h). str_eq n.call_id r.call_id) graph.nodes ≡ node
      → Returns (Joins (r ∷ []) b) (join_at outside engine context graph step r b node)
  Returns-join_at r b none e = Returns-pure _ (Joins-none r b e)
  Returns-join_at r b (some node) e = Returns-after _ _ λ u. Returns-pure _ (Joins-some r b node e)

  Returns-join_results :
      (rs : List (ToolResultRecord h)) (b : Batch h)
      → Returns (Joins rs b) (join_results outside engine context graph step rs b)
  unfolding join_results
  Returns-join_results [] b = Returns-pure _ (Advances-refl b, λ id e n. cc)
  Returns-join_results (r ∷ rs) b =
      Returns-bind _ _ (Returns-join_at r b _ refl)
        λ b' p. Returns-imp _ (Returns-join_results rs b') λ c q. Joins-cons r rs b b' c p q

  first_of_taken :
      (n : ℕ) (node : ToolNode h) (ready : List (ToolNode h)) (r : Batch h × List (PreparedCall h))
      → 0 < n
      → CoversFirst outside engine context graph step (take n (node ∷ ready)) r
      → Covers node.call_id r
  first_of_taken zero node ready r l c = absurd (omega arith)
  first_of_taken (suc n) node ready r l c = c

  max_parallel_positive : (policy : EnginePolicy h) → 0 < max_parallel policy
  unfolding max_parallel
  max_parallel_positive policy = ground arith

  settled_after :
      (id : String) (r : Batch h × List (PreparedCall h))
      (results ordered : List (ToolResultRecord h)) (b : Batch h)
      → Covers id r
      → has_result id results ≡ has_call id r.1
      → (has_result id results ≡ true → has_result id ordered ≡ true)
      → Joins ordered r.0 b
      → has_node id ≡ true
      → is_settled b id ≡ true
  settled_after id r results ordered b c same order j n = elim (Bool-cases (is_settled r.0 id)) [
    | inl s ↦ j.0.kept id s
    | inr u ↦ j.1 id (order (same ∙ ground arith)) n
  ]

  pub Returns-run_ready :
      (node : ToolNode h) (ready : List (ToolNode h)) (b : Batch h)
      → JoinsAll outside
      → has_node node.call_id ≡ true
      → Returns
          (λ b'. Advances b b' × (is_settled b' node.call_id ≡ true))
          (run_ready outside engine context graph step (node ∷ ready) b)
  unfolding run_ready
  Returns-run_ready node ready b all n =
      Returns-bind _ _ (Returns-prepare_nodes outside engine context graph step _ b []) λ r p.
        Returns-bind _ _ (Returns-run_spawned r.1) λ results same.
          Returns-bind _ _
            (Returns-ask
              {P = λ order.
                (id : String) → has_result id results ≡ true → has_result id (order results) ≡ true}
              outside.joined (λ k id. all.joins k results _))
            λ order kept. Returns-imp _ (Returns-join_results (order results) r.0) λ b' j. (
              Advances-trans b r.0 b' p.0.advances j.0,
              settled_after node.call_id r results (order results) b'
                  (first_of_taken (max_parallel context.metadata.policy) node ready r
                    (max_parallel_positive context.metadata.policy) p.1)
                  (same node.call_id) (kept node.call_id) j n,
            )
