-- ===== src/Tools/Execute/Skips.antt =====
-- rain-engine-core/src/engine.rs: what `skip_blocked_nodes` says of the nodes that it skipped.
use rain_engine.Prelude.{
  ℕ, ◌≡◌, refl, arith, inl, inr, Bool, true, false, ◌||◌, Option, none, some, List, [], ◌∷◌,
  eq_refl, Bool-cases,
}
use rain_engine.Host.{Host}
use rain_engine.Types.Tools.{
  ToolNode, ToolExecutionGraph, ToolNodeStatus, ToolDependency, ToolResultRecord,
}
use rain_engine.Types.Requests.{AgentContext}
use rain_engine.World.{Outside}
use rain_engine.World.Returns.{Returns, Returns-pure, Returns-after, Returns-bind, Returns-if}
use rain_engine.Engine.Context.{AgentEngine}
use rain_engine.Tools.Graph.{is_terminal_status}
use rain_engine.Tools.Execute.{Batch, settle, skip_blocked, skip_node, skip_blocked_nodes}
use rain_engine.Tools.Execute.Settles.{
  is_settled, Advances, Advances-refl, Advances-trans, settle-Advances, settle_settled, newly,
  newly-Advances, newly_of,
}

skipped_terminal : is_terminal_status (some ToolNodeStatus.skipped) ≡ true
unfolding is_terminal_status
skipped_terminal = refl

module _ {h : Host} where
  newly_here :
      (b c d : Batch h) (n : ToolNode h) (ns : List (ToolNode h))
      → Advances c d
      → newly b c (n ∷ []) ≡ true
      → newly b d (n ∷ ns) ≡ true
  newly_here b c d n ns q e = ground (arith, q.kept n.call_id)

  newly_later :
      (b d : Batch h) (n : ToolNode h) (ns : List (ToolNode h))
      → newly b d ns ≡ true
      → newly b d (n ∷ ns) ≡ true
  newly_later b d n ns e = ground arith

  -- A batch goes on, and where it says that it skipped a node it did.
  abbrev pub Skips : List (ToolNode h) → Batch h → Batch h × Bool → Type 0
  Skips nodes b r = Advances b r.0 × (r.1 ≡ true → newly b r.0 nodes ≡ true)

  Skips-cons :
      (b : Batch h) (n : ToolNode h) (ns : List (ToolNode h)) (r r' : Batch h × Bool)
      → Skips (n ∷ []) b r
      → Skips ns r.0 r'
      → Skips (n ∷ ns) b (r'.0, r.1 || r'.1)
  Skips-cons b n ns r r' s s' = (
    Advances-trans b r.0 r'.0 s.0 s'.0,
    λ e. elim (Bool-cases r.1) [
      | inl t ↦ newly_here b r.0 r'.0 n ns s'.0 (s.1 t)
      | inr f ↦ newly_later b r'.0 n ns (newly-Advances b r.0 r'.0 ns s.0 (s'.1 (ground arith)))
    ],
  )

  Skips-none : (nodes : List (ToolNode h)) (b : Batch h) → Skips nodes b (b, false)
  Skips-none nodes b = (Advances-refl b, λ e. cc)

  Skips-settle :
      (node : ToolNode h) (b : Batch h) (r : ToolResultRecord h)
      → is_settled b node.call_id ≡ false
      → Skips (node ∷ []) b (settle node.call_id ToolNodeStatus.skipped r b, true)
  Skips-settle node b r s = (
    settle-Advances node.call_id ToolNodeStatus.skipped r b skipped_terminal,
    λ e.
        newly_of b _ (node ∷ []) node.call_id (rw (eq_refl node.call_id) refl) s
          (settle_settled node.call_id ToolNodeStatus.skipped r b skipped_terminal),
  )

module _ {h : Host} (outside : Outside h) (engine : AgentEngine h) (context : AgentContext h)
    (graph : ToolExecutionGraph h) (step : ℕ) where
  Returns-skip_blocked :
      (node : ToolNode h) (b : Batch h) (by : Option ToolDependency)
      → is_settled b node.call_id ≡ false
      → Returns (Skips (node ∷ []) b) (skip_blocked outside engine context graph step node b by)
  Returns-skip_blocked node b none s = Returns-pure _ (Skips-none (node ∷ []) b)
  Returns-skip_blocked node b (some d) s =
      Returns-after _ _ λ at. Returns-after _ _ λ u. Returns-pure _ (Skips-settle node b _ s)

  Returns-skip_node :
      (node : ToolNode h) (b : Batch h)
      → Returns (Skips (node ∷ []) b) (skip_node outside engine context graph step node b)
  unfolding is_settled
  Returns-skip_node node b =
      Returns-if _ _ _ (λ t. Returns-pure _ (Skips-none (node ∷ []) b))
        (λ f. Returns-skip_blocked node b _ f)

  pub Returns-skip_blocked_nodes :
      (nodes : List (ToolNode h)) (b : Batch h)
      → Returns (Skips nodes b) (skip_blocked_nodes outside engine context graph step nodes b)
  unfolding skip_blocked_nodes
  Returns-skip_blocked_nodes [] b = Returns-pure _ (Skips-none [] b)
  Returns-skip_blocked_nodes (node ∷ nodes) b = Returns-bind _ _ (Returns-skip_node node b) λ r s.
      Returns-bind _ _ (Returns-skip_blocked_nodes nodes r.0)
        λ r' s'. Returns-pure _ (Skips-cons b node nodes r r' s s')
