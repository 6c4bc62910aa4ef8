-- ===== src/Tools/Execute/Spawns.antt =====
-- rain-engine-core/src/engine.rs: what the first of the ready nodes comes to in `execute_planned_calls`.
use rain_engine.Prelude.{
  ℕ, ◌≡◌, refl, arith, String, Bool, true, ◌||◌, List, [], ◌∷◌, ◌++◌, any, str_eq, eq_iff,
}
use rain_engine.Prelude.Assoc.{Assoc}
use rain_engine.Host.{Host}
use rain_engine.Types.Tools.{ToolNode, ToolExecutionGraph, ToolResultRecord}
use rain_engine.Types.Requests.{AgentContext}
use rain_engine.World.{Outside}
use rain_engine.World.Returns.{Returns, Returns-pure, Returns-bind}
use rain_engine.Engine.Context.{AgentEngine}
use rain_engine.Tools.Graph.{final_status_for_result}
use rain_engine.Tools.Attempts.{PreparedCall}
use rain_engine.Tools.Prepare.{PreparedNode, prepared_call}
use rain_engine.Tools.Prepare.Guards.{Returns-prepare_node, IsPrepared}
use rain_engine.Tools.Execute.{Batch, settle, take_prepared, prepare_nodes}
use rain_engine.World.Returns.{Returns-imp}
use rain_engine.Tools.Execute.Settles.{
  is_settled, Advances, Advances-refl, Advances-trans, settle-Advances, settle_settled,
  final_status_terminal,
}

-- The call has a final status, or it is spawned.
abbrev pub has_call : {h : Host} → String → List (PreparedCall h) → Bool
has_call id spawned = any (λ p. str_eq p.call_id id) spawned

module _ {h : Host} where
  abbrev pub has_result : String → List (ToolResultRecord h) → Bool
  has_result id results = any (λ (r : ToolResultRecord h). str_eq r.call_id id) results

  has_call-append :
      (id : String) (xs ys : List (PreparedCall h))
      → has_call id (xs ++ ys) ≡ (has_call id xs || has_call id ys)
  has_call-append id [] ys = refl
  has_call-append id (x ∷ xs) ys = ground (arith, has_call-append id xs ys)

  -- A batch goes on, and what is spawned stays spawned.
  pub record Prepares (b : Batch h) (spawned : List (PreparedCall h))
      (r : Batch h × List (PreparedCall h)) : Type 0 where
    pub advances : Advances b r.0
    pub spawns : (id : String) → has_call id spawned ≡ true → has_call id r.1 ≡ true

  abbrev pub Covers : String → Batch h × List (PreparedCall h) → Type 0
  Covers id r = (is_settled r.0 id || has_call id r.1) ≡ true

  Covers-Prepares :
      (id : String) (r r' : Batch h × List (PreparedCall h))
      → Covers id r
      → Prepares r.0 r.1 r'
      → Covers id r'
  Covers-Prepares id r r' c p = ground (arith, p.advances.kept id, p.spawns id)

  attempts-Advances :
      (b : Batch h) (attempts : Assoc ℕ) → Advances b (record b { attempts = attempts })
  unfolding is_settled
  attempts-Advances b attempts = record { kept = λ id s. s }

  Prepares-refl : (b : Batch h) (spawned : List (PreparedCall h)) → Prepares b spawned (b, spawned)
  Prepares-refl b spawned = record { advances = Advances-refl b; spawns = λ id e. e }

  Prepares-trans :
      (b : Batch h) (spawned : List (PreparedCall h)) (r r' : Batch h × List (PreparedCall h))
      → Prepares b spawned r
      → Prepares r.0 r.1 r'
      → Prepares b spawned r'
  Prepares-trans b spawned r r' p q = record {
    advances = Advances-trans b r.0 r'.0 p.advances q.advances;
    spawns = λ id e. q.spawns id (p.spawns id e);
  }

module _ {h : Host} (outside : Outside h) (engine : AgentEngine h) (context : AgentContext h)
    (graph : ToolExecutionGraph h) (step : ℕ) where
  Prepares-take :
      (node : ToolNode h) (b : Batch h) (spawned : List (PreparedCall h)) (n : PreparedNode h)
      → Prepares b spawned (take_prepared outside engine context graph step node b spawned n)
  Prepares-take node b spawned (PreparedNode.executable p) = record {
    advances = Advances-refl b;
    spawns = λ id e. rw (has_call-append id spawned (p ∷ []), e) refl;
  }
  Prepares-take node b spawned (PreparedNode.immediate r) = record {
    advances = settle-Advances node.call_id _ r b (final_status_terminal r);
    spawns = λ id e. e;
  }

  call_id-prepared :
      (node : ToolNode h) (p : PreparedCall h)
      → IsPrepared outside engine context node step (PreparedNode.executable p)
      → p.call_id ≡ node.call_id
  unfolding prepared_call
  call_id-prepared node p i = rw (i.prepared) refl

  Covers-take :
      (node : ToolNode h) (b : Batch h) (spawned : List (PreparedCall h)) (n : PreparedNode h)
      → IsPrepared outside engine context node step n
      → Covers node.call_id (take_prepared outside engine context graph step node b spawned n)
  Covers-take node b spawned (PreparedNode.executable p) i =
      let named : str_eq p.call_id node.call_id ≡ true =
        (eq_iff p.call_id node.call_id).1 (call_id-prepared node p i) in
      let there : has_call node.call_id (spawned ++ p ∷ []) ≡ true =
        rw (has_call-append node.call_id spawned (p ∷ []), named) (ground arith) in
      ground arith
  Covers-take node b spawned (PreparedNode.immediate r) i =
      let done : is_settled (settle node.call_id (final_status_for_result r) r b) node.call_id
          ≡ true =
        settle_settled node.call_id _ r b (final_status_terminal r) in
      ground arith

  Prepares-attempts :
      (b : Batch h) (attempts : Assoc ℕ) (spawned : List (PreparedCall h))
      (r : Batch h × List (PreparedCall h))
      → Prepares (record b { attempts = attempts }) spawned r
      → Prepares b spawned r
  Prepares-attempts b attempts spawned r p = record {
    advances = Advances-trans b _ r.0 (attempts-Advances b attempts) p.advances;
    spawns = p.spawns;
  }

  -- The first of the nodes is settled or spawned.
  abbrev pub CoversFirst : List (ToolNode h) → Batch h × List (PreparedCall h) → Type 0
  CoversFirst [] r = Unit
  CoversFirst (n ∷ ns) r = Covers n.call_id r

  pub Returns-prepare_nodes :
      (nodes : List (ToolNode h)) (b : Batch h) (spawned : List (PreparedCall h))
      → Returns
          (λ r. Prepares b spawned r × CoversFirst nodes r)
          (prepare_nodes outside engine context graph step nodes b spawned)
  unfolding prepare_nodes
  Returns-prepare_nodes [] b spawned = Returns-pure _ (Prepares-refl b spawned, tt)
  Returns-prepare_nodes (node ∷ nodes) b spawned =
      Returns-bind _ _ (Returns-prepare_node outside engine context graph node step b.attempts)
        λ n i.
          let b' : Batch h = record b { attempts = n.1 } in
          let r : Batch h × List (PreparedCall h) =
            take_prepared outside engine context graph step node b' spawned n.0 in
          let later : Returns (λ r'. Prepares r.0 r.1 r' × CoversFirst nodes r')
              (prepare_nodes outside engine context graph step nodes r.0 r.1) =
            Returns-prepare_nodes nodes r.0 r.1 in
          Returns-imp _ later λ r' q. (
            Prepares-trans b spawned r r'
                (Prepares-attempts b n.1 spawned r (Prepares-take node b' spawned n.0)) q.0,
            Covers-Prepares node.call_id r r' (Covers-take node b' spawned n.0 i) q.0,
          )
