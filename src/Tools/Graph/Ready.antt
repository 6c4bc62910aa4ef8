-- ===== src/Tools/Graph/Ready.antt =====
-- How a checkpoint moves the status of a node.
use rain_engine.Prelude.{
  ◌≡◌, ◌∙◌, ap, eq_refl, arith, inl, inr, refl, String, Bool, true, false, ◌&&◌, not, some, List,
  [], ◌∷◌, ◌++◌, all, Bool-cases, if◌then◌else◌, str_eq,
}
use rain_engine.Prelude.Assoc
use rain_engine.Prelude.Assoc.{Assoc, get-insert}
use rain_engine.Prelude.Sort.{insert_by}
use rain_engine.Host.{Host}
use rain_engine.Types.Tools.{ToolNode, ToolNodeStatus, ToolNodeCheckpointRecord}
use rain_engine.Types.Records.{SessionRecord}
use rain_engine.Ledger.Window.{is_final}
use rain_engine.Tools.Graph.{
  is_ready, latest_tool_statuses, statuses_from, note_status, is_terminal_status,
}

-- A test that holds of `x` and of all of `xs` holds of all of the list with `x` sorted in.
pub all-insert_by {ℓ} :
    {A : Type ℓ} (le : A → A → Bool) (test : A → Bool) (x : A) (xs : List A)
    → test x ≡ true
    → all test xs ≡ true
    → all test (insert_by le x xs) ≡ true
unfolding insert_by
all-insert_by le test x [] a b = ground arith
all-insert_by le test x (y ∷ ys) a b = elim (Bool-cases (le x y)) [
  | inl e ↦ rw (e) (ground arith)
  | inr e ↦ rw (e) (
      let later : all test ys ≡ true → all test (insert_by le x ys) ≡ true =
        all-insert_by le test x ys a in
      ground arith)
]

module _ {h : Host} where
  statuses_from-append :
      (id : String) (statuses : Assoc ToolNodeStatus) (rs later : List (SessionRecord h))
      → statuses_from id statuses (rs ++ later)
        ≡ statuses_from id (statuses_from id statuses rs) later
  unfolding statuses_from
  statuses_from-append id statuses [] later = refl
  statuses_from-append id statuses (x ∷ rs) later =
      statuses_from-append id (note_status id statuses x) rs later

  -- The status of a call after one more checkpoint: its own where the checkpoint is of that call in
  -- that graph, the status from before otherwise.
  pub latest_tool_statuses-append :
      (rs : List (SessionRecord h)) (c : ToolNodeCheckpointRecord) (graph_id call_id : String)
      → Assoc.get call_id
          (latest_tool_statuses (rs ++ SessionRecord.tool_node_checkpoint c ∷ []) graph_id)
        ≡ (if str_eq c.graph_id graph_id && str_eq c.call_id call_id
            then some c.status
            else Assoc.get call_id (latest_tool_statuses rs graph_id))
  unfolding latest_tool_statuses statuses_from note_status
  latest_tool_statuses-append rs c graph_id call_id =
      rw (statuses_from-append graph_id [] rs (SessionRecord.tool_node_checkpoint c ∷ []))
        (elim (Bool-cases (str_eq c.graph_id graph_id)) [
          | inl e ↦ rw (e, get-insert) refl
          | inr e ↦ rw (e) refl
        ])

  final_not_ready :
      (statuses : Assoc ToolNodeStatus) (node : ToolNode h) (s : ToolNodeStatus)
      → Assoc.get node.call_id statuses ≡ some s
      → is_final s ≡ true
      → is_ready statuses node ≡ false
  unfolding is_ready is_terminal_status
  final_not_ready statuses node s g f = rw (g, f) refl

  -- Not a checkpoint of this call in this graph.
  abbrev pub is_other : String → String → SessionRecord h → Bool
  is_other graph_id call_id (SessionRecord.tool_node_checkpoint c) =
      not (str_eq c.graph_id graph_id && str_eq c.call_id call_id)
  is_other graph_id call_id _ = true

  note_status_other :
      (graph_id call_id : String) (statuses : Assoc ToolNodeStatus) (r : SessionRecord h)
      → is_other graph_id call_id r ≡ true
      → Assoc.get call_id (note_status graph_id statuses r) ≡ Assoc.get call_id statuses
  unfolding note_status
  note_status_other graph_id call_id statuses (SessionRecord.tool_node_checkpoint c) o =
      elim (Bool-cases (str_eq c.graph_id graph_id)) [
        | inl e ↦ rw (e, get-insert) (ground arith)
        | inr e ↦ rw (e) refl
      ]
  note_status_other graph_id call_id statuses _ o = refl

  statuses_from_other :
      (graph_id call_id : String) (statuses : Assoc ToolNodeStatus) (rs : List (SessionRecord h))
      → all (is_other graph_id call_id) rs ≡ true
      → Assoc.get call_id (statuses_from graph_id statuses rs) ≡ Assoc.get call_id statuses
  unfolding statuses_from
  statuses_from_other graph_id call_id statuses [] o = refl
  statuses_from_other graph_id call_id statuses (r ∷ rs) o =
      statuses_from_other graph_id call_id (note_status graph_id statuses r) rs (ground arith)
      ∙ note_status_other graph_id call_id statuses r (ground arith)

  -- A node whose checkpoint is final does not become ready again, whatever is recorded after it that
  -- is not a checkpoint of the same node.
  pub finished_not_ready :
      (rs later : List (SessionRecord h)) (c : ToolNodeCheckpointRecord) (node : ToolNode h)
      → c.call_id ≡ node.call_id
      → is_final c.status ≡ true
      → all (is_other c.graph_id node.call_id) later ≡ true
      → is_ready
          (latest_tool_statuses
            ((rs ++ SessionRecord.tool_node_checkpoint c ∷ []) ++ later)
            c.graph_id)
          node
        ≡ false
  unfolding latest_tool_statuses
  finished_not_ready rs later c node e f o =
      final_not_ready _ node c.status
        (ap (Assoc.get node.call_id) (
            statuses_from-append c.graph_id [] (rs ++ SessionRecord.tool_node_checkpoint c ∷ [])
              later)
          ∙ statuses_from_other c.graph_id node.call_id _ later o
          ∙ latest_tool_statuses-append rs c c.graph_id node.call_id
          ∙ rw (e, eq_refl c.graph_id, eq_refl node.call_id) refl)
        f
