-- ===== src/Tools/Execute/Settles.antt =====
-- rain-engine-core/src/engine.rs: how far a round of `execute_planned_calls` brings a batch.
use rain_engine.Prelude.{
  ℕ, suc, ◌≤◌, ◌<◌, ◌≡◌, refl, arith, inl, inr, String, Bool, true, false, ◌&&◌, ◌||◌, not, some,
  List, [], ◌∷◌, any, str_eq, eq_iff, eq_refl, Bool-cases, if◌then◌else◌,
}
use rain_engine.Prelude.Assoc
use rain_engine.Prelude.Assoc.{Assoc, get-insert}
use rain_engine.Host.{Host}
use rain_engine.Types.Tools.{ToolNode, ToolNodeStatus, ToolResultRecord}
use rain_engine.Tools.Graph.{is_terminal_status, final_status_for_result}
use rain_engine.Tools.Execute.{Batch, settle}

module _ {h : Host} where
  -- The call has a final status.
  unfoldable pub is_settled : Batch h → String → Bool
  unfolding is_terminal_status
  is_settled b id = is_terminal_status (Assoc.get id b.statuses)

  -- What is settled stays settled.
  pub record Advances (b b' : Batch h) : Type 0 where
    pub kept : (id : String) → is_settled b id ≡ true → is_settled b' id ≡ true

  pub Advances-refl : (b : Batch h) → Advances b b
  Advances-refl b = record { kept = λ id s. s }

  pub Advances-trans : (a b c : Batch h) → Advances a b → Advances b c → Advances a c
  Advances-trans a b c p q = record { kept = λ id s. q.kept id (p.kept id s) }

  settled-settle :
      (id other : String) (status : ToolNodeStatus) (r : ToolResultRecord h) (b : Batch h)
      → is_terminal_status (some status) ≡ true
      → is_settled (settle id status r b) other ≡ (str_eq id other || is_settled b other)
  unfolding is_settled
  settled-settle id other status r b t = elim (Bool-cases (str_eq id other)) [
    | inl e ↦ rw (get-insert, e) t
    | inr e ↦ rw (get-insert, e) refl
  ]

  pub settle-Advances :
      (id : String) (status : ToolNodeStatus) (r : ToolResultRecord h) (b : Batch h)
      → is_terminal_status (some status) ≡ true
      → Advances b (settle id status r b)
  settle-Advances id status r b t = record {
    kept = λ other s. rw (settled-settle id other status r b t, s) (ground arith);
  }

  pub settle_settled :
      (id : String) (status : ToolNodeStatus) (r : ToolResultRecord h) (b : Batch h)
      → is_terminal_status (some status) ≡ true
      → is_settled (settle id status r b) id ≡ true
  settle_settled id status r b t = rw (settled-settle id id status r b t, eq_refl id) refl

  pub final_status_terminal :
      (r : ToolResultRecord h) → is_terminal_status (some (final_status_for_result r)) ≡ true
  unfolding final_status_for_result is_terminal_status
  final_status_terminal r = ground arith

  -- How many of the nodes are not settled.
  abbrev pub unsettled : Batch h → List (ToolNode h) → ℕ
  unsettled b [] = 0
  unsettled b (n ∷ ns) =
      let rest = unsettled b ns in if is_settled b n.call_id then rest else suc rest

  -- Some node was not settled and is now.
  abbrev pub newly : Batch h → Batch h → List (ToolNode h) → Bool
  newly b b' [] = false
  newly b b' (n ∷ ns) = (not (is_settled b n.call_id) && is_settled b' n.call_id) || newly b b' ns

  pub unsettled_le :
      (b b' : Batch h) (ns : List (ToolNode h)) → Advances b b' → unsettled b' ns ≤ unsettled b ns
  unsettled_le b b' [] a = omega arith
  unsettled_le b b' (n ∷ ns) a =
      let later : unsettled b' ns ≤ unsettled b ns = unsettled_le b b' ns a in
      ground (arith, a.kept n.call_id)

  pub unsettled_lt :
      (b b' : Batch h) (ns : List (ToolNode h))
      → Advances b b'
      → newly b b' ns ≡ true
      → unsettled b' ns < unsettled b ns
  unsettled_lt b b' [] a e = cc
  unsettled_lt b b' (n ∷ ns) a e =
      let later : unsettled b' ns ≤ unsettled b ns = unsettled_le b b' ns a in
      ground (arith, a.kept n.call_id, unsettled_lt b b' ns a)

  pub newly-Advances :
      (a b c : Batch h) (ns : List (ToolNode h))
      → Advances a b
      → newly b c ns ≡ true
      → newly a c ns ≡ true
  newly-Advances a b c [] p e = e
  newly-Advances a b c (n ∷ ns) p e = ground (arith, p.kept n.call_id, newly-Advances a b c ns p)

  pub newly_of :
      (b c : Batch h) (ns : List (ToolNode h)) (id : String)
      → any (λ (n : ToolNode h). str_eq n.call_id id) ns ≡ true
      → is_settled b id ≡ false
      → is_settled c id ≡ true
      → newly b c ns ≡ true
  newly_of b c [] id m s t = cc
  newly_of b c (n ∷ ns) id m s t = elim (Bool-cases (str_eq n.call_id id)) [
    | inl e ↦ rw ((eq_iff n.call_id id).0 e, s, t) refl
    | inr e ↦
        let later : newly b c ns ≡ true = newly_of b c ns id (ground arith) s t in ground arith
  ]
