-- ===== src/Store/Sessions.antt =====
-- What a session holds after an append: the store refines a log of appended records, read by session.
use mathlib.Core.List.{map-append, append-nil, append_assoc}
use rain_engine.Prelude.{
  ◌+◌, ◌≡◌, ◌∙◌, refl, ap, String, List, [], ◌∷◌, ◌++◌, str_eq, eq_iff, if◌then◌else◌, Bool-cases,
  inl, inr,
}
use rain_engine.Prelude.Assoc.{get, get-insert}
use rain_engine.Host.{Host}
use rain_engine.Types.Records.{SessionRecord, NewSessionRecord}
use rain_engine.Ledger.Record.{new_record}
use rain_engine.Store.{InMemoryMemoryStore, new, session, stored_as, append_record, load_session}

module _ {h : Host} where
  -- An append adds its stored record behind the session's records, and leaves the other sessions.
  pub session-append_record :
      (s : InMemoryMemoryStore h) (r : NewSessionRecord h) (id : String)
      → session (append_record s r).0 id ≡ (
          if str_eq r.session_id id
          then session s id ++ stored_as (s.next_sequence_no + 1) r ∷ []
          else session s id)
  unfolding append_record
  session-append_record s r id = elim (Bool-cases (str_eq r.session_id id)) [
    | inl e ↦ rw (get-insert, e, (eq_iff r.session_id id).0 e)
    | inr e ↦ rw (get-insert, e)
  ]

  -- Loading a session after an append returns its records with the appended one at the end; the
  -- other sessions load as before.
  pub load-append :
      (s : InMemoryMemoryStore h) (to : String) (r : SessionRecord h) (id : String)
      → (load_session (append_record s (new_record to r)).0 id).records ≡ (
          if str_eq to id
          then (load_session s id).records ++ r ∷ []
          else (load_session s id).records)
  unfolding load_session stored_as new_record
  load-append s to r id = elim (Bool-cases (str_eq to id)) [
    | inl e ↦ rw (session-append_record, e) (map-append _ (session s id) _)
    | inr e ↦ rw (session-append_record, e)
  ]

  -- A run of the store on a log of appends, oldest first.
  unfoldable pub append_all :
      InMemoryMemoryStore h → List (String × SessionRecord h) → InMemoryMemoryStore h
  append_all s [] = s
  append_all s ((to, r) ∷ log) = append_all (append_record s (new_record to r)).0 log

  -- The log's records for a session.
  abbrev pub log_of : String → List (String × SessionRecord h) → List (SessionRecord h)
  log_of id [] = []
  log_of id ((to, r) ∷ log) = let rest = log_of id log in if str_eq to id then r ∷ rest else rest

  load-new : (id : String) → (load_session (new h) id).records ≡ []
  unfolding load_session new get
  load-new id = refl

  log_of-cons :
      (to id : String) (r : SessionRecord h) (xs ys : List (SessionRecord h))
      → (if str_eq to id then xs ++ r ∷ [] else xs) ++ ys
        ≡ xs ++ (if str_eq to id then r ∷ ys else ys)
  log_of-cons to id r xs ys = elim (Bool-cases (str_eq to id)) [
    | inl e ↦ rw e (append_assoc xs (r ∷ []) ys)
    | inr e ↦ rw e
  ]

  loaded-append_all :
      (s : InMemoryMemoryStore h) (log : List (String × SessionRecord h)) (id : String)
      → (load_session (append_all s log) id).records ≡ (load_session s id).records ++ log_of id log
  unfolding append_all
  loaded-append_all s [] id = rw append-nil
  loaded-append_all s ((to, r) ∷ log) id =
      loaded-append_all (append_record s (new_record to r)).0 log id
      ∙ ap (λ l. l ++ log_of id log) (load-append s to r id)
      ∙ log_of-cons to id r (load_session s id).records (log_of id log)

  -- The store is a log: after any appends to a new store, a session loads as exactly the records
  -- that were appended to it, in the order of the appends.
  pub store_refines_log :
      (log : List (String × SessionRecord h)) (id : String)
      → (load_session (append_all (new h) log) id).records ≡ log_of id log
  store_refines_log log id =
      loaded-append_all (new h) log id ∙ ap (λ l. l ++ log_of id log) (load-new id)
