-- ===== src/Store/Concurrent.antt =====
-- rain-engine-core/src/memory.rs: appends to `InMemoryMemoryStore` that run at the same time. An append
-- takes its number under one lock and stores its record under another, so other appends come between.
use rain_engine.Prelude.{
  ℕ, ◌+◌, ◌≤◌, ◌<◌, ◌≡◌, refl, ap, String, List, [], ◌∷◌, ◌++◌, str_eq, eq_iff, ◌==◌, if◌then◌else◌,
  arith, Bool-cases, inl, inr,
}
use rain_engine.Prelude.Assoc.{get, get-insert}
use rain_engine.Host.{Host}
use rain_engine.Types.Records.{StoredSessionRecord, NewSessionRecord}
use rain_engine.Store.{InMemoryMemoryStore, new, session, stored_as, take_number, push_record}

-- A store, and the records that have their number but are not stored yet.
pub record Concurrent (h : Host) : Type 0 where
  pub store : InMemoryMemoryStore h
  pub pending : List (StoredSessionRecord h)

module _ {h : Host} where
  -- An append takes its number, or any of the appends that have theirs stores its record.
  pub data Step : Concurrent h → Concurrent h → Type 0 where
    numbers :
        (s : InMemoryMemoryStore h) (pending : List (StoredSessionRecord h))
        (r : NewSessionRecord h)
        → Step
            (record { store = s; pending = pending })
            (record {
              store = (take_number s).0;
              pending = stored_as (take_number s).1 r ∷ pending;
            })
    stores :
        (s : InMemoryMemoryStore h) (before after : List (StoredSessionRecord h))
        (r : StoredSessionRecord h)
        → Step
            (record { store = s; pending = before ++ r ∷ after })
            (record { store = push_record s r; pending = before ++ after })

  pub data Reach (c : Concurrent h) : Concurrent h → Type 0 where
    here : Reach c c
    next : {d e : Concurrent h} → Reach c d → Step d e → Reach c e

  -- How many of the records have a number.
  abbrev pub count : ℕ → List (StoredSessionRecord h) → ℕ
  count n [] = 0
  count n (r ∷ rs) = (if r.sequence_no == n then 1 else 0) + count n rs

  -- No number is given twice in a session, be it to a stored record or to one that is not stored yet,
  -- and none above the counter is given.
  pub record IsNumbered (c : Concurrent h) : Type 0 where
    pub once : (id : String) (n : ℕ) → count n (session c.store id) + count n c.pending ≤ 1
    pub bounded :
        (id : String) (n : ℕ)
        → c.store.next_sequence_no < n
        → count n (session c.store id) + count n c.pending ≡ 0

abbrev pub nothing_appended : (h : Host) → Concurrent h
nothing_appended h = record { store = new h; pending = [] }

module _ {h : Host} where
  count-append :
      (n : ℕ) (xs ys : List (StoredSessionRecord h)) → count n (xs ++ ys) ≡ count n xs + count n ys
  count-append n [] ys = omega arith
  count-append n (x ∷ xs) ys = omega (arith, count-append n xs ys)

  session-push_record :
      (s : InMemoryMemoryStore h) (r : StoredSessionRecord h) (id : String)
      → session (push_record s r) id
        ≡ (if str_eq r.session_id id then session s id ++ r ∷ [] else session s id)
  unfolding push_record
  session-push_record s r id = elim (Bool-cases (str_eq r.session_id id)) [
    | inl e ↦ rw (get-insert, e) (ap (λ j. session s j ++ r ∷ []) ((eq_iff r.session_id id).0 e))
    | inr e ↦ rw (get-insert, e)
  ]

  -- A record that is stored moves from the pending ones to its session.
  count-push_record :
      (s : InMemoryMemoryStore h) (before after : List (StoredSessionRecord h))
      (r : StoredSessionRecord h) (id : String) (n : ℕ)
      → count n (session (push_record s r) id) + count n (before ++ after)
        ≤ count n (session s id) + count n (before ++ r ∷ after)
  count-push_record s before after r id n = elim (Bool-cases (str_eq r.session_id id)) [
    | inl e ↦
        rw (session-push_record, e)
          (omega (
            arith,
            count-append n (session s id) (r ∷ []),
            count-append n before after,
            count-append n before (r ∷ after),
          ))
    | inr e ↦
        rw (session-push_record, e)
          (omega (arith, count-append n before after, count-append n before (r ∷ after)))
  ]

  next-push_record :
      (s : InMemoryMemoryStore h) (r : StoredSessionRecord h)
      → (push_record s r).next_sequence_no ≡ s.next_sequence_no
  unfolding push_record
  next-push_record s r = refl

  Step-IsNumbered : {c d : Concurrent h} → Step c d → IsNumbered c → IsNumbered d
  unfolding take_number stored_as
  Step-IsNumbered (numbers s pending r) i = record {
    once = λ id n. grind (arith, i.once id n, i.bounded id n);
    bounded = λ id n l. grind (arith, i.bounded id n);
  }
  Step-IsNumbered (stores s before after r) i = record {
    once = λ id n. omega (arith, i.once id n, count-push_record s before after r id n);
    bounded = λ id n l. omega (
      arith,
      i.bounded id n (let same = next-push_record s r in omega arith),
      count-push_record s before after r id n,
    );
  }

  nothing_appended-IsNumbered : IsNumbered (nothing_appended h)
  unfolding new get
  nothing_appended-IsNumbered = record {
    once = λ id n. omega arith;
    bounded = λ id n l. omega arith;
  }

  -- Whatever appends run at the same time on a new store, and however the steps in which they take
  -- their numbers and store their records are ordered, no two records of a session have the same
  -- sequence number, and none has one above the counter.
  pub reached_store-IsNumbered : {c : Concurrent h} → Reach (nothing_appended h) c → IsNumbered c
  reached_store-IsNumbered here = nothing_appended-IsNumbered
  reached_store-IsNumbered (next r step) = Step-IsNumbered step (reached_store-IsNumbered r)
