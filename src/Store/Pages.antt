-- ===== src/Store/Pages.antt =====
-- Paging through `list_records` by its `next_offset`.
use rain_engine.Prelude.{ℕ, zero, suc, none, some, List, [], ◌++◌, retain}
use rain_engine.Host.{Host}
use rain_engine.Types.Records.{StoredSessionRecord}
use rain_engine.Types.Requests.{RecordPageQuery}
use rain_engine.Store.{InMemoryMemoryStore, session, in_range, list_records}

module _ {h : Host} where
  -- The records that the query's time range selects.
  abbrev pub selected : InMemoryMemoryStore h → RecordPageQuery → List (StoredSessionRecord h)
  selected s q = retain (in_range q.since_ms q.until_ms) (session s q.session_id)

  -- A client that follows `next_offset`, on fuel: the pages' records, one after the other.
  unfoldable pub follow_pages :
      ℕ → InMemoryMemoryStore h → RecordPageQuery → List (StoredSessionRecord h)
  follow_pages zero s q = []
  follow_pages (suc fuel) s q =
      let page = list_records s q in
      elim page.next_offset [
        | some next ↦ page.records ++ follow_pages fuel s (record q { offset = next })
        | none ↦ page.records
      ]
