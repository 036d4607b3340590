-- ===== src/Streaming/State/Current.antt =====
-- The result of `build_current_state` of src/millrace/streaming/state.py.
use mathlib.Core.Path.{subst}
use millrace.Base.{
  ℕ, ◌≡◌, ◌≢◌, refl, sym, ap, ◌∙◌, arith, true, false, Option, none, some, List, [], ◌∷◌, inl, inr,
  In, Option-cases,
}
use millrace.Streaming.Json.{Library, JsonObject}
use millrace.Streaming.Models.{CdcEvent, is_delete, event_row}
use millrace.Streaming.State.{
  SnapshotRecord, canonical_key, storage_key, deduplicate_events, record_of, snapshot,
  build_current_state,
}
use millrace.Streaming.State.Replay.{
  IsNewest, event_order-IsNewest, HasDistinctOrders, deduplicate_events-IsNewest,
  deduplicate_events_complete,
}

-- `r` is the record of the event `e`, which is no delete.
pub record IsRecordOf (r : SnapshotRecord) (e : CdcEvent) : Type 0 where
  pub kept : is_delete e.operation ≡ false
  pub row : event_row e ≡ some r.row
  pub entity : r.entity ≡ e.entity
  pub key : r.key ≡ e.key
  pub batch_id : r.batch_id ≡ e.batch_id
  pub source_lsn : r.source_lsn ≡ e.source_lsn

record_of-IsRecordOf : (e : CdcEvent) (r : SnapshotRecord) → record_of e ≡ some r → IsRecordOf r e
unfolding record_of
record_of-IsRecordOf e r h = ground arith

record_of_row :
    (e : CdcEvent) (row : JsonObject)
    → is_delete e.operation ≡ false
    → event_row e ≡ some row
    → (r : SnapshotRecord) × (record_of e ≡ some r)
unfolding record_of
record_of_row e row kept has = (
  record {
    entity = e.entity;
    key = e.key;
    row = row;
    batch_id = e.batch_id;
    source_lsn = e.source_lsn;
  },
  rw (kept, has),
)

snapshot_skip :
    (e : CdcEvent) (events : List CdcEvent)
    → record_of e ≡ none
    → snapshot (e ∷ events) ≡ snapshot events
unfolding snapshot
snapshot_skip e events h = ground arith

snapshot_keep :
    (e : CdcEvent) (events : List CdcEvent) (r : SnapshotRecord)
    → record_of e ≡ some r
    → snapshot (e ∷ events) ≡ r ∷ snapshot events
unfolding snapshot
snapshot_keep e events r h = ground arith

snapshot-In_inv :
    (r : SnapshotRecord) (events : List CdcEvent)
    → In r (snapshot events)
    → (e : CdcEvent) × In e events × (record_of e ≡ some r)
snapshot-In_inv r [] m = absurd (unfold snapshot in m)
snapshot-In_inv r (e ∷ events) m = elim (Option-cases (record_of e)) [
  | inl skip ↦
      let (x, i, q) = snapshot-In_inv r events (subst (In r) (snapshot_skip e events skip) m) in
      (x, inr i, q)
  | inr (s, found) ↦ elim (subst (In r) (snapshot_keep e events s found) m) [
    | inl same ↦ (e, inl refl, found ∙ ap some same)
    | inr old ↦ let (x, i, q) = snapshot-In_inv r events old in (x, inr i, q)
  ]
]

In-snapshot :
    (r : SnapshotRecord) (e : CdcEvent) (events : List CdcEvent)
    → In e events
    → record_of e ≡ some r
    → In r (snapshot events)
In-snapshot r e [] m h = absurd m
In-snapshot r e (x ∷ events) (inl same) h =
    subst (In r) (sym (snapshot_keep x events r (ap record_of same ∙ h))) (inl refl)
In-snapshot r e (x ∷ events) (inr m) h = elim (Option-cases (record_of x)) [
  | inl skip ↦ subst (In r) (sym (snapshot_skip x events skip)) (In-snapshot r e events m h)
  | inr (s, found) ↦
      subst (In r) (sym (snapshot_keep x events s found)) (inr (In-snapshot r e events m h))
]

module _ (lib : Library) (cutoff : Option ℕ) (events : List CdcEvent) where
  -- Every record of the state is that of the newest event of its key, which is no delete.
  pub build_current_state_sound :
      (r : SnapshotRecord)
      → In r (build_current_state lib cutoff events)
      → (e : CdcEvent) × IsNewest lib cutoff events e × IsRecordOf r e
  unfolding build_current_state
  build_current_state_sound r m =
      let (e, i, h) = snapshot-In_inv r _ m in
      (e, deduplicate_events-IsNewest lib cutoff events e i, record_of-IsRecordOf e r h)

  -- Where an order decides its event, the state has a record of the newest event of every key, if
  -- that event is no delete and has a row.
  pub build_current_state_complete :
      (m : CdcEvent) (row : JsonObject)
      → IsNewest lib cutoff events m
      → is_delete m.operation ≡ false
      → event_row m ≡ some row
      → HasDistinctOrders lib cutoff events
      → (r : SnapshotRecord) × In r (build_current_state lib cutoff events) × IsRecordOf r m
  unfolding build_current_state
  build_current_state_complete m row newest kept has distinct =
      let (n, h, s) =
        deduplicate_events_complete lib cutoff events m newest.given newest.admitted in
      let p = deduplicate_events-IsNewest lib cutoff events n h in
      let o =
        event_order-IsNewest lib cutoff events events (λ x. (λ h. h, λ h. h)) n m p newest s in
      let one : n ≡ m = distinct n m p.given newest.given (λ i. (s i, o i)) in
      let (r, q) = record_of_row m row kept has in
      (
        r,
        In-snapshot r m _ (subst (λ x. In x (deduplicate_events lib cutoff events)) one h) q,
        record_of-IsRecordOf m r q,
      )

  -- A key whose newest event is a delete has no record.
  pub build_current_state_deleted :
      (d : CdcEvent) (r : SnapshotRecord)
      → IsNewest lib cutoff events d
      → is_delete d.operation ≡ true
      → HasDistinctOrders lib cutoff events
      → In r (build_current_state lib cutoff events)
      → canonical_key lib r.entity r.key ≢ storage_key lib d
  build_current_state_deleted d r newest gone distinct m same =
      let (e, p, q) = build_current_state_sound r m in
      let own : storage_key lib e ≡ storage_key lib d =
        (λ i. canonical_key lib (sym q.entity i) (sym q.key i)) ∙ same in
      let o =
        event_order-IsNewest lib cutoff events events (λ x. (λ h. h, λ h. h)) e d p newest own in
      let one = distinct e d p.given newest.given (λ i. (own i, o i)) in
      cc (subst (λ x. is_delete x.operation ≡ false) one q.kept, gone)
