-- ===== src/Streaming/Tests.antt =====
-- Runs of the current state on a customer that is created, then updated or deleted.
pub mod Messages
pub mod Windows
pub mod Snapshots
pub mod Lakes
use mathlib.Core.Path.{subst}
use millrace.Base.Dict.{values, lookup, insert}
use millrace.Base.Sort
use millrace.Base.{
  ℕ, suc, String, Bool, true, false, Option, none, some, List, [], ◌∷◌, ok, ◌≡◌, ◌≢◌, refl, sym, ap,
  ◌∙◌, inl, inr, In, arith, code, str_eq, str_le,
}
use millrace.Base.Int.{pos}
use millrace.Streaming.Json.{
  JsonValue, JsonObject, text, integer, object, field, empty, Library, Loaded,
}
use millrace.Streaming.Models.{
  Entity, Operation, KafkaMetadata, CdcEvent, event_row, entity_value, operation_value,
}
use millrace.Streaming.State.{
  SnapshotRecord, order_lt, event_order, canonical_key, storage_key, keep_latest, latest_events,
  deduplicate_events, record_of, snapshot, build_current_state,
}
use millrace.Streaming.State.Replay.{
  SameEvents, IsNewest, HasDistinctOrders, stamp, deduplicate_events-IsNewest,
  deduplicate_events_replay,
}
use millrace.Streaming.State.Current.{
  IsRecordOf, build_current_state_sound, build_current_state_complete, build_current_state_deleted,
}

-- the text of the first field, which tells the keys and the operations of these events apart
abbrev pub first_text : JsonValue → String
first_text (object (field name (text s) rest)) = s
first_text _ = "?"

abbrev pub lib : Library
lib = record {
  lower = λ s. s;
  is_digit = λ c. false;
  digit_value = λ c. none;
  utf8 = λ bytes. none;
  utf8_replace = λ bytes. "";
  loads = λ s. Loaded.decode_error "no JSON";
  dumps = first_text;
  b64decode = λ s. none;
  is_decimal = λ s. true;
  scale_decimal = λ n scale. ok "0";
}

abbrev pub key : JsonObject
key = field "customer_id" (text "c1") empty

abbrev pub event : Operation → ℕ → Option JsonObject → Option JsonObject → CdcEvent
event operation lsn before after = record {
  entity = Entity.customers;
  operation = operation;
  key = key;
  before = before;
  after = after;
  batch_id = 1;
  source_lsn = lsn;
  source_timestamp_ms = none;
  transaction_order = 0;
  kafka = record { topic = "cdc.customers"; partition = 0; offset = lsn; timestamp = none };
  raw_payload = none;
}

abbrev pub row : String → JsonObject
row name = field "customer_id" (text "c1") (field "email" (text name) empty)

abbrev pub created : CdcEvent
created = event Operation.create 1 none (some (row "a@x"))

abbrev pub updated : CdcEvent
updated = event Operation.update 2 (some (row "a@x")) (some (row "b@x"))

abbrev deleted : CdcEvent
deleted = event Operation.delete 3 (some (row "b@x")) none

abbrev pub live : List CdcEvent
live = created ∷ updated ∷ []

abbrev replayed : List CdcEvent
replayed = updated ∷ created ∷ updated ∷ []

abbrev gone : List CdcEvent
gone = created ∷ deleted ∷ []

stamps_differ : stamp lib none created ≡ stamp lib none updated → ⊥
unfolding event_order
stamps_differ h = let bad = ap (λ s. s.1.source_lsn) h in ground arith

stamps_differ_gone : stamp lib none created ≡ stamp lib none deleted → ⊥
unfolding event_order
stamps_differ_gone h = let bad = ap (λ s. s.1.source_lsn) h in ground arith

two-HasDistinctOrders :
    (x y : CdcEvent)
    → (stamp lib none x ≡ stamp lib none y → ⊥)
    → HasDistinctOrders lib none (x ∷ y ∷ [])
two-HasDistinctOrders x y n a b (inl p) (inl q) h = sym p ∙ q
two-HasDistinctOrders x y n a b (inl p) (inr (inl q)) h =
    absurd (n (ap (stamp lib none) p ∙ (h ∙ ap (stamp lib none) (sym q))))
two-HasDistinctOrders x y n a b (inr (inl p)) (inl q) h =
    absurd (n (ap (stamp lib none) q ∙ (sym h ∙ ap (stamp lib none) (sym p))))
two-HasDistinctOrders x y n a b (inr (inl p)) (inr (inl q)) h = sym p ∙ q
two-HasDistinctOrders x y n a b (inl p) (inr (inr bad)) h = absurd bad
two-HasDistinctOrders x y n a b (inr (inl p)) (inr (inr bad)) h = absurd bad
two-HasDistinctOrders x y n a b (inr (inr bad)) _ h = absurd bad

second-IsNewest :
    (x y : CdcEvent)
    → order_lt (event_order lib y) (event_order lib x) ≡ false
    → order_lt (event_order lib y) (event_order lib y) ≡ false
    → IsNewest lib none (x ∷ y ∷ []) y
second-IsNewest x y h k = record {
  given = inr (inl refl);
  admitted = refl;
  last = λ e m a same. elim m [
    | inl p ↦ subst (λ z. order_lt (event_order lib y) (event_order lib z) ≡ false) p h
    | inr n ↦ elim n [
      | inl p ↦ subst (λ z. order_lt (event_order lib y) (event_order lib z) ≡ false) p k
      | inr bad ↦ absurd bad
    ]
  ];
}

replayed-SameEvents : SameEvents live replayed
replayed-SameEvents e = (
  λ m. elim m [ inl p ↦ inr (inl p) | inr n ↦ inr (inr n) ],
  λ m. elim m [ inl p ↦ inr (inl p) | inr n ↦ n ],
)

abbrev current : SnapshotRecord
current = record {
  entity = Entity.customers;
  key = key;
  row = row "b@x";
  batch_id = 1;
  source_lsn = 2;
}

current-In : In current (build_current_state lib none live)
unfolding build_current_state deduplicate_events latest_events keep_latest snapshot record_of
    order_lt event_order event_row Sort.sort_by values lookup insert str_eq canonical_key
    entity_value
current-In = inl refl

build_current_state_sound_example : (e : CdcEvent) × IsNewest lib none live e × IsRecordOf current e
build_current_state_sound_example = build_current_state_sound lib none live current current-In

build_current_state_complete_example :
    (r : SnapshotRecord) × In r (build_current_state lib none live) × IsRecordOf r updated
unfolding order_lt event_order event_row str_le operation_value
build_current_state_complete_example =
    build_current_state_complete lib none live updated (row "b@x")
      (second-IsNewest created updated refl refl) refl refl
      (two-HasDistinctOrders created updated stamps_differ)

deduplicate_events-IsNewest_example : IsNewest lib none live updated
unfolding deduplicate_events latest_events keep_latest order_lt event_order Sort.sort_by values
    lookup insert str_eq canonical_key entity_value
deduplicate_events-IsNewest_example = deduplicate_events-IsNewest lib none live updated (inl refl)

deduplicate_events_replay_example :
    deduplicate_events lib none live ≡ deduplicate_events lib none replayed
deduplicate_events_replay_example =
    deduplicate_events_replay lib none live replayed replayed-SameEvents
      (two-HasDistinctOrders created updated stamps_differ)
