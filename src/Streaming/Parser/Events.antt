-- ===== src/Streaming/Parser/Events.antt =====
-- What `parse_debezium_event` returns: the contract of each kind of result.
use mathlib.Core.Path.{subst₂}
use millrace.Base.{
  ℕ, ◌<◌, String, ◌≡◌, ◌≢◌, refl, ap, ◌∙◌, arith, true, Option, none, some, ◌↔◌, Result, ok, raise,
  inl, inr, Option-cases, Result-cases, if◌then◌else◌,
}
use millrace.Streaming.Json.{JsonValue, text, get, JsonObject, Library}
use millrace.Streaming.Models.{
  Entity, Operation, is_delete, ReasonCode, KafkaMetadata, CdcEvent, event_row, Tombstone,
  cdc_event, tombstone_event,
}
use millrace.Streaming.Schemas.{EntitySpec, entity_spec, entity_from_topic, find_key, validate_row}
use millrace.Streaming.Parser.Decode.{RawText, decode, parse_key, key_eq, positive_int}
use millrace.Streaming.Parser.{
  Parse, next, reject, throw, ◌>>=◌, lift, require, Change, parse_operation, parse_tombstone,
  open_envelope, match_key, find_batch, parse_row, parse_change, parse_steps, parse_debezium_event,
}

-- Inversion of a step that goes on.
pub bind-eq-next :
    {A B : Type 0} (m : Parse A) (f : A → Parse B) {b : B}
    → (m >>= f) ≡ next b
    → (a : A) × (m ≡ next a) × (f a ≡ next b)
bind-eq-next (next a) f h = (a, refl, h)
bind-eq-next (reject code detail) f h = cc
bind-eq-next (throw e) f h = cc

pub require-eq-next :
    {A : Type 0} (o : Option A) (code : ReasonCode) (detail : String) {a : A}
    → require o code detail ≡ next a
    → o ≡ some a
require-eq-next none code detail h = cc
require-eq-next (some x) code detail h = cc

pub lift-eq-next : {A : Type 0} (r : Result A) {a : A} → lift r ≡ next a → r ≡ ok a
lift-eq-next (ok x) h = cc
lift-eq-next (raise e) h = cc

parse_operation-ne :
    (o : Operation) (v : JsonValue) → parse_operation v ≡ some o → o ≢ Operation.tombstone
unfolding parse_operation
parse_operation-ne o (text s) h = ground arith
parse_operation-ne o _ h = cc

module _ (lib : Library) where
  -- What the checks of the envelope establish.
  pub record IsChange (c : Change) : Type 0 where
    pub row : (if is_delete c.operation then c.before else c.after) ≡ some c.row
    pub operation : c.operation ≢ Operation.tombstone

  open_envelope-IsChange :
      (raw : Option String) (c : Change) → open_envelope lib raw ≡ next c → IsChange c
  unfolding open_envelope
  open_envelope-IsChange raw c h = record {
    row = ground arith;
    operation = parse_operation-ne c.operation (get "op" c.envelope) (ground arith);
  }

  -- What the checks of the two keys establish.
  pub record IsMatched (spec : EntitySpec) (row key : JsonObject) (matched : JsonObject)
      : Type 0 where
    pub valid : validate_row lib spec row ≡ none
    pub of_message : find_key spec key ≡ some matched
    pub row_key : JsonObject
    pub of_row : find_key spec row ≡ some row_key
    pub same : key_eq matched row_key ≡ true

  match_key-IsMatched :
      (spec : EntitySpec) (row key : JsonObject) (key_error : Option String) (matched : JsonObject)
      → match_key lib spec row key key_error ≡ next matched
      → IsMatched spec row key matched
  unfolding match_key
  match_key-IsMatched spec row key key_error matched h = elim (Option-cases (find_key spec row)) [
    | inl missing ↦ absurd (ground arith)
    | inr (k, found) ↦ record {
      valid = ground arith;
      of_message = ground arith;
      row_key = k;
      of_row = found;
      same = ground arith;
    }
  ]

  match_key-no_error :
      (spec : EntitySpec) (row key : JsonObject) (key_error : Option String) (matched : JsonObject)
      → match_key lib spec row key key_error ≡ next matched
      → key_error ≡ none
  unfolding match_key
  match_key-no_error spec row key key_error matched h = ground arith

  positive_int-pos : (v : JsonValue) (n : ℕ) → positive_int lib v ≡ ok (some n) → 0 < n
  unfolding positive_int
  positive_int-pos v n h = ground arith

  find_batch-pos : (row source : JsonObject) (n : ℕ) → find_batch lib row source ≡ next n → 0 < n
  unfolding find_batch
  find_batch-pos row source n h =
      ground
        (arith, positive_int-pos (get "batch_id" row) n, positive_int-pos (get "batch_id" source) n)

  -- What holds of every event that is returned for a message.
  pub record IsEvent (payload : Option RawText) (metadata : KafkaMetadata)
      (key_payload : Option RawText) (e : CdcEvent) : Type 0 where
    pub present : payload ≢ none
    pub entity : entity_from_topic lib metadata.topic ≡ some e.entity
    pub operation : e.operation ≢ Operation.tombstone
    pub batch : 0 < e.batch_id
    pub row : JsonObject
    pub has_row : event_row e ≡ some row
    pub message : JsonObject
    pub parsed : parse_key lib key_payload ≡ ok (message, none)
    pub keys : IsMatched (entity_spec e.entity) row message e.key
    pub kafka : e.kafka ≡ metadata
    pub raw : e.raw_payload ≡ decode lib payload

  parse_row-IsEvent :
      (p : RawText) (metadata : KafkaMetadata) (key_payload : Option RawText) (entity : Entity)
      (key : JsonObject) (key_error : Option String) (c : Change) (e : CdcEvent)
      → entity_from_topic lib metadata.topic ≡ some entity
      → parse_key lib key_payload ≡ ok (key, key_error)
      → IsChange c
      → parse_row lib entity key key_error metadata (decode lib (some p)) c ≡ next (cdc_event e)
      → IsEvent (some p) metadata key_payload e
  unfolding parse_row event_row
  parse_row-IsEvent p metadata key_payload entity key key_error c e topic parsed change h =
      let (k, matched, h1) =
        bind-eq-next (match_key lib (entity_spec entity) c.row key key_error) _ h in
      let (b, batch, h2) = bind-eq-next (find_batch lib c.row c.source) _ h1 in
      let same_entity : entity ≡ e.entity = ground arith in
      let same_key : k ≡ e.key = ground arith in
      record {
        present = λ q. cc;
        entity = ground arith;
        operation = ground arith;
        batch = ground (arith, find_batch-pos c.row c.source b);
        row = c.row;
        has_row = ground (arith, change.row);
        message = key;
        parsed = parsed ∙ ap (λ x. ok (key, x)) (match_key-no_error _ _ _ _ _ matched);
        keys =
            subst₂ (λ n m. IsMatched (entity_spec n) c.row key m) same_entity same_key
              (match_key-IsMatched _ _ _ _ k matched);
        kafka = ground arith;
        raw = ground arith;
      }

  steps_of_event :
      (payload : Option RawText) (metadata : KafkaMetadata) (key_payload : Option RawText)
      (e : CdcEvent)
      → parse_debezium_event lib payload metadata key_payload ≡ ok (cdc_event e)
      → parse_steps lib payload metadata key_payload ≡ next (cdc_event e)
  unfolding parse_debezium_event
  steps_of_event payload metadata key_payload e h = ground arith

  -- A change event is returned only for a message with a value whose topic names its entity, with
  -- the agreeing keys of the message and of a valid row, a positive batch, and an operation that is
  -- no tombstone.
  pub parse_debezium_event-IsEvent :
      (payload : Option RawText) (metadata : KafkaMetadata) (key_payload : Option RawText)
      (e : CdcEvent)
      → parse_debezium_event lib payload metadata key_payload ≡ ok (cdc_event e)
      → IsEvent payload metadata key_payload e
  unfolding parse_steps parse_change parse_tombstone
  parse_debezium_event-IsEvent none metadata key_payload e h =
      let s = steps_of_event none metadata key_payload e h in absurd (ground arith)
  parse_debezium_event-IsEvent (some p) metadata key_payload e h =
      let (entity, topic, s1) =
        bind-eq-next
          (require (entity_from_topic lib metadata.topic) ReasonCode.unknown_topic
            "topic does not map to an entity")
          _ (steps_of_event (some p) metadata key_payload e h) in
      let (parsed, read, s2) = bind-eq-next (lift (parse_key lib key_payload)) _ s1 in
      let (c, opened, s3) = bind-eq-next (open_envelope lib (decode lib (some p))) _ s2 in
      parse_row-IsEvent p metadata key_payload entity parsed.0 parsed.1 c e
        (require-eq-next _ _ _ topic) (lift-eq-next _ read) (open_envelope-IsChange _ c opened) s3

  -- A tombstone names the entity of the topic and the key of the message.
  pub record IsTombstone (payload : Option RawText) (metadata : KafkaMetadata)
      (key_payload : Option RawText) (t : Tombstone) : Type 0 where
    pub absent : payload ≡ none
    pub entity : entity_from_topic lib metadata.topic ≡ some t.entity
    pub message : JsonObject
    pub parsed : parse_key lib key_payload ≡ ok (message, none)
    pub key : find_key (entity_spec t.entity) message ≡ some t.key
    pub kafka : t.kafka ≡ metadata

  -- A tombstone is returned exactly where the message has no value, its topic names the entity and
  -- its key, which is read without an error, has the key of the entity.
  pub parse_debezium_event-IsTombstone :
      (payload : Option RawText) (metadata : KafkaMetadata) (key_payload : Option RawText)
      (t : Tombstone)
      → (parse_debezium_event lib payload metadata key_payload ≡ ok (tombstone_event t))
        ↔ IsTombstone payload metadata key_payload t
  unfolding parse_debezium_event parse_steps parse_change parse_row parse_tombstone
  parse_debezium_event-IsTombstone (some p) metadata key_payload t =
      (λ h. absurd (ground arith), λ i. absurd (cc (i.absent)))
  parse_debezium_event-IsTombstone none metadata key_payload t = (
    λ h. elim (Result-cases (parse_key lib key_payload)) [
      | inr (err, read) ↦ absurd (ground arith)
      | inl (parsed, read) ↦ record {
        absent = refl;
        entity = ground arith;
        message = parsed.0;
        parsed = ground arith;
        key = ground arith;
        kafka = ground arith;
      }
    ],
    λ i. ground (arith, i.entity, i.parsed, i.key, i.kafka),
  )
