-- ===== src/Streaming/Parser/Reasons/Envelope.antt =====
-- The reasons of `open_envelope`, the checks of the envelope in src/millrace/streaming/parser.py.
use mathlib.Core.Path.{subst, subst₂}
use millrace.Base.{String, ◌≡◌, ap, ◌∙◌, inl, inr, Option, ok}
use millrace.Streaming.Json.{get, optional_object, Library}
use millrace.Streaming.Models.{ReasonCode, KafkaMetadata}
use millrace.Streaming.Parser.Decode.{
  RawText, decode, parse_object, unwrap_payload, normalize_decimal_fields, non_negative_int,
}
use millrace.Streaming.Parser.{next, reject, Change, parse_operation, open_envelope}
use millrace.Streaming.Parser.Returns.{
  Rejects-require, Rejects-lift, Rejects-error, Accepts-require, Accepts-lift, Accepts-error,
  next-path,
}
use millrace.Streaming.Parser.Reasons.{IsOpened, image, HasRow, IsExplained}

module _ (lib : Library) where
  module _ (payload : Option RawText) (metadata : KafkaMetadata)
      (key_payload : Option RawText) where
    abbrev Explained : ReasonCode → Type 0
    Explained = IsExplained lib payload metadata key_payload

    abbrev raw : Option String
    raw = decode lib payload

    pub open_envelope-IsExplained :
        (c : ReasonCode) (d : String) → open_envelope lib raw ≡ reject c d → Explained c
    unfolding open_envelope
    open_envelope-IsExplained c d h =
        Rejects-lift (parse_object lib raw) _ h λ (document, error) parsed h1.
          Rejects-error error ReasonCode.invalid_json _ h1
            (λ e is_error code.
              subst Explained code (document, e, parsed ∙ ap (λ z. ok (document, z)) is_error))
            λ no_error h2.
              let read = parsed ∙ ap (λ z. ok (document, z)) no_error in
              Rejects-require (unwrap_payload document) ReasonCode.invalid_envelope _ _ h2
                (λ missing code. subst Explained code (inl (document, read, missing)))
                λ unwrapped unwraps h3.
                  Rejects-lift (normalize_decimal_fields lib document unwrapped) _ h3
                    λ envelope normal h4.
                      let opened : IsOpened lib raw envelope = record {
                        document = document;
                        unwrapped = unwrapped;
                        parsed = read;
                        unwraps = unwraps;
                        normal = normal;
                      } in
                      Rejects-require (parse_operation (get "op" envelope))
                        ReasonCode.unsupported_operation _ _ h4
                        (λ missing code. subst Explained code (envelope, opened, missing))
                        λ operation is_operation h5.
                          Rejects-require (image lib operation envelope) ReasonCode.invalid_envelope
                            _ _ h5
                            (λ missing code.
                              subst Explained code
                                (inr (envelope, opened, inl (operation, is_operation, missing))))
                            λ row is_row h6.
                              Rejects-require (optional_object (get "source" envelope))
                                ReasonCode.invalid_envelope _ _ h6
                                (λ missing code.
                                  subst Explained code (inr (envelope, opened, inr missing)))
                                λ source is_source h7.
                                  let has : HasRow lib raw row source = record {
                                    envelope = envelope;
                                    opened = opened;
                                    operation = operation;
                                    has_operation = is_operation;
                                    has_row = is_row;
                                    has_source = is_source;
                                  } in
                                  Rejects-lift (non_negative_int lib (get "lsn" source)) _ h7
                                    λ lsn is_lsn h8.
                                      Rejects-require lsn ReasonCode.missing_source_lsn _ _ h8
                                        (λ missing code.
                                          subst Explained code
                                            (row, source, has, is_lsn ∙ ap ok missing))
                                        λ n is_n h9. absurd cc

    pub open_envelope-HasRow :
        (change : Change)
        → open_envelope lib raw ≡ next change
        → HasRow lib raw change.row change.source
    unfolding open_envelope
    open_envelope-HasRow change h =
        Accepts-lift (parse_object lib raw) _ h λ (document, error) parsed h1.
          Accepts-error error ReasonCode.invalid_json _ h1 λ no_error h2.
            Accepts-require (unwrap_payload document) ReasonCode.invalid_envelope _ _ h2
              λ unwrapped unwraps h3.
                Accepts-lift (normalize_decimal_fields lib document unwrapped) _ h3
                  λ envelope normal h4.
                    Accepts-require (parse_operation (get "op" envelope))
                      ReasonCode.unsupported_operation _ _ h4
                      λ operation is_operation h5.
                        Accepts-require (image lib operation envelope) ReasonCode.invalid_envelope _
                          _ h5
                          λ row is_row h6.
                            Accepts-require (optional_object (get "source" envelope))
                              ReasonCode.invalid_envelope _ _ h6
                              λ source is_source h7.
                                Accepts-lift (non_negative_int lib (get "lsn" source)) _ h7
                                  λ lsn is_lsn h8.
                                    Accepts-require lsn ReasonCode.missing_source_lsn _ _ h8
                                      λ n is_n h9.
                                        let same = next-path h9 in
                                        let has : HasRow lib raw row source = record {
                                          envelope = envelope;
                                          opened = record {
                                            document = document;
                                            unwrapped = unwrapped;
                                            parsed = parsed ∙ ap (λ z. ok (document, z)) no_error;
                                            unwraps = unwraps;
                                            normal = normal;
                                          };
                                          operation = operation;
                                          has_operation = is_operation;
                                          has_row = is_row;
                                          has_source = is_source;
                                        } in
                                        subst₂ (HasRow lib raw) (ap (λ (z : Change). z.row) same)
                                          (ap (λ (z : Change). z.source) same) has
