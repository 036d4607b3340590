-- ===== src/Orchestration/CutoffTests.antt =====
-- A captured cut-off, where the text of a timestamp counts its instant and its offset in ticks.
use millrace.Base.{
  ℕ, zero, suc, code, String, Option, none, some, Result, ok, if◌then◌else◌, ◌==◌, ◌≡◌, refl, ap,
  ◌∙◌, map_result, split_on,
}
use millrace.Base.Int.{ℤ, pos, negsuc}
use millrace.Contracts.{Platform}
use millrace.Streaming.Models.{DateTime}
use millrace.Validation.Identifiers.{is_identifier, is_part, quote_identifier, quote_relation}
use millrace.Orchestration.Runtime.{RunDescriptor, context_from_descriptor}
use millrace.Orchestration.Cutoff.{
  IsAnswered, capture_cutoff, capture_cutoff-context_from_descriptor, descriptor_of, stable_run_id,
}
use millrace.Orchestration.Tests.{machine, lib, config}

ticks : ℕ → String → String
ticks zero s = s
ticks (suc n) s = String.◌∷◌ "i" (ticks n s)

abbrev zone_text : Option ℤ → String
unfolding ticks
zone_text none = String.[]
zone_text (some (pos n)) = String.◌∷◌ "+" (ticks n String.[])
zone_text (some (negsuc n)) = String.◌∷◌ "-" (ticks n String.[])

abbrev text_of : DateTime → String
unfolding ticks
text_of t = ticks t.instant (zone_text t.zone)

abbrev later : DateTime → DateTime
later t = record { instant = suc t.instant; zone = t.zone }

read_ticks : String → DateTime
read_ticks String.[] = record { instant = 0; zone = none }
read_ticks (String.◌∷◌ c s) =
    let t = read_ticks s in
    if code c == b'i' then later t else record {
      instant = 0;
      zone = some (if code c == b'+' then pos t.instant else negsuc t.instant);
    }

read_ticks-ticks :
    (n : ℕ) (s : String)
    → (read_ticks s).instant ≡ 0
    → read_ticks (ticks n s) ≡ record { instant = n; zone = (read_ticks s).zone }
unfolding read_ticks ticks
read_ticks-ticks zero s h = λ i. record { instant = h i; zone = (read_ticks s).zone }
read_ticks-ticks (suc n) s h = ap later (read_ticks-ticks n s h)

read_ticks-text_of : (t : DateTime) → read_ticks (text_of t) ≡ t
unfolding read_ticks ticks
read_ticks-text_of t =
    elim t.zone
      as (λ z.
        read_ticks (ticks t.instant (zone_text z)) ≡ record { instant = t.instant; zone = z }) [
          | none ↦ read_ticks-ticks t.instant String.[] refl
          | some (pos n) ↦
              read_ticks-ticks t.instant (zone_text (some (pos n))) refl
              ∙ ap
                  (λ (z : DateTime).
                    let r : DateTime = record {
                      instant = t.instant;
                      zone = some (pos z.instant);
                    } in
                    r)
                  (read_ticks-ticks n String.[] refl)
          | some (negsuc n) ↦
              read_ticks-ticks t.instant (zone_text (some (negsuc n))) refl
              ∙ ap
                  (λ (z : DateTime).
                    let r : DateTime = record {
                      instant = t.instant;
                      zone = some (negsuc z.instant);
                    } in
                    r)
                  (read_ticks-ticks n String.[] refl)
        ]

abbrev clock : Platform
clock = record {
  sha256_hex = λ s. "5e884898";
  format_date = λ t. "2026-01-05";
  isoformat = text_of;
  fromisoformat = λ s. some (read_ticks s);
}

-- the source has seven batches before the end of the interval
abbrev max_batch : String → String → String → DateTime → Result (Option ℤ)
max_batch relation batch timestamp end = ok (some (pos 7))

abbrev noon : DateTime
noon = record { instant = 1; zone = some (pos 0) }

abbrev one_o_clock : DateTime
one_o_clock = record { instant = 2; zone = some (pos 0) }

abbrev captured : RunDescriptor
captured = descriptor_of clock (λ t. "noon") noon one_o_clock (pos 7)

captures : capture_cutoff clock (λ t. "noon") max_batch config.cutoff noon one_o_clock ≡ ok captured
unfolding capture_cutoff quote_relation quote_identifier is_identifier is_part split_on map_result
captures = refl

capture_cutoff-context_from_descriptor_example :
    IsAnswered max_batch config.cutoff one_o_clock (pos 7)
    × (context_from_descriptor machine clock lib config captured
        ≡ ok (record {
          run_id = stable_run_id clock (λ t. "noon") noon one_o_clock (pos 7);
          batch_id = 7;
          interval_start = noon;
          interval_end = one_o_clock;
        }))
capture_cutoff-context_from_descriptor_example =
    capture_cutoff-context_from_descriptor clock (λ t. "noon") (λ t. ap some (read_ticks-text_of t))
      noon one_o_clock machine lib config max_batch 6 captured refl refl refl captures refl
