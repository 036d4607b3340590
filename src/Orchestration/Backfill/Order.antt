-- ===== src/Orchestration/Backfill/Order.antt =====
-- `main` of src/millrace/orchestration/__main__.py promotes a candidate only after its build, its
-- validation and its test.
use millrace.Base.{
  String, Bool, true, false, Option, none, some, List, [], ◌∷◌, ◌++◌, Result, ok, raise, Error, ◌≡◌,
  refl, ◌∙◌, inl, inr, str_eq,
}
use millrace.Base.Stateful.{Ends-returned, leave_with, Ends, Ends-and_then, Ends-lift, Ends-state}
use millrace.Contracts.{Platform, RunContext}
use millrace.Streaming.Json.{Library}
use millrace.Orchestration.{OrchestrationConfig}
use millrace.Orchestration.Commands.{dbt_test_command, spark_submit_command}
use millrace.Orchestration.Runtime.{
  RunDescriptor, Event, ran, rmtree, Machine, remove_run, root_directory, run_directory,
  cleanup_temporary_files, context_from_descriptor, validation_command, dbt_schema_environment,
  run_spark, load_snowflake_silver, test_candidate, validate_candidate, promote_candidate,
  emit_metrics, or_fails,
}
use millrace.Orchestration.Backfill.{
  backfill_run, load_if, promote_if, publish_run, continue_run, main,
}
use millrace.Orchestration.Backfill.Guards.{
  is_promotion, WasBuilt, WasTested, WasValidated, IsTested, IsGuarded, Ends-run,
  dbt_command-is_promotion, build_candidate-Ends,
}

remove_run-rmtree :
    (contained inside : Bool) (destination load_destination : String) (trace : List Event)
    → contained ≡ true
    → inside ≡ true
    → (remove_run contained inside destination load_destination trace).1
      ≡ rmtree load_destination ∷ rmtree destination ∷ trace
remove_run-rmtree false inside destination load_destination trace h k = cc
remove_run-rmtree true true destination load_destination trace h k = refl
remove_run-rmtree true false destination load_destination trace h k = cc

leave_with-Ends :
    (P : List Event → Type 0) (r end : Result (Unit {0})) (trace : List Event)
    → P trace
    → Ends (λ (u : Unit {0}) t. P t) P (leave_with r (end, trace))
unfolding leave_with
leave_with-Ends P (ok u) (ok v) trace h = h
leave_with-Ends P (raise e) (ok v) trace h = h
leave_with-Ends P r (raise e) trace h = h

leave_with-state :
    (r : Result (Unit {0})) (x : Result (Unit {0}) × List Event) → (leave_with r x).1 ≡ x.1
unfolding leave_with
leave_with-state r (ok u, trace) = refl
leave_with-state r (raise e, trace) = refl

module _ (machine : Machine) (platform : Platform) (lib : Library) (config : OrchestrationConfig)
    (descriptor : RunDescriptor) (warehouse : String) where
  abbrev Guarded : List Event → Type 0
  Guarded = IsGuarded machine platform lib config descriptor warehouse

  abbrev Built : List Event → Type 0
  Built = WasBuilt machine platform lib config descriptor warehouse

  abbrev Validated : List Event → Type 0
  Validated = WasValidated machine platform lib config descriptor warehouse

  abbrev Tested : List Event → Type 0
  Tested = WasTested machine platform lib config descriptor warehouse

  abbrev contexts : Result RunContext
  contexts = context_from_descriptor machine platform lib config descriptor

  WasBuilt-later : (event : Event) (trace : List Event) → Built trace → Built (event ∷ trace)
  WasBuilt-later event trace (context, command, has, found, i) =
      (context, command, has, found, inr i)

  WasValidated-later :
      (event : Event) (trace : List Event) → Validated trace → Validated (event ∷ trace)
  WasValidated-later event trace (context, has, i) = (context, has, inr i)

  test_candidate-Ends :
      (trace : List Event)
      → Guarded trace
      → Built trace
      → Validated trace
      → Ends
          (λ u t. Guarded t × IsTested machine platform lib config descriptor warehouse t)
          Guarded
          (test_candidate machine platform lib config descriptor warehouse trace)
  unfolding test_candidate dbt_test_command str_eq
  test_candidate-Ends trace guarded built validated =
      let Q = λ (u : Unit {0}) (t : List Event).
        Guarded t × IsTested machine platform lib config descriptor warehouse t in
      Ends-lift Q Guarded contexts _ trace guarded λ context has.
        Ends-lift Q Guarded (dbt_test_command platform lib config.dbt context warehouse) _ trace
          guarded
          λ command found.
            let environment =
              dbt_schema_environment machine platform lib config context warehouse in
            let plain = λ (b : Bool).
              dbt_command-is_promotion machine platform lib config descriptor warehouse "test"
                context command environment b refl found in
            let event = ran command environment true in
            Ends-run machine platform lib config descriptor warehouse Q command environment _ trace
              (inl (plain false), guarded)
              λ out. (
                (inl (plain true), guarded),
                (
                  WasBuilt-later event trace built,
                  WasValidated-later event trace validated,
                  (context, command, has, found, inl refl),
                ),
              )

  validate_candidate-Ends :
      (trace : List Event)
      → Guarded trace
      → Built trace
      → Ends
          (λ path t. Guarded t × Built t × Validated t)
          Guarded
          (validate_candidate machine platform lib config descriptor warehouse trace)
  unfolding validate_candidate validation_command str_eq
  validate_candidate-Ends trace guarded built =
      let Q = λ (path : String) (t : List Event). Guarded t × Built t × Validated t in
      Ends-lift Q Guarded contexts _ trace guarded λ context has.
        let command = validation_command machine platform lib config "validate" context warehouse in
        let after = ran command [] true ∷ trace in
        Ends-run machine platform lib config descriptor warehouse Q command [] _ trace
          (inl refl, guarded)
          λ out.
            Ends-returned Q Guarded _ after (inl refl, guarded)
              λ path. (
                (inl refl, guarded),
                WasBuilt-later (ran command [] true) trace built,
                (context, has, inl refl),
              )

  or_fails-Ends :
      (failure : Option Error) (event : Event) (trace : List Event)
      → is_promotion event ≡ false
      → Guarded trace
      → Ends (λ (u : Unit {0}) t. Guarded t) Guarded (or_fails failure event trace)
  or_fails-Ends none event trace plain guarded = (inl plain, guarded)
  or_fails-Ends (some e) event trace plain guarded = guarded

  emit_metrics-Ends :
      (trace : List Event)
      → Guarded trace
      → Ends (λ u t. Guarded t) Guarded (emit_metrics machine platform lib config descriptor trace)
  unfolding emit_metrics
  emit_metrics-Ends trace guarded =
      Ends-lift (λ u t. Guarded t) Guarded contexts _ trace guarded
        λ context has. or_fails-Ends (machine.push context.batch_id trace) _ trace refl guarded

  promote_if-Ends :
      (promote : Bool) (report_path : String) (trace : List Event)
      → Guarded trace
      → IsTested machine platform lib config descriptor warehouse trace
      → Ends
          (λ u t. Guarded t)
          Guarded
          (promote_if machine platform lib config descriptor promote report_path warehouse trace)
  unfolding promote_candidate
  promote_if-Ends false report_path trace guarded tested = guarded
  promote_if-Ends true report_path trace guarded tested =
      let Q = λ (u : Unit {0}) (t : List Event). Guarded t in
      Ends-and_then Q Guarded Q _ _
        (Ends-lift Q Guarded contexts _ trace guarded λ context has.
          let command =
            validation_command machine platform lib config "promote" context warehouse
            ++ "--report" ∷ report_path ∷ [] in
          Ends-run machine platform lib config descriptor warehouse Q command [] _ trace
            (inr tested, guarded) λ out. (inr tested, guarded))
        λ u t h. emit_metrics-Ends t h

  load_if-Ends :
      (load : Bool) (trace : List Event)
      → Guarded trace
      → Ends (λ u t. Guarded t) Guarded (load_if machine platform lib config descriptor load trace)
  unfolding load_snowflake_silver
  load_if-Ends false trace guarded = guarded
  load_if-Ends true trace guarded =
      Ends-lift (λ u t. Guarded t) Guarded contexts _ trace guarded
        λ context has. or_fails-Ends (machine.load_silver descriptor trace) _ trace refl guarded

  publish_run-Ends :
      (promote : Bool) (trace : List Event)
      → Guarded trace
      → Ends
          (λ u t. Guarded t)
          Guarded
          (publish_run machine platform lib config descriptor promote warehouse trace)
  unfolding publish_run
  publish_run-Ends promote trace guarded =
      let Q = λ (u : Unit {0}) (t : List Event). Guarded t in
      Ends-and_then Q Guarded Q _ _ (load_if-Ends (str_eq warehouse "snowflake") trace guarded)
        λ u a g.
          Ends-and_then Q Guarded (λ u t. Guarded t × Built t) _ _
            (build_candidate-Ends machine platform lib config descriptor warehouse a g)
            λ v b h.
              Ends-and_then Q Guarded (λ path t. Guarded t × Built t × Validated t) _ _
                (validate_candidate-Ends b h.0 h.1)
                λ report_path c k.
                  Ends-and_then Q Guarded
                    (λ u t. Guarded t × IsTested machine platform lib config descriptor warehouse t)
                    _ _ (test_candidate-Ends c k.0 k.1 k.2)
                    λ w d l. promote_if-Ends promote report_path d l.0 l.1

  remove_run-Guarded :
      (a b : Bool) (destination load_destination : String) (trace : List Event)
      → Guarded trace
      → Guarded (remove_run a b destination load_destination trace).1
  remove_run-Guarded false b destination load_destination trace guarded = guarded
  remove_run-Guarded true true destination load_destination trace guarded =
      (inl refl, (inl refl, guarded))
  remove_run-Guarded true false destination load_destination trace guarded = (inl refl, guarded)

  cleanup-Guarded :
      (trace : List Event)
      → Guarded trace
      → Guarded (cleanup_temporary_files machine config descriptor trace).1
  unfolding cleanup_temporary_files
  cleanup-Guarded trace guarded = remove_run-Guarded _ _ _ _ trace guarded

  run_spark-Ends :
      (trace : List Event)
      → Guarded trace
      → Ends
          (λ u t. Guarded t)
          Guarded
          (run_spark machine platform lib config descriptor true trace)
  unfolding run_spark spark_submit_command str_eq
  run_spark-Ends trace guarded =
      let Q = λ (u : Unit {0}) (t : List Event). Guarded t in
      Ends-lift Q Guarded contexts _ trace guarded λ context has.
        Ends-run machine platform lib config descriptor warehouse Q _ [] _ trace (inl refl, guarded)
          λ out. (inl refl, guarded)

  -- However a backfill ends, before every promotion that it ran stand the build, the validation and
  -- the test of the run's candidate, each run with success.
  pub main-IsGuarded :
      (promote : Bool) (ready : Result (Unit {0}))
      → IsGuarded machine platform lib config descriptor warehouse
          (main machine platform lib config descriptor (backfill_run promote warehouse) ready []).1
  unfolding main
  main-IsGuarded promote ready =
      let Q = λ (u : Unit {0}) (t : List Event). Guarded t in
      Ends-state Q Guarded Guarded
        (main machine platform lib config descriptor (backfill_run promote warehouse) ready [])
        (λ u t g. g) (λ t g. g)
        (Ends-and_then Q Guarded Q _ _ (Ends-returned Q Guarded ready [] tt (λ u. tt)) λ u s g.
          Ends-and_then Q Guarded Q _ _ (run_spark-Ends s g) λ v t h.
            let tried = publish_run machine platform lib config descriptor promote warehouse t in
            let guarded =
              Ends-state Q Guarded Guarded tried (λ w z k. k) (λ z k. k)
                (publish_run-Ends promote t h) in
            leave_with-Ends Guarded tried.0 _ _ (cleanup-Guarded tried.1 guarded))

  -- However the stages of a backfill end, once they have begun, `shutil.rmtree` is called as the last
  -- thing on the run's directory and on that of the loader in `snowflake_load`, where both stand in
  -- the directories that are meant to hold them.
  pub continue_run-rmtree :
      (promote : Bool) (trace : List Event)
      → (let root = root_directory machine config in
          str_eq (machine.parent (run_directory machine root descriptor)) root ≡ true)
      → (let load_root = machine.resolve (root_directory machine config) "snowflake_load" in
          str_eq (machine.parent (run_directory machine load_root descriptor)) load_root ≡ true)
      → (earlier : List Event) × ((continue_run machine platform lib config descriptor
            (backfill_run promote warehouse)
            trace).1
          ≡ rmtree (
              run_directory machine
                (machine.resolve (root_directory machine config) "snowflake_load")
                descriptor)
            ∷ rmtree (run_directory machine (root_directory machine config) descriptor)
            ∷ earlier)
  unfolding cleanup_temporary_files
  continue_run-rmtree promote trace inside load_inside =
      let tried = publish_run machine platform lib config descriptor promote warehouse trace in
      (
        tried.1,
        leave_with-state tried.0 (cleanup_temporary_files machine config descriptor tried.1)
            ∙ remove_run-rmtree _ _ _ _ tried.1 inside load_inside,
      )
