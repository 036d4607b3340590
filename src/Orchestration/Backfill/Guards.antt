-- ===== src/Orchestration/Backfill/Guards.antt =====
-- What `main` of src/millrace/orchestration/__main__.py does before it promotes.
use mathlib.Core.Path.{subst}
use millrace.Base.{
  String, Bool, true, false, ◌&&◌, none, some, List, [], ◌∷◌, ok, ◌≡◌, refl, sym, ◌⊎◌, inl, inr, In,
  str_eq, Bool-cases, bind-eq-ok, ok-path,
}
use millrace.Base.Dict.{Dict}
use millrace.Base.Stateful.{and_then, Ends, Ends-and_then, Ends-lift, Ends-weaken}
use millrace.Contracts.{Platform, RunContext}
use millrace.Streaming.Json.{Library}
use millrace.Orchestration.{OrchestrationConfig}
use millrace.Orchestration.Commands.{
  dbt_options, dbt_command, dbt_candidate_command, dbt_test_command,
}
use millrace.Orchestration.Runtime.{
  RunDescriptor, Event, ran, Machine, Stage, is_zero, finished, execute, context_from_descriptor,
  validation_command, dbt_schema_environment, build_candidate,
}

abbrev names_promote : List String → Bool
names_promote (c ∷ d ∷ rest) = str_eq d "promote"
names_promote _ = false

-- whether the event is a run of `python -m millrace.validation promote`, whatever its end
abbrev pub is_promotion : Event → Bool
is_promotion (ran (a ∷ b ∷ rest) environment succeeded) = str_eq b "-m" && names_promote rest
is_promotion _ = false

module _ (machine : Machine) (platform : Platform) (lib : Library) (config : OrchestrationConfig)
    (descriptor : RunDescriptor) (warehouse : String) where
  -- A command of the run has been run with success: dbt's build or test of the candidate, or its
  -- validation.
  abbrev pub WasBuilt : List Event → Type 0
  WasBuilt trace =
      (context : RunContext) × (command : List String) × (context_from_descriptor machine platform
          lib config descriptor
        ≡ ok context)
      × (dbt_candidate_command platform lib config.dbt context warehouse ≡ ok command)
      × In (ran command (dbt_schema_environment machine platform lib config context warehouse) true)
          trace

  abbrev pub WasTested : List Event → Type 0
  WasTested trace =
      (context : RunContext) × (command : List String) × (context_from_descriptor machine platform
          lib config descriptor
        ≡ ok context)
      × (dbt_test_command platform lib config.dbt context warehouse ≡ ok command)
      × In (ran command (dbt_schema_environment machine platform lib config context warehouse) true)
          trace

  abbrev pub WasValidated : List Event → Type 0
  WasValidated trace =
      (context : RunContext) × (context_from_descriptor machine platform lib config descriptor
        ≡ ok context)
      × In
          (ran (validation_command machine platform lib config "validate" context warehouse) []
            true)
          trace

  abbrev pub IsTested : List Event → Type 0
  IsTested trace = WasBuilt trace × WasValidated trace × WasTested trace

  -- Before every promotion stand the successful build, validation and test of the candidate.
  abbrev pub IsGuarded : List Event → Type 0
  IsGuarded [] = Unit
  IsGuarded (event ∷ trace) = ((is_promotion event ≡ false) ⊎ IsTested trace) × IsGuarded trace

  execute-Ends :
      (command : List String) (environment : Dict String) (trace : List Event)
      → Ends
          (λ out t. t ≡ ran command environment true ∷ trace)
          (λ t. t ≡ ran command environment false ∷ trace)
          (execute machine command environment trace)
  unfolding execute
  execute-Ends command environment trace =
      elim (machine.run command environment trace)
        as (λ o.
          Ends (λ out t. t ≡ ran command environment true ∷ trace)
            (λ t. t ≡ ran command environment false ∷ trace)
            (finished command environment o trace)) [
              | none ↦ refl
              | some completed ↦ elim (Bool-cases (is_zero completed.returncode)) [
                | inl zero_status ↦ rw zero_status refl
                | inr failed ↦ rw failed refl
              ]
            ]

  pub Ends-run :
      {A : Type 0} (Q : A → List Event → Type 0) (command : List String) (environment : Dict String)
      (f : String → Stage A) (trace : List Event)
      → IsGuarded (ran command environment false ∷ trace)
      → ((out : String) → Ends Q IsGuarded (f out (ran command environment true ∷ trace)))
      → Ends Q IsGuarded (and_then (execute machine command environment trace) f)
  Ends-run Q command environment f trace h k =
      Ends-and_then Q IsGuarded (λ out t. t ≡ ran command environment true ∷ trace) _ f
        (Ends-weaken (λ out t. t ≡ ran command environment true ∷ trace)
          (λ out t. t ≡ ran command environment true ∷ trace)
          (λ t. t ≡ ran command environment false ∷ trace) IsGuarded
          (execute machine command environment trace) (λ out t e. e)
          (λ t e. subst IsGuarded (sym e) h) (execute-Ends command environment trace))
        (λ out t e. subst (λ z. Ends Q IsGuarded (f out z)) (sym e) (k out))

  pub dbt_command-is_promotion :
      (action : String) (context : RunContext) (command : List String) (environment : Dict String)
      (succeeded : Bool)
      → str_eq action "-m" ≡ false
      → dbt_command platform action lib config.dbt context warehouse ≡ ok command
      → is_promotion (ran command environment succeeded) ≡ false
  unfolding dbt_command
  dbt_command-is_promotion action context command environment succeeded h e =
      let (options, found, last) = bind-eq-ok (dbt_options platform config.dbt warehouse) _ e in
      subst (λ c. is_promotion (ran c environment succeeded) ≡ false) (ok-path last) (rw h refl)

  pub build_candidate-Ends :
      (trace : List Event)
      → IsGuarded trace
      → Ends
          (λ u t. IsGuarded t × WasBuilt t)
          IsGuarded
          (build_candidate machine platform lib config descriptor warehouse trace)
  unfolding build_candidate dbt_candidate_command str_eq
  build_candidate-Ends trace guarded =
      let Q = λ (u : Unit {0}) (t : List Event). IsGuarded t × WasBuilt t in
      Ends-lift Q IsGuarded (context_from_descriptor machine platform lib config descriptor) _ trace
        guarded
        λ context has.
          Ends-lift Q IsGuarded (dbt_candidate_command platform lib config.dbt context warehouse) _
            trace guarded
            λ command found.
              let environment =
                dbt_schema_environment machine platform lib config context warehouse in
              let plain = λ (b : Bool).
                dbt_command-is_promotion "run" context command environment b refl found in
              Ends-run Q command environment _ trace (inl (plain false), guarded)
                λ out. ((inl (plain true), guarded), (context, command, has, found, inl refl))
