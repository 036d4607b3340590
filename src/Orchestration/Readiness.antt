-- ===== src/Orchestration/Readiness.antt =====
-- `wait_for_readiness` of src/millrace/orchestration/runtime.py. Time is in milliseconds.
use millrace.Base.{
  ℕ, zero, suc, ◌+◌, ◌-◌, ◌*◌, ◌/◌, ◌≤◌, ◌<◌, String, Bool, true, false, Option, none, some, List,
  Result, ok, raise, timeout_error, if◌then◌else◌, ltb, str_eq, any, ◌≡◌, refl, arith, ◌⊎◌, inl,
  inr, Bool-cases, Result-cases,
}
use millrace.Base.Stateful.{Action, and_then, and_then-eq-ok, ◌>>◌, return}
use millrace.Orchestration.{OrchestrationConfig}

pub data Service : Type 0 where
  postgres duckdb snowflake object_store : Service

-- The services and the clock: a check ends with or without an exception, at some later time, and a
-- sleep ends at some time.
pub record Surroundings : Type 0 where
  pub check : Service → ℕ → Result (Unit {0}) × ℕ
  pub sleep : ℕ → ℕ → ℕ

-- `time.sleep` sleeps for the given time at least, and no check turns the clock back.
pub record IsSteady (around : Surroundings) : Type 0 where
  pub checked : (service : Service) (now : ℕ) → now ≤ (around.check service now).1
  pub slept : (duration now : ℕ) → now + duration ≤ around.sleep duration now

abbrev min : ℕ → ℕ → ℕ
min a b = if ltb a b then a else b

-- `"duckdb" in settings.enabled_warehouse_targets`
abbrev is_enabled : String → List String → Bool
is_enabled target targets = any (str_eq target) targets

and_then-le :
    (now : ℕ) (r : Result (Unit {0}) × ℕ) (f : Unit {0} → Action ℕ (Unit {0}))
    → now ≤ r.1
    → ((t : ℕ) → t ≤ (f tt t).1)
    → now ≤ (and_then r f).1
unfolding and_then
and_then-le now (ok u, t) f h k = omega (arith, k t)
and_then-le now (raise e, t) f h k = h

module _ (around : Surroundings) (targets : List String) where
  abbrev check_if : Bool → Service → Action ℕ (Unit {0})
  check_if true service = around.check service
  check_if false service = return tt

  -- the `try` block of one round
  unfoldable pub check_services : Action ℕ (Unit {0})
  check_services = do
    around.check Service.postgres
    check_if (is_enabled "duckdb" targets) Service.duckdb
    check_if (is_enabled "snowflake" targets) Service.snowflake
    around.check Service.object_store

  -- The loop, for a number of rounds; `none` where they do not suffice.
  unfoldable pub ready_loop : ℕ → ℕ → ℕ → Option (Result (Unit {0}) × ℕ)
  ready_loop zero deadline now = none
  ready_loop (suc rounds) deadline now = elim (ltb now deadline) [
    | false ↦ some (raise (timeout_error "services did not become ready"), now)
    | true ↦
        let (r, t) = check_services now in
        elim r [
          | ok u ↦ some (ok tt, t)
          | raise e ↦ ready_loop rounds deadline (around.sleep (min 5000 (deadline - t)) t)
        ]
  ]

  -- `wait_for_readiness`: a round for every five seconds, and two
  unfoldable pub wait_for_readiness : OrchestrationConfig → ℕ → Option (Result (Unit {0}) × ℕ)
  wait_for_readiness config now =
      let timeout = config.readiness_timeout_seconds in
      ready_loop (suc (suc (timeout / 5))) (now + 1000 * timeout) now

  -- One round in which every service was checked in turn, each with an answer: the times between
  -- them are those that the checks took.
  pub record IsRound (start end : ℕ) : Type 0 where
    pub after_postgres : ℕ
    pub after_duckdb : ℕ
    pub after_snowflake : ℕ
    pub postgres : around.check Service.postgres start ≡ (ok tt, after_postgres)
    pub duckdb :
        is_enabled "duckdb" targets ≡ true
        → around.check Service.duckdb after_postgres ≡ (ok tt, after_duckdb)
    pub snowflake :
        is_enabled "snowflake" targets ≡ true
        → around.check Service.snowflake after_duckdb ≡ (ok tt, after_snowflake)
    pub object_store : around.check Service.object_store after_snowflake ≡ (ok tt, end)

  check_if-answered :
      (enabled : Bool) (service : Service) (now : ℕ) (end : ℕ)
      → check_if enabled service now ≡ (ok tt, end)
      → enabled ≡ true
      → around.check service now ≡ (ok tt, end)
  check_if-answered true service now end h e = h
  check_if-answered false service now end h e = cc

  check_services-IsRound : (start end : ℕ) → check_services start ≡ (ok tt, end) → IsRound start end
  unfolding check_services
  check_services-IsRound start end h =
      let (u, a, first, h1) = and_then-eq-ok (around.check Service.postgres start) _ h in
      let (v, b, second, h2) =
        and_then-eq-ok (check_if (is_enabled "duckdb" targets) Service.duckdb a) _ h1 in
      let (w, c, third, last) =
        and_then-eq-ok (check_if (is_enabled "snowflake" targets) Service.snowflake b) _ h2 in
      record {
        after_postgres = a;
        after_duckdb = b;
        after_snowflake = c;
        postgres = first;
        duckdb = check_if-answered _ Service.duckdb a b second;
        snowflake = check_if-answered _ Service.snowflake b c third;
        object_store = last;
      }

  -- A wait that returns ends with a round that began before the deadline, and one that raises, at
  -- or after it.
  abbrev pub IsWaited : ℕ → Result (Unit {0}) → ℕ → Type 0
  IsWaited deadline (ok u) t = (start : ℕ) × (start < deadline) × IsRound start t
  IsWaited deadline (raise e) t = deadline ≤ t

  module _ (steady : IsSteady around) where
    check_if-le :
        (enabled : Bool) (service : Service) (now : ℕ) → now ≤ (check_if enabled service now).1
    check_if-le true service now = steady.checked service now
    check_if-le false service now = omega arith

    check_services-le : (now : ℕ) → now ≤ (check_services now).1
    unfolding check_services
    check_services-le now =
        and_then-le now (around.check Service.postgres now) _ (steady.checked Service.postgres now)
          (λ a.
            and_then-le a (check_if (is_enabled "duckdb" targets) Service.duckdb a) _
              (check_if-le (is_enabled "duckdb" targets) Service.duckdb a)
              (λ b.
                and_then-le b (check_if (is_enabled "snowflake" targets) Service.snowflake b) _
                  (check_if-le (is_enabled "snowflake" targets) Service.snowflake b)
                  (λ c. steady.checked Service.object_store c)))

    sleep-cases :
        (deadline t : ℕ)
        → (deadline ≤ around.sleep (min 5000 (deadline - t)) t)
          ⊎ (t + 5000 ≤ around.sleep (min 5000 (deadline - t)) t)
    sleep-cases deadline t = let h = steady.slept (min 5000 (deadline - t)) t in ground arith

    pub ready_loop_ends :
        (rounds deadline now : ℕ)
        → deadline - now ≤ 5000 * rounds
        → (r : Result (Unit {0})) × (t : ℕ) × (ready_loop (suc rounds) deadline now ≡ some (r, t))
          × IsWaited deadline r t
    unfolding ready_loop
    ready_loop_ends zero deadline now h = elim (Bool-cases (ltb now deadline)) [
      | inr late ↦ (
        raise (timeout_error "services did not become ready"),
        now,
        rw (late, ready_loop) refl,
        ground arith,
      )
      | inl early ↦ absurd (ground arith)
    ]
    ready_loop_ends (suc rounds) deadline now h = elim (Bool-cases (ltb now deadline)) [
      | inr late ↦ (
        raise (timeout_error "services did not become ready"),
        now,
        rw (late, ready_loop) refl,
        ground arith,
      )
      | inl early ↦ elim (Result-cases (check_services now).0) [
        | inl (u, e) ↦
            let t = (check_services now).1 in
            (
              ok tt,
              t,
              ground arith,
              (now, ground arith, check_services-IsRound now t (λ i. (e i, t))),
            )
        | inr (failure, e) ↦
            let t = (check_services now).1 in
            let later = check_services-le now in
            let next = around.sleep (min 5000 (deadline - t)) t in
            let bound : deadline - next ≤ 5000 * rounds = elim (sleep-cases deadline t) [
              | inl over ↦ omega arith
              | inr five ↦ omega arith
            ] in
            let (r, end, q, w) = ready_loop_ends rounds deadline next bound in
            (r, end, ground arith, w)
      ]
    ]

    -- The wait ends, in as many rounds as its timeout has five seconds and two more: it returns after
    -- a round that began before the deadline and in which PostgreSQL, the enabled warehouses and the
    -- object store answered, or it raises at or after the deadline.
    pub wait_for_readiness_ends :
        (config : OrchestrationConfig) (now : ℕ)
        → (r : Result (Unit {0})) × (t : ℕ) × (wait_for_readiness config now ≡ some (r, t))
          × IsWaited (now + 1000 * config.readiness_timeout_seconds) r t
    unfolding wait_for_readiness
    wait_for_readiness_ends config now =
        let timeout = config.readiness_timeout_seconds in
        ready_loop_ends (suc (timeout / 5)) (now + 1000 * timeout) now (omega arith)
