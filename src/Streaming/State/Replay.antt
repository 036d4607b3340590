-- ===== src/Streaming/State/Replay.antt =====
-- The result of `deduplicate_events` of src/millrace/streaming/state.py.
use mathlib.Core.Path.{subst}
use millrace.Base.{
  ℕ, ◌≡◌, sym, ◌∙◌, String, true, false, Option, some, List, [], ◌∷◌, map, ◌⊎◌, ◌↔◌, inl, inr, In,
  All-map, In-map, In-map_inv, str_le,
}
use millrace.Base.Dict.{Dict, lookup, values, In-values, values-In, lookup_of_In, In-of_lookup}
use millrace.Base.Sort.{In-sort_by}
use millrace.Base.Strict.{IsStrict, IsStrict-eq, sort_by-IsStrict, values-HasDistinctKeys}
use millrace.Streaming.Json.{Library}
use millrace.Streaming.Models.{CdcEvent}
use millrace.Streaming.State.{
  Order, order_lt, event_order, storage_key, admits, key_le, latest_events, deduplicate_events,
}
use millrace.Streaming.State.Ordering.{order_lt_connex}
use millrace.Streaming.State.Latest.{IsLatest, latest_events-IsLatest, same_value}

-- The same events, in any order and any number of times.
abbrev pub SameEvents : List CdcEvent → List CdcEvent → Type 0
SameEvents xs ys = (e : CdcEvent) → In e xs ↔ In e ys

module _ (lib : Library) (cutoff : Option ℕ) where
  -- `m` is one of the events, within the cutoff, and no such event of its key comes after it.
  pub record IsNewest (events : List CdcEvent) (m : CdcEvent) : Type 0 where
    pub given : In m events
    pub admitted : admits lib cutoff m ≡ true
    pub last :
        (e : CdcEvent)
        → In e events
        → admits lib cutoff e ≡ true
        → storage_key lib e ≡ storage_key lib m
        → order_lt (event_order lib m) (event_order lib e) ≡ false

  module _ (events : List CdcEvent) where
    abbrev final : Dict CdcEvent
    final = latest_events lib cutoff [] events

    final-IsLatest : IsLatest lib cutoff (λ x. ⊥ ⊎ In x events) final
    unfolding lookup
    final-IsLatest =
        latest_events-IsLatest lib cutoff (λ x. ⊥) [] events
          (record { unique = tt; sound = λ k e h. cc; maximal = λ e p a. absurd p })

    stored : (m : CdcEvent) → In m (values final) → lookup (storage_key lib m) final ≡ some m
    stored m h =
        let (k, entry) = In-values m final h in
        let found = lookup_of_In k m final final-IsLatest.unique entry in
        subst (λ j. lookup j final ≡ some m) (sym (final-IsLatest.sound k m found).2) found

    -- Every event that is returned is the newest of its key.
    pub deduplicate_events-IsNewest :
        (m : CdcEvent) → In m (deduplicate_events lib cutoff events) → IsNewest events m
    unfolding deduplicate_events
    deduplicate_events-IsNewest m h =
        let found = stored m ((In-sort_by (key_le lib) m (values final)).0 h) in
        let (p, a, s) = final-IsLatest.sound _ m found in
        record {
          given = elim p [ inl bad ↦ absurd bad | inr i ↦ i ];
          admitted = a;
          last = λ e i b same.
              let (n, other, ge) = final-IsLatest.maximal e (inr i) b in
              let one : n ≡ m =
                same_value other (subst (λ k. lookup k final ≡ some m) (sym same) found) in
              subst (λ z. order_lt (event_order lib z) (event_order lib e) ≡ false) one ge;
        }

    -- Every admitted event has an event of its key in the result.
    pub deduplicate_events_complete :
        (e : CdcEvent)
        → In e events
        → admits lib cutoff e ≡ true
        → (m : CdcEvent) × In m (deduplicate_events lib cutoff events)
          × (storage_key lib m ≡ storage_key lib e)
    unfolding deduplicate_events
    deduplicate_events_complete e i a =
        let (m, found, ge) = final-IsLatest.maximal e (inr i) a in
        (
          m,
          (In-sort_by (key_le lib) m (values final)).1
              (values-In _ m final (In-of_lookup _ m final found)),
          (final-IsLatest.sound _ m found).2,
        )

    -- The result increases strictly by key.
    pub deduplicate_events-IsStrict :
        IsStrict (storage_key lib) (deduplicate_events lib cutoff events)
    unfolding deduplicate_events
    deduplicate_events-IsStrict = sort_by-IsStrict (storage_key lib) (values final) (
        values-HasDistinctKeys (storage_key lib) final final-IsLatest.unique
          λ k v m. (final-IsLatest.sound k v (lookup_of_In k v final final-IsLatest.unique m)).2)

  -- The key of an event and its place in the order of its key.
  abbrev pub stamp : CdcEvent → String × Order
  stamp e = (storage_key lib e, event_order lib e)

  map-stamp-IsStrict :
      (xs : List CdcEvent)
      → IsStrict (storage_key lib) xs
      → IsStrict (λ (s : String × Order). s.0) (map stamp xs)
  map-stamp-IsStrict [] s = tt
  map-stamp-IsStrict (x ∷ xs) s = (
    All-map stamp (λ t. str_le t.0 (storage_key lib x) ≡ false) xs s.0,
    map-stamp-IsStrict xs s.1,
  )

  module _ (xs ys : List CdcEvent) (same : SameEvents xs ys) where
    -- The newest events of a key in the two lists have the same place in the order.
    pub event_order-IsNewest :
        (m n : CdcEvent)
        → IsNewest xs m
        → IsNewest ys n
        → storage_key lib m ≡ storage_key lib n
        → event_order lib m ≡ event_order lib n
    event_order-IsNewest m n p q e =
        order_lt_connex _ _ (p.last n ((same n).1 q.given) q.admitted (sym e))
          (q.last m ((same m).0 p.given) p.admitted e)

    stamp-In :
        (t : String × Order)
        → In t (map stamp (deduplicate_events lib cutoff xs))
        → In t (map stamp (deduplicate_events lib cutoff ys))
    stamp-In t i =
        let (m, h, e) = In-map_inv stamp t _ i in
        let p = deduplicate_events-IsNewest xs m h in
        let (n, k, s) = deduplicate_events_complete ys m ((same m).0 p.given) p.admitted in
        let o = event_order-IsNewest m n p (deduplicate_events-IsNewest ys n k) (sym s) in
        subst (λ u. In u (map stamp (deduplicate_events lib cutoff ys))) ((λ j. (s j, sym o j)) ∙ e)
          (In-map stamp n _ k)

module _ (lib : Library) (cutoff : Option ℕ) where
  -- The keys and orders that are returned depend only on which events are given.
  pub map-stamp-deduplicate_events :
      (xs ys : List CdcEvent)
      → SameEvents xs ys
      → map (stamp lib cutoff) (deduplicate_events lib cutoff xs)
        ≡ map (stamp lib cutoff) (deduplicate_events lib cutoff ys)
  map-stamp-deduplicate_events xs ys same =
      IsStrict-eq (λ (s : String × Order). s.0) _ _
        (map-stamp-IsStrict lib cutoff _ (deduplicate_events-IsStrict lib cutoff xs))
        (map-stamp-IsStrict lib cutoff _ (deduplicate_events-IsStrict lib cutoff ys))
        (stamp-In lib cutoff xs ys same) (stamp-In lib cutoff ys xs (λ e. ((same e).1, (same e).0)))

  -- Two of the events with one key and one place in the order are one event.
  abbrev pub HasDistinctOrders : List CdcEvent → Type 0
  HasDistinctOrders xs =
      (a b : CdcEvent) → In a xs → In b xs → stamp lib cutoff a ≡ stamp lib cutoff b → a ≡ b

  module _ (xs ys : List CdcEvent) (same : SameEvents xs ys) (distinct : HasDistinctOrders xs) where
    newest_In :
        (m : CdcEvent)
        → In m (deduplicate_events lib cutoff xs)
        → In m (deduplicate_events lib cutoff ys)
    newest_In m h =
        let p = deduplicate_events-IsNewest lib cutoff xs m h in
        let (n, k, s) =
          deduplicate_events_complete lib cutoff ys m ((same m).0 p.given) p.admitted in
        let q = deduplicate_events-IsNewest lib cutoff ys n k in
        let o = event_order-IsNewest lib cutoff xs ys same m n p q (sym s) in
        subst (λ z. In z (deduplicate_events lib cutoff ys))
          (distinct n m ((same n).1 q.given) p.given (λ i. (s i, sym o i))) k

  -- Where an order decides its event, replaying the events in another order, or some of them again,
  -- changes nothing.
  pub deduplicate_events_replay :
      (xs ys : List CdcEvent)
      → SameEvents xs ys
      → HasDistinctOrders xs
      → deduplicate_events lib cutoff xs ≡ deduplicate_events lib cutoff ys
  deduplicate_events_replay xs ys same distinct =
      IsStrict-eq (storage_key lib) _ _ (deduplicate_events-IsStrict lib cutoff xs)
        (deduplicate_events-IsStrict lib cutoff ys) (newest_In xs ys same distinct)
        (newest_In ys xs (λ e. ((same e).1, (same e).0))
          λ a b i j. distinct a b ((same a).1 i) ((same b).1 j))
