-- ===== src/Streaming/State/Latest.antt =====
-- The dict that the loop of `deduplicate_events` fills holds, for each key, an event that no other
-- of that key comes after.
use mathlib.Core.Path.{subst}
use millrace.Base.{
  ℕ, ◌≡◌, sym, ap, ◌∙◌, arith, String, true, false, Option, some, List, [], ◌∷◌, ◌⊎◌, ◌↔◌, inl, inr,
  In, Bool-cases, Option-cases, str_eq, str_eq_iff,
}
use millrace.Base.Dict.{
  Dict, lookup, insert, IsUnique, lookup-insert_self, lookup-insert_ne, lookup-insert_cases,
  insert-IsUnique,
}
use millrace.Streaming.Json.{Library}
use millrace.Streaming.Models.{CdcEvent}
use millrace.Streaming.State.{
  Order, order_lt, event_order, storage_key, admits, keep_latest, latest_events,
}
use millrace.Streaming.State.Ordering.{order_lt_irrefl, order_lt_asymm, order_ge_trans}

pub same_value : {p q : CdcEvent} {o : Option CdcEvent} → o ≡ some p → o ≡ some q → p ≡ q
same_value f g = cc

module _ (lib : Library) (cutoff : Option ℕ) where
  abbrev pub order_of : CdcEvent → Order
  order_of = event_order lib

  pub record IsLatest (P : CdcEvent → Type 0) (d : Dict CdcEvent) : Type 0 where
    pub unique : IsUnique d
    pub sound :
        (k : String) (e : CdcEvent)
        → lookup k d ≡ some e
        → P e × (admits lib cutoff e ≡ true) × (storage_key lib e ≡ k)
    pub maximal :
        (e : CdcEvent)
        → P e
        → admits lib cutoff e ≡ true
        → (m : CdcEvent) × (lookup (storage_key lib e) d ≡ some m)
          × (order_lt (order_of m) (order_of e) ≡ false)

  IsLatest-iff :
      {P Q : CdcEvent → Type 0} {d : Dict CdcEvent}
      → ((e : CdcEvent) → P e ↔ Q e)
      → IsLatest P d
      → IsLatest Q d
  IsLatest-iff same l = record {
    unique = l.unique;
    sound = λ k e h. let (p, a, s) = l.sound k e h in ((same e).0 p, a, s);
    maximal = λ e q a. l.maximal e ((same e).1 q) a;
  }

  -- the dict after `latest[storage_key] = event`, where no newer event was stored
  insert-IsLatest :
      (P : CdcEvent → Type 0) (d : Dict CdcEvent) (e : CdcEvent)
      → IsLatest P d
      → admits lib cutoff e ≡ true
      → ((p : CdcEvent)
          → lookup (storage_key lib e) d ≡ some p
          → order_lt (order_of e) (order_of p) ≡ false)
      → IsLatest (λ x. P x ⊎ (e ≡ x)) (insert (storage_key lib e) e d)
  insert-IsLatest P d e l a newer = record {
    unique = insert-IsUnique (storage_key lib e) e d l.unique;
    sound = λ k x h. elim (lookup-insert_cases (storage_key lib e) k e x d h) [
      | inl (p, q) ↦
          (inr p, subst (λ y. admits lib cutoff y ≡ true) p a, ap (storage_key lib) (sym p) ∙ q)
      | inr found ↦ let (p, b, s) = l.sound k x found in (inl p, b, s)
    ];
    maximal = λ x p b. elim p [
      | inr same ↦
          subst Kept same (e, lookup-insert_self (storage_key lib e) e d, order_lt_irrefl _)
      | inl old ↦
          let (m, found, ge) = l.maximal x old b in
          elim (Bool-cases (str_eq (storage_key lib e) (storage_key lib x))) [
            | inl t ↦
                let q = (str_eq_iff _ _).0 t in
                (
                  e,
                  subst (λ k. lookup k (insert (storage_key lib e) e d) ≡ some e) q
                      (lookup-insert_self _ e d),
                  order_ge_trans _ _ _ (newer m (subst (λ k. lookup k d ≡ some m) (sym q) found))
                      ge,
                )
            | inr f ↦ (m, lookup-insert_ne _ _ e d f ∙ found, ge)
          ]
    ];
  }
    where
      Kept : CdcEvent → Type 0
      Kept x =
          (m : CdcEvent) × (lookup (storage_key lib x) (insert (storage_key lib e) e d) ≡ some m)
          × (order_lt (order_of m) (order_of x) ≡ false)

  -- the dict that stays as it is, where a stored event is not older
  skip-IsLatest :
      (P : CdcEvent → Type 0) (d : Dict CdcEvent) (e p : CdcEvent)
      → IsLatest P d
      → lookup (storage_key lib e) d ≡ some p
      → order_lt (order_of p) (order_of e) ≡ false
      → IsLatest (λ x. P x ⊎ (e ≡ x)) d
  skip-IsLatest P d e p l found ge = record {
    unique = l.unique;
    sound = λ k x h. let (q, b, s) = l.sound k x h in (inl q, b, s);
    maximal = λ x q b. elim q [
      | inl old ↦ l.maximal x old b
      | inr same ↦
          subst
            (λ y.
              (m : CdcEvent) × (lookup (storage_key lib y) d ≡ some m)
              × (order_lt (order_of m) (order_of y) ≡ false))
            same (p, found, ge)
    ];
  }

  -- the dict that stays as it is, where the event is beyond the cutoff
  ignore-IsLatest :
      (P : CdcEvent → Type 0) (d : Dict CdcEvent) (e : CdcEvent)
      → IsLatest P d
      → admits lib cutoff e ≡ false
      → IsLatest (λ x. P x ⊎ (e ≡ x)) d
  ignore-IsLatest P d e l late = record {
    unique = l.unique;
    sound = λ k x h. let (q, b, s) = l.sound k x h in (inl q, b, s);
    maximal = λ x q b. elim q [
      | inl old ↦ l.maximal x old b
      | inr same ↦ cc (subst (λ y. admits lib cutoff y ≡ true) (sym same) b, late)
    ];
  }

  keep_latest-IsLatest :
      (P : CdcEvent → Type 0) (d : Dict CdcEvent) (e : CdcEvent)
      → IsLatest P d
      → IsLatest (λ x. P x ⊎ (e ≡ x)) (keep_latest lib cutoff d e)
  unfolding keep_latest
  keep_latest-IsLatest P d e l = elim (Bool-cases (admits lib cutoff e)) [
    | inr late ↦ rw late (ignore-IsLatest P d e l late)
    | inl fits ↦ elim (Option-cases (lookup (storage_key lib e) d)) [
      | inl missing ↦ rw (fits, missing) (insert-IsLatest P d e l fits (λ p found. cc))
      | inr (p, found) ↦ elim (Bool-cases (order_lt (order_of p) (order_of e))) [
        | inl newer ↦
            rw (fits, found, newer)
              (insert-IsLatest P d e l fits λ q h.
                subst (λ z. order_lt (order_of e) (order_of z) ≡ false) (same_value found h)
                  (order_lt_asymm _ _ newer))
        | inr older ↦ rw (fits, found, older) (skip-IsLatest P d e p l found older)
      ]
    ]
  ]

  pub latest_events-IsLatest :
      (P : CdcEvent → Type 0) (d : Dict CdcEvent) (events : List CdcEvent)
      → IsLatest P d
      → IsLatest (λ x. P x ⊎ In x events) (latest_events lib cutoff d events)
  unfolding latest_events
  latest_events-IsLatest P d [] l =
      IsLatest-iff (λ e. (λ p. inl p, λ q. elim q [ inl p ↦ p | inr m ↦ absurd m ])) l
  latest_events-IsLatest P d (e ∷ events) l =
      IsLatest-iff (λ x. (λ h. ground arith, λ h. ground arith))
        (latest_events-IsLatest (λ x. P x ⊎ (e ≡ x)) (keep_latest lib cutoff d e) events
          (keep_latest-IsLatest P d e l))
