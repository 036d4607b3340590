-- ===== src/Warehouse/Loader/Counts.antt =====
-- What `load_silver` of src/millrace/warehouse/snowflake_target.py returns.
use mathlib.Core.Path.{subst}
use millrace.Base.{
  ℕ, String, Option, none, some, List, [], ◌∷◌, Result, ok, Error, ◌≡◌, refl, sym, ap, ◌∙◌, arith,
  ◌⊎◌, inl, inr, In, ok-path,
}
use millrace.Base.Dict.{Dict}
use millrace.Base.Stateful.{and_then-eq-ok}
use millrace.Streaming.Models.{Entity, entities, entity_value}
use millrace.Warehouse.Loader.{
  ObjectStore, download_with_retry, LoadStatement, commit, create_table, copy, Gateway, or_zero,
  accepted, run_load, put_files, checked_count, load_files, load_entity, load_entities, load_silver,
}

module _ (gateway : Gateway) where
  checked_count-eq :
      (actual expected rows : ℕ) (trace end : List LoadStatement)
      → checked_count gateway actual expected trace ≡ (ok rows, end)
      → rows ≡ expected
  checked_count-eq actual expected rows trace end h = ground arith

  -- the count that is returned is that of the downloaded files
  load_files-eq :
      (ddl table : String) (keys : List String) (expected rows : ℕ) (trace end : List LoadStatement)
      → load_files gateway ddl table (keys, expected) trace ≡ (ok rows, end)
      → (rows ≡ expected) ⊎ (keys ≡ []) × (rows ≡ 0)
  unfolding load_files
  load_files-eq ddl table [] expected rows trace end h = inr (refl, ground arith)
  load_files-eq ddl table (key ∷ keys) expected rows trace end h =
      let (u, a, created, more) = and_then-eq-ok (run_load gateway (create_table ddl) trace) _ h in
      let (v, b, moved, rest) = and_then-eq-ok (put_files gateway (key ∷ keys) a) _ more in
      let (w, c, copied, last) = and_then-eq-ok (run_load gateway (copy table) b) _ rest in
      inl (checked_count-eq (or_zero (gateway.rows_loaded table c)) expected rows c end last)

  module _ (store : ObjectStore) (prefix_of : Entity → Result String) (schema : String) where
    -- The entity's files were downloaded, and its count is that of their rows; without a file it is 0.
    abbrev pub IsLoaded : Entity → ℕ → Type 0
    IsLoaded entity rows =
        (prefix : String) × (keys : List String) × (expected : ℕ) × (prefix_of entity ≡ ok prefix)
        × (download_with_retry store prefix ≡ ok (keys, expected))
        × ((rows ≡ expected) ⊎ (keys ≡ []) × (rows ≡ 0))

    load_entity-IsLoaded :
        (entity : Entity) (name : String) (rows : ℕ) (trace end : List LoadStatement)
        → load_entity gateway store prefix_of schema entity trace ≡ (ok (name, rows), end)
        → (name ≡ entity_value entity) × IsLoaded entity rows
    unfolding load_entity
    load_entity-IsLoaded entity name rows trace end h =
        let (prefix, a, named, more) = and_then-eq-ok (prefix_of entity, trace) _ h in
        let (found, b, got, rest) = and_then-eq-ok (download_with_retry store prefix, a) _ more in
        let (table, c, quoted, then_ddl) = and_then-eq-ok _ _ rest in
        let (ddl, d, columns, then_load) = and_then-eq-ok _ _ then_ddl in
        let (n, e, counted, last) =
          and_then-eq-ok (load_files gateway ddl table found d) _ then_load in
        let pair = ok-path (ap (λ z. z.0) last) in
        (
          sym (ap (λ z. z.0) pair),
          (
            prefix,
            found.0,
            found.1,
            ap (λ z. z.0) named,
            ap (λ z. z.0) got,
            subst (λ z. (z ≡ found.1) ⊎ (found.0 ≡ []) × (z ≡ 0)) (ap (λ z. z.1) pair)
                (load_files-eq ddl table found.0 found.1 n d e counted),
          ),
        )

    load_entities-IsLoaded :
        (some_entities : List Entity) (loaded : Dict ℕ) (trace end : List LoadStatement)
        → load_entities gateway store prefix_of schema some_entities trace ≡ (ok loaded, end)
        → (entity : Entity) → In entity some_entities
        → (rows : ℕ) × In (entity_value entity, rows) loaded × IsLoaded entity rows
    unfolding load_entities
    load_entities-IsLoaded [] loaded trace end h entity i = absurd i
    load_entities-IsLoaded (x ∷ rest) loaded trace end h entity i =
        let (entry, a, first, more) =
          and_then-eq-ok (load_entity gateway store prefix_of schema x trace) _ h in
        let (others, b, remaining, last) =
          and_then-eq-ok (load_entities gateway store prefix_of schema rest a) _ more in
        let all : entry ∷ others ≡ loaded = ok-path (ap (λ z. z.0) last) in
        elim i [
          | inl same ↦
              let (name, is_loaded) = load_entity-IsLoaded x entry.0 entry.1 trace a first in
              (
                entry.1,
                subst (In (entity_value entity, entry.1)) all
                    (inl (λ k. ((name ∙ ap entity_value same) k, entry.1))),
                subst (λ z. IsLoaded z entry.1) same is_loaded,
              )
          | inr j ↦
              let (rows, k, is_loaded) =
                load_entities-IsLoaded rest others a b remaining entity j in
              (rows, subst (In (entity_value entity, rows)) all (inr k), is_loaded)
        ]

    all_entities : (entity : Entity) → In entity entities
    all_entities Entity.customers = inl refl
    all_entities Entity.products = inr (inl refl)
    all_entities Entity.orders = inr (inr (inl refl))
    all_entities Entity.order_items = inr (inr (inr (inl refl)))

    accepted-ok :
        (refusal : Option Error) (statement : LoadStatement) (trace end : List LoadStatement)
        → accepted refusal statement trace ≡ (ok tt, end)
        → end ≡ statement ∷ trace
    accepted-ok none statement trace end h = sym (ap (λ z. z.1) h)
    accepted-ok (some e) statement trace end h = absurd (ground arith)

    -- Where the load returns, the last statement was the commit, and every entity has in the result
    -- the number of rows of its downloaded files, or 0 where it has no file.
    pub load_silver-IsLoaded :
        (loaded : Dict ℕ) (trace end : List LoadStatement)
        → load_silver gateway store prefix_of schema trace ≡ (ok loaded, end)
        → ((before : List LoadStatement) × (end ≡ commit ∷ before))
          × ((entity : Entity)
              → (rows : ℕ) × In (entity_value entity, rows) loaded × IsLoaded entity rows)
    unfolding load_silver run_load
    load_silver-IsLoaded loaded trace end h =
        let (stage, a, quoted, h1) = and_then-eq-ok _ _ h in
        let (name, b, named, h2) = and_then-eq-ok _ _ h1 in
        let (u, c, created, h3) = and_then-eq-ok _ _ h2 in
        let (v, d, staged, h4) = and_then-eq-ok _ _ h3 in
        let (found, e, load, h5) =
          and_then-eq-ok (load_entities gateway store prefix_of schema entities d) _ h4 in
        let (w, f, done, last) =
          and_then-eq-ok (accepted (gateway.refuses commit e) commit e) _ h5 in
        let same : found ≡ loaded = ok-path (ap (λ z. z.0) last) in
        (
          (e, sym (ap (λ z. z.1) last) ∙ accepted-ok (gateway.refuses commit e) commit e f done),
          λ entity.
              let (rows, i, is_loaded) =
                load_entities-IsLoaded entities found d e load entity (all_entities entity) in
              (rows, subst (In (entity_value entity, rows)) same i, is_loaded),
        )
