-- ===== src/Warehouse/Loader/Downloads.antt =====
-- What `_download_parquet_with_retry` of src/millrace/warehouse/snowflake_target.py returns.
use mathlib.Core.Path.{subst}
use millrace.Base.{
  ℕ, zero, suc, ◌+◌, ◌≤◌, String, Bool, true, false, List, [], ◌∷◌, map, keep, Result, ok, raise,
  Error, ◌≡◌, refl, sym, ap, ◌∙◌, arith, ◌⊎◌, inl, inr, All, Bool-cases, Result-cases, bind-eq-ok,
}
use millrace.Warehouse.Loader.{
  ObjectStore, Download, files, mismatch, failed, checked, download_objects, download_parquet,
  with_count, retry_download, download_with_retry,
}

module _ (store : ObjectStore) (prefix : String) where
  abbrev is_listed : String × ℕ → Bool
  is_listed (key, size) = store.is_parquet key

  -- The keys are those of all the Parquet objects that the attempt listed, each downloaded with the
  -- size that the listing reported.
  pub record IsComplete (attempt : ℕ) (keys : List String) : Type 0 where
    pub entries : List (String × ℕ)
    pub listed : store.objects prefix attempt ≡ ok entries
    pub all_keys : keys ≡ map (λ e. e.0) (keep is_listed entries)
    pub sizes : All (λ e. store.download e.0 attempt ≡ ok e.1) (keep is_listed entries)

  checked-files :
      (key : String) (size : ℕ) (r : Result ℕ) (rest : Download) (keys : List String)
      → checked key size r rest ≡ files keys
      → (others : List String) × (r ≡ ok size) × (rest ≡ files others) × (keys ≡ key ∷ others)
  checked-files key size (raise e) rest keys h = cc
  checked-files key size (ok actual) (files others) keys h =
      (others, ground arith, refl, ground arith)
  checked-files key size (ok actual) mismatch keys h = absurd (ground arith)
  checked-files key size (ok actual) (failed e) keys h = absurd (ground arith)

  abbrev AreListed : ℕ → List String → List (String × ℕ) → Type 0
  AreListed attempt keys listed =
      (keys ≡ map (λ e. e.0) listed) × All (λ e. store.download e.0 attempt ≡ ok e.1) listed

  abbrev keep_if : Bool → String → ℕ → List (String × ℕ) → List (String × ℕ)
  keep_if b key size entries = elim b [
    | true ↦ (key, size) ∷ keep is_listed entries
    | false ↦ keep is_listed entries
  ]

  download_objects-files :
      (attempt : ℕ) (entries : List (String × ℕ)) (keys : List String)
      → download_objects store prefix attempt entries ≡ files keys
      → (keys ≡ map (λ e. e.0) (keep is_listed entries))
        × All (λ e. store.download e.0 attempt ≡ ok e.1) (keep is_listed entries)
  unfolding download_objects
  download_objects-files attempt [] keys h = (ground arith, tt)
  download_objects-files attempt ((key, size) ∷ entries) keys h =
      elim (Bool-cases (store.is_parquet key)) [
        | inr other ↦
            subst (λ b. AreListed attempt keys (keep_if b key size entries)) (sym other)
              (download_objects-files attempt entries keys (ground arith))
        | inl parquet ↦
            let (others, e, rest, all) =
              checked-files key size (store.download key attempt)
                (download_objects store prefix attempt entries) keys (ground arith) in
            let (k, l) = download_objects-files attempt entries others rest in
            subst (λ b. AreListed attempt keys (keep_if b key size entries)) (sym parquet)
              (all ∙ ap (λ z. key ∷ z) k, (e, l))
      ]

  download_parquet-IsComplete :
      (attempt : ℕ) (keys : List String)
      → download_parquet store prefix attempt ≡ files keys
      → IsComplete attempt keys
  unfolding download_parquet
  download_parquet-IsComplete attempt keys h = elim (Result-cases (store.objects prefix attempt)) [
    | inr (e, raised) ↦ absurd (ground arith)
    | inl (entries, listed) ↦
        let (k, l) = download_objects-files attempt entries keys (ground arith) in
        record { entries = entries; listed = listed; all_keys = k; sizes = l }
  ]

  -- What is returned: the files of one complete attempt, and their rows.
  abbrev pub IsDownloaded : ℕ → ℕ → List String → ℕ → Type 0
  IsDownloaded first last keys rows =
      (attempt : ℕ) × (first ≤ attempt)
      × (attempt ≤ last)
      × IsComplete attempt keys
      × ((keys ≡ []) × (rows ≡ 0) ⊎ (store.count_rows prefix attempt ≡ ok rows))

  with_count-cases :
      (attempt : ℕ) (found keys : List String) (rows : ℕ)
      → with_count store prefix attempt found ≡ ok (keys, rows)
      → (found ≡ keys) × ((keys ≡ []) × (rows ≡ 0) ⊎ (store.count_rows prefix attempt ≡ ok rows))
  with_count-cases attempt [] keys rows h = (ground arith, inl (ground arith, ground arith))
  with_count-cases attempt (key ∷ found) keys rows h =
      let (n, counted, e) =
        bind-eq-ok (store.count_rows prefix attempt) (λ rows. ok (key ∷ found, rows)) h in
      (ground arith, inr (ground arith))

  found-IsDownloaded :
      (left attempt : ℕ) (found keys : List String) (rows : ℕ)
      → download_parquet store prefix attempt ≡ files found
      → with_count store prefix attempt found ≡ ok (keys, rows)
      → IsDownloaded attempt (attempt + left) keys rows
  found-IsDownloaded left attempt found keys rows e h =
      let (same, counted) = with_count-cases attempt found keys rows h in
      (
        attempt,
        omega arith,
        omega arith,
        subst (IsComplete attempt) same (download_parquet-IsComplete attempt found e),
        counted,
      )

  Download-cases :
      (d : Download)
      → ((keys : List String) × (d ≡ files keys)) ⊎ (d ≡ mismatch) ⊎ ((e : Error) × (d ≡ failed e))
  Download-cases (files keys) = inl (keys, refl)
  Download-cases mismatch = inr (inl refl)
  Download-cases (failed e) = inr (inr (e, refl))

  retry_download-IsDownloaded :
      (left attempt : ℕ) (keys : List String) (rows : ℕ)
      → retry_download store prefix left attempt ≡ ok (keys, rows)
      → IsDownloaded attempt (attempt + left) keys rows
  unfolding retry_download
  retry_download-IsDownloaded zero attempt keys rows h =
      elim (Download-cases (download_parquet store prefix attempt)) [
        | inl (found, e) ↦ found-IsDownloaded 0 attempt found keys rows e (ground arith)
        | inr (inl e) ↦ absurd (ground arith)
        | inr (inr (x, e)) ↦ absurd (ground arith)
      ]
  retry_download-IsDownloaded (suc left) attempt keys rows h =
      elim (Download-cases (download_parquet store prefix attempt)) [
        | inl (found, e) ↦ found-IsDownloaded (suc left) attempt found keys rows e (ground arith)
        | inr (inl e) ↦
            let (b, low, high, complete, counted) =
              retry_download-IsDownloaded left (suc attempt) keys rows (ground arith) in
            (b, omega arith, omega arith, complete, counted)
        | inr (inr (x, e)) ↦ absurd (ground arith)
      ]

  -- A download that returns took one to five attempts, and the files are those of the last one: all
  -- that it listed, none truncated, with the count of their rows, which is 0 where there are none.
  pub download_with_retry-IsDownloaded :
      (keys : List String) (rows : ℕ)
      → download_with_retry store prefix ≡ ok (keys, rows)
      → IsDownloaded 1 5 keys rows
  unfolding download_with_retry
  download_with_retry-IsDownloaded keys rows h = retry_download-IsDownloaded 4 1 keys rows h
