-- ===== src/Validation/Canonical/Agreement.antt =====
-- What an equal checksum of a column says of the rows of the source and of the candidate.
use mathlib.Core.Path.{subst, ap₂}
use millrace.Base.{
  ℕ, String, List, [], ◌∷◌, ◌++◌, Result, ok, ◌≡◌, ◌≢◌, refl, sym, ap, ◌∙◌, ◌⊎◌, inl, inr, ◌==◌,
  ◌>>=◌, bind-eq-ok, ok-path, Bool-cases, arith,
}
use millrace.Validation.Models.{ColumnRule}
use millrace.Validation.Canonical.{Conversions, Row}
use millrace.Validation.Canonical.Checksum.{digest_rows, ordered_rows, column_checksum}
use millrace.Validation.Canonical.Framing.{
  IsFaithful, IsFramed, IsFramed-injective, canonical_texts, IsDigestOf, digest_rows-IsDigestOf,
}

bytes-cases : (xs ys : List ℕ) → (xs ≡ ys) ⊎ (xs ≢ ys)
bytes-cases [] [] = inl refl
bytes-cases [] (y ∷ ys) = inr (λ e. cc)
bytes-cases (x ∷ xs) [] = inr (λ e. cc)
bytes-cases (x ∷ xs) (y ∷ ys) = elim (Bool-cases (x == y)) [
  | inr h ↦ inr (λ e. let head : x ≡ y = cc in ground arith)
  | inl h ↦ elim (bytes-cases xs ys) [
    | inl e ↦ inl (ap₂ (λ a l. a ∷ l) (ground arith) e)
    | inr n ↦ inr (λ e. n cc)
  ]
]

module _ (py : Conversions) where
  -- the canonical texts that go into the digest of a column, in the order of the keys
  unfoldable pub column_texts : List ColumnRule → ColumnRule → List Row → Result (List String)
  column_texts key_columns column rows =
      ordered_rows py key_columns rows >>= canonical_texts py (key_columns ++ column ∷ [])

  abbrev pub HasCollision : Type 0
  HasCollision = (xs : List ℕ) × (ys : List ℕ) × (xs ≢ ys) × (py.sha256_hex xs ≡ py.sha256_hex ys)

  column_checksum-IsDigestOf :
      (rows : List Row) (column : ColumnRule) (key_columns : List ColumnRule) (checksum : String)
      → column_checksum py rows column key_columns ≡ ok checksum
      → (bytes : List ℕ) × IsDigestOf py (column_texts key_columns column rows) [] bytes
        × (py.sha256_hex bytes ≡ checksum)
  unfolding column_checksum column_texts
  column_checksum-IsDigestOf rows column key_columns checksum h =
      let (ordered, e, k) = bind-eq-ok (ordered_rows py key_columns rows) _ h in
      let (bytes, d, l) = bind-eq-ok (digest_rows py (key_columns ++ column ∷ []) ordered []) _ k in
      let (ts, frames, texts, form, framed) = digest_rows-IsDigestOf py _ ordered [] bytes d in
      (
        bytes,
        (
          ts,
          frames,
          ap (λ r. r >>= canonical_texts py (key_columns ++ column ∷ [])) e ∙ texts,
          form,
          framed,
        ),
        ok-path l,
      )

  -- Where a column of the source and of the candidate have one checksum, both have the same
  -- canonical keys and values in the order of the keys, or SHA-256 collides.
  pub column_checksum-agreement :
      (source candidate : List Row) (column : ColumnRule) (key_columns : List ColumnRule)
      (checksum : String)
      → IsFaithful py
      → column_checksum py source column key_columns ≡ ok checksum
      → column_checksum py candidate column key_columns ≡ ok checksum
      → ((texts : List String) × (column_texts key_columns column source ≡ ok texts)
          × (column_texts key_columns column candidate ≡ ok texts))
        ⊎ HasCollision
  column_checksum-agreement source candidate column key_columns checksum faithful h k =
      let (xs, (ts, xs', e, form, framed), hx) =
        column_checksum-IsDigestOf source column key_columns checksum h in
      let (ys, (us, ys', e', form', framed'), hy) =
        column_checksum-IsDigestOf candidate column key_columns checksum k in
      elim (bytes-cases xs ys) [
        | inr n ↦ inr (xs, ys, n, hx ∙ sym hy)
        | inl same ↦
            let texts =
              IsFramed-injective py faithful ts us xs' framed
                (subst (IsFramed py us) (sym form' ∙ (sym same ∙ form)) framed') in
            inl (ts, e, e' ∙ ap ok (sym texts))
      ]
