-- ===== src/Validation/Canonical/Framing.antt =====
-- How the digest of src/millrace/validation/canonical.py frames the texts that go into it.
use mathlib.Core.Path.{subst, ap₂}
use mathlib.Core.List.{append-nil, append_assoc}
use millrace.Base.{
  map_result, ℕ, String, List, [], ◌∷◌, ◌++◌, Result, ok, ◌≡◌, refl, sym, ap, ◌∙◌, ◌>>=◌,
  bind-eq-ok, ok-path, bind-ok₂, length, arith,
}
use millrace.Validation.Models.{ColumnRule}
use millrace.Validation.Canonical.{Conversions, Row, canonical_cell}
use millrace.Validation.Canonical.Checksum.{
  to_bytes, KeyedRow, update_digest, digest_cells, digest_rows,
}

to_bytes_injective :
    (n m : ℕ) (bytes : List ℕ) → to_bytes n ≡ ok bytes → to_bytes m ≡ ok bytes → n ≡ m
unfolding to_bytes
to_bytes_injective n m bytes h k = ground arith

length-to_bytes : (n : ℕ) (bytes : List ℕ) → to_bytes n ≡ ok bytes → length bytes ≡ 8
unfolding to_bytes
length-to_bytes n bytes h = ground arith

-- Two joins with fronts of one length have equal fronts and equal ends.
append-split :
    (xs ys ws zs : List ℕ) → length xs ≡ length ys → xs ++ ws ≡ ys ++ zs → (xs ≡ ys) × (ws ≡ zs)
append-split [] [] ws zs h e = (refl, e)
append-split [] (y ∷ ys) ws zs h e = ground arith
append-split (x ∷ xs) [] ws zs h e = ground arith
append-split (x ∷ xs) (y ∷ ys) ws zs h e =
    let head : x ≡ y = cc in
    let tail : xs ++ ws ≡ ys ++ zs = cc in
    let (p, q) = append-split xs ys ws zs (ground arith) tail in (ap₂ (λ a l. a ∷ l) head p, q)

module _ (py : Conversions) where
  -- UTF-8 encodes no two texts alike.
  abbrev pub IsFaithful : Type 0
  IsFaithful =
      (s t : String) (bytes : List ℕ) → py.encode s ≡ ok bytes → py.encode t ≡ ok bytes → s ≡ t

  -- The bytes are the texts, each one after its length in eight bytes.
  abbrev pub IsFramed : List String → List ℕ → Type 0
  IsFramed [] bytes = bytes ≡ []
  IsFramed (t ∷ ts) bytes =
      (encoded : List ℕ) × (size : List ℕ) × (rest : List ℕ) × (py.encode t ≡ ok encoded)
      × (to_bytes (length encoded) ≡ ok size)
      × (bytes ≡ size ++ (encoded ++ rest))
      × IsFramed ts rest

  no-frame :
      (t : String) (ts : List String) (bytes : List ℕ) → IsFramed (t ∷ ts) bytes → bytes ≡ [] → ⊥
  no-frame t ts bytes (encoded, [], rest, e, s, b, k) h =
      let bad = length-to_bytes (length encoded) [] s in ground arith
  no-frame t ts bytes (encoded, (x ∷ size), rest, e, s, b, k) h =
      let bad : [] ≡ x ∷ (size ++ (encoded ++ rest)) = sym h ∙ b in cc

  pub IsFramed-injective :
      IsFaithful
      → (ts us : List String) (bytes : List ℕ) → IsFramed ts bytes
      → IsFramed us bytes
      → ts ≡ us
  IsFramed-injective faithful [] [] bytes h k = refl
  IsFramed-injective faithful [] (u ∷ us) bytes h (encoded, size, rest, e, s, b, k) =
      absurd (no-frame u us bytes (encoded, size, rest, e, s, b, k) h)
  IsFramed-injective faithful (t ∷ ts) [] bytes (encoded, size, rest, e, s, b, h) k =
      absurd (no-frame t ts bytes (encoded, size, rest, e, s, b, h) k)
  IsFramed-injective faithful (t ∷ ts) (u ∷ us) bytes (xs, size, rest, e, s, b, h)
        (ys, size', rest', e', s', b', k) =
      let (sizes, ends) =
        append-split size size' _ _ (length-to_bytes _ size s ∙ sym (length-to_bytes _ size' s'))
          (sym b ∙ b') in
      let lengths = to_bytes_injective _ _ size s (s' ∙ ap ok (sym sizes)) in
      let (texts, rests) = append-split xs ys rest rest' lengths ends in
      ap₂ (λ a l. a ∷ l) (faithful t u xs e (e' ∙ ap ok (sym texts)))
        (IsFramed-injective faithful ts us rest h (subst (IsFramed us) (sym rests) k))

  IsFramed-append :
      (ts us : List String) (xs ys : List ℕ)
      → IsFramed ts xs
      → IsFramed us ys
      → IsFramed (ts ++ us) (xs ++ ys)
  IsFramed-append [] us xs ys h k = subst (λ zs. IsFramed us (zs ++ ys)) (sym h) k
  IsFramed-append (t ∷ ts) us xs ys (encoded, size, rest, e, s, b, h) k = (
    encoded,
    size,
    rest ++ ys,
    e,
    s,
    ap (λ zs. zs ++ ys) b
        ∙ (append_assoc size (encoded ++ rest) ys
            ∙ ap (λ zs. size ++ zs) (append_assoc encoded rest ys)),
    IsFramed-append ts us rest ys h k,
  )

  -- the canonical texts of rows, row after row
  unfoldable pub canonical_texts : List ColumnRule → List KeyedRow → Result (List String)
  canonical_texts columns [] = ok []
  canonical_texts columns ((key, row) ∷ rows) = map_result (canonical_cell py row) columns >>= λ ts.
      canonical_texts columns rows >>= λ us. ok (ts ++ us)

  abbrev pub IsDigestOf : Result (List String) → List ℕ → List ℕ → Type 0
  IsDigestOf texts before after =
      (ts : List String) × (bytes : List ℕ) × (texts ≡ ok ts)
      × (after ≡ before ++ bytes)
      × IsFramed ts bytes

  digest_cells-IsDigestOf :
      (row : Row) (columns : List ColumnRule) (before after : List ℕ)
      → digest_cells py row columns before ≡ ok after
      → IsDigestOf (map_result (canonical_cell py row) columns) before after
  unfolding digest_cells update_digest map_result
  digest_cells-IsDigestOf row [] before after h =
      ([], [], refl, sym (ok-path h) ∙ sym (append-nil before), refl)
  digest_cells-IsDigestOf row (column ∷ columns) before after h =
      let (t, e, k) = bind-eq-ok (canonical_cell py row column) _ h in
      let (next, u, l) = bind-eq-ok (update_digest py before t) _ k in
      let (encoded, e', u') = bind-eq-ok (py.encode t) _ u in
      let (size, s, form) = bind-eq-ok (to_bytes (length encoded)) _ u' in
      let (ts, bytes, e'', form', framed) = digest_cells-IsDigestOf row columns next after l in
      (
        t ∷ ts,
        size ++ (encoded ++ bytes),
        bind-ok₂ _ _ (λ a l. a ∷ l) t ts e e'',
        form'
            ∙ (ap (λ zs. zs ++ bytes) (sym (ok-path form))
                ∙ (append_assoc before (size ++ encoded) bytes
                    ∙ ap (λ zs. before ++ zs) (append_assoc size encoded bytes))),
        (encoded, size, bytes, e', s, refl, framed),
      )

  pub digest_rows-IsDigestOf :
      (columns : List ColumnRule) (rows : List KeyedRow) (before after : List ℕ)
      → digest_rows py columns rows before ≡ ok after
      → IsDigestOf (canonical_texts columns rows) before after
  unfolding digest_rows canonical_texts
  digest_rows-IsDigestOf columns [] before after h =
      ([], [], refl, sym (ok-path h) ∙ sym (append-nil before), refl)
  digest_rows-IsDigestOf columns ((key, row) ∷ rows) before after h =
      let (next, d, k) = bind-eq-ok (digest_cells py row columns before) _ h in
      let (ts, xs, e, form, framed) = digest_cells-IsDigestOf row columns before next d in
      let (us, ys, e', form', framed') = digest_rows-IsDigestOf columns rows next after k in
      (
        ts ++ us,
        xs ++ ys,
        bind-ok₂ _ _ (λ l m. l ++ m) ts us e e',
        form' ∙ (ap (λ zs. zs ++ ys) form ∙ append_assoc before xs ys),
        IsFramed-append ts us xs ys framed framed',
      )
