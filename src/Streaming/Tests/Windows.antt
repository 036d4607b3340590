-- ===== src/Streaming/Tests/Windows.antt =====
-- A `row_number` that meets what is asked of Spark's: it sorts the rows and counts each key.
use mathlib.Core.Path.{subst}
use millrace.Base.Sort
use millrace.Base.{
  ℕ, zero, suc, String, Bool, true, false, not, Option, none, some, List, [], ◌∷◌, keep, ◌≡◌, ◌≢◌,
  refl, sym, ap, ◌∙◌, arith, inl, inr, ◌==◌, str_eq, str_eq_iff, str_eq_self, if◌then◌else◌, All,
  All-In, All-intro, In, In-keep, Bool-cases,
}
use millrace.Streaming.State.Ordering.{order_lt_irrefl, order_lt_asymm, order_ge_trans}
use millrace.Streaming.Ingestion.Lake.{BronzeRow}
use millrace.Streaming.Ingestion.Snapshot.{window_key, window_order, comes_first}
use millrace.Streaming.Ingestion.Window.{IsWindow, HasDistinctKeys}

abbrev key_eq : Option String → Option String → Bool
key_eq none none = true
key_eq (some a) (some b) = str_eq a b
key_eq _ _ = false

key_eq_self : (k : Option String) → key_eq k k ≡ true
key_eq_self none = refl
key_eq_self (some a) = str_eq_self a

key_eq_path : (k j : Option String) → key_eq k j ≡ true → k ≡ j
key_eq_path none none h = refl
key_eq_path none (some b) h = cc
key_eq_path (some a) none h = cc
key_eq_path (some a) (some b) h = ap some ((str_eq_iff a b).0 h)

abbrev occurrences : Option String → List (Option String) → ℕ
occurrences k [] = 0
occurrences k (j ∷ seen) = let n = occurrences k seen in if key_eq j k then suc n else n

abbrev number :
    (BronzeRow → Option String) → List (Option String) → List BronzeRow → List (BronzeRow × ℕ)
number key seen [] = []
number key seen (r ∷ rows) = (r, suc (occurrences (key r) seen)) ∷ number key (key r ∷ seen) rows

abbrev in_order : (BronzeRow → BronzeRow → Bool) → BronzeRow → BronzeRow → Bool
in_order before a b = not (before b a)

abbrev pub row_number :
    (BronzeRow → Option String)
    → (BronzeRow → BronzeRow → Bool)
    → List BronzeRow
    → List (BronzeRow × ℕ)
row_number key before rows = number key [] (Sort.sort_by (in_order before) rows)

module _ (key : BronzeRow → Option String) where
  number_kept :
      (seen : List (Option String)) (rows : List BronzeRow) (r : BronzeRow) (n : ℕ)
      → In (r, n) (number key seen rows)
      → In r rows
  number_kept seen [] r n m = absurd m
  number_kept seen (x ∷ rows) r n (inl e) = inl (ap (λ p. p.0) e)
  number_kept seen (x ∷ rows) r n (inr m) = inr (number_kept (key x ∷ seen) rows r n m)

  number_first :
      (seen : List (Option String)) (rows : List BronzeRow) (r : BronzeRow)
      → In r rows
      → occurrences (key r) seen ≡ 0
      → (m : BronzeRow) × In (m, 1) (number key seen rows) × (key m ≡ key r)
  number_first seen [] r i h = absurd i
  number_first seen (x ∷ rows) r i h = elim (Bool-cases (key_eq (key x) (key r))) [
    | inl same ↦
        let e = key_eq_path (key x) (key r) same in
        (x, inl (λ q. (x, suc ((ap (λ k. occurrences k seen) e ∙ h) q))), e)
    | inr other ↦ elim i [
      | inl e ↦ cc (key_eq_self (key r), ap (λ z. key_eq (key z) (key r)) e)
      | inr j ↦ let (m, k, e) = number_first (key x ∷ seen) rows r j (rw other h) in (m, inr k, e)
    ]
  ]

  number_fresh :
      (seen : List (Option String)) (rows : List BronzeRow) (m : BronzeRow)
      → In (m, 1) (number key seen rows)
      → occurrences (key m) seen ≡ 0
  number_fresh seen [] m i = absurd i
  number_fresh seen (x ∷ rows) m (inl e) =
      let same = ap (λ p. p.0) e in
      let one : suc (occurrences (key x) seen) ≡ 1 = ap (λ p. p.1) e in
      ap (λ z. occurrences (key z) seen) (sym same) ∙ omega arith
  number_fresh seen (x ∷ rows) m (inr i) =
      let h = number_fresh (key x ∷ seen) rows m i in ground arith

  number_later :
      (seen : List (Option String)) (rows : List BronzeRow) (x m : BronzeRow)
      → In (m, 1) (number key (key x ∷ seen) rows)
      → key x ≢ key m
  number_later seen rows x m i same =
      let h = number_fresh (key x ∷ seen) rows m i in
      let t : key_eq (key x) (key m) ≡ true =
        ap (λ k. key_eq k (key m)) same ∙ key_eq_self (key m) in
      ground arith

  abbrev is_first : BronzeRow × ℕ → Bool
  is_first ranked = ranked.1 == 1

  cons_single :
      (x : BronzeRow) (n : ℕ) (ms : List (BronzeRow × ℕ))
      → All (λ m. key x ≢ key m.0) (keep is_first ms)
      → HasDistinctKeys key (keep is_first ms)
      → HasDistinctKeys key (keep is_first ((x, n) ∷ ms))
  cons_single x zero ms h k = k
  cons_single x (suc zero) ms h k = (h, k)
  cons_single x (suc (suc n)) ms h k =
      let other : (suc (suc n) == 1) ≡ false = ground arith in
      subst
        (λ b.
          HasDistinctKeys key
            (elim b [ true ↦ (x, suc (suc n)) ∷ keep is_first ms | false ↦ keep is_first ms ]))
        (sym other) k

  number_single :
      (seen : List (Option String)) (rows : List BronzeRow)
      → HasDistinctKeys key (keep is_first (number key seen rows))
  number_single seen [] = tt
  number_single seen (x ∷ rows) =
      cons_single x (suc (occurrences (key x) seen)) (number key (key x ∷ seen) rows)
        (All-intro (λ n. key x ≢ key n.0) _
          (λ n i.
            let (j, h) = (In-keep is_first n (number key (key x ∷ seen) rows)).0 i in
            let e : n.1 ≡ 1 = ground arith in
            number_later seen rows x n.0
              (subst (λ z. In z (number key (key x ∷ seen) rows)) (λ q. (n.0, e q)) j)))
        (number_single (key x ∷ seen) rows)

abbrev le_window : BronzeRow → BronzeRow → Bool
le_window = in_order comes_first

number_top :
    (seen : List (Option String)) (rows : List BronzeRow) (m r : BronzeRow)
    → Sort.IsSorted le_window rows
    → In (m, 1) (number window_key seen rows)
    → In r rows
    → window_key r ≡ window_key m
    → comes_first r m ≡ false
number_top seen [] m r s i j same = absurd i
number_top seen (x ∷ rows) m r s (inl e) (inl f) same =
    let one : m ≡ r = sym (ap (λ p. p.0) e) ∙ f in
    ap (λ z. comes_first r z) one ∙ order_lt_irrefl (window_order r)
number_top seen (x ∷ rows) m r s (inl e) (inr j) same =
    let le = All-In (λ z. le_window x z ≡ true) r rows s.0 j in
    subst (λ z. comes_first r z ≡ false) (ap (λ p. p.0) e) (ground arith)
number_top seen (x ∷ rows) m r s (inr i) (inl f) same =
    absurd (number_later window_key seen rows x m i (ap window_key f ∙ same))
number_top seen (x ∷ rows) m r s (inr i) (inr j) same =
    number_top (window_key x ∷ seen) rows m r s.1 i j same

le_window_trans :
    (x y z : BronzeRow) → le_window x y ≡ true → le_window y z ≡ true → le_window x z ≡ true
le_window_trans x y z h k =
    let p : comes_first z x ≡ false =
      order_ge_trans (window_order x) (window_order y) (window_order z) (ground arith)
        (ground arith) in
    rw p

le_window_total : (x y : BronzeRow) → le_window x y ≡ false → le_window y x ≡ true
le_window_total x y h =
    let p : comes_first x y ≡ false =
      order_lt_asymm (window_order x) (window_order y) (ground arith) in
    rw p

pub row_number-IsWindow :
    (rows : List BronzeRow)
    → IsWindow window_key comes_first rows (row_number window_key comes_first rows)
row_number-IsWindow rows =
    let sorted = Sort.sort_by le_window rows in
    record {
      kept = λ r n i. (Sort.In-sort_by le_window r rows).0 (number_kept window_key [] sorted r n i);
      first =
          λ r i. number_first window_key [] sorted r ((Sort.In-sort_by le_window r rows).1 i) refl;
      top = λ m r i j same.
          number_top [] sorted m r
            (Sort.sort_by-IsSorted le_window le_window_trans le_window_total rows) i
            ((Sort.In-sort_by le_window r rows).1 j) same;
      single = number_single window_key [] sorted;
    }
