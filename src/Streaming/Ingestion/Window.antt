-- ===== src/Streaming/Ingestion/Window.antt =====
-- Spark's `row_number`, as documented, and the order of the window of `_write_snapshot`.
use millrace.Base.{
  ℕ, suc, String, Bool, true, false, Option, List, [], ◌∷◌, keep, ◌≡◌, ◌≢◌, arith, ◌⊎◌, ◌==◌, All,
  In, str_le_refl,
}
use millrace.Streaming.State.{Order, order_lt}
use millrace.Streaming.Ingestion.Lake.{BronzeRow}

module _ (key : BronzeRow → Option String) where
  -- No two rows have the same key.
  abbrev pub HasDistinctKeys : List (BronzeRow × ℕ) → Type 0
  HasDistinctKeys [] = Unit
  HasDistinctKeys (m ∷ ms) = All (λ n. key m.0 ≢ key n.0) ms × HasDistinctKeys ms

  -- Each key has exactly one row of number 1, which no row of its key comes before.
  pub record IsWindow (before : BronzeRow → BronzeRow → Bool) (rows : List BronzeRow)
      (ranked : List (BronzeRow × ℕ)) : Type 0 where
    pub kept : (r : BronzeRow) (n : ℕ) → In (r, n) ranked → In r rows
    pub first : (r : BronzeRow) → In r rows → (m : BronzeRow) × In (m, 1) ranked × (key m ≡ key r)
    pub top : (m r : BronzeRow) → In (m, 1) ranked → In r rows → key r ≡ key m → before r m ≡ false
    pub single : HasDistinctKeys (keep (λ ranked. ranked.1 == 1) ranked)

-- What a key of the window is ordered by, of what an event is ordered by.
abbrev pub place : Order → Order
place o = record {
  source_lsn = suc o.source_lsn;
  transaction_order = suc o.transaction_order;
  partition = o.partition;
  offset = o.offset;
  payload = "";
}

pub order_lt-place :
    (a b : Order)
    → order_lt a b ≡ true
    → (order_lt (place a) (place b) ≡ true) ⊎ ((a.partition ≡ b.partition) × (a.offset ≡ b.offset))
unfolding order_lt
order_lt-place a b h = ground arith

pub order_lt-place_connex :
    (a b : Order)
    → order_lt (place a) (place b) ≡ false
    → order_lt (place b) (place a) ≡ false
    → (a.partition ≡ b.partition) × (a.offset ≡ b.offset)
unfolding order_lt
order_lt-place_connex a b h k = ground arith

pub place-order_lt : (a b : Order) → order_lt (place a) (place b) ≡ true → order_lt a b ≡ true
unfolding order_lt
place-order_lt a b h = ground (arith, str_le_refl "")
