-- ===== src/Streaming/State/Ordering.antt =====
-- `_event_order` is a strict total order.
use millrace.Base.{
  true, false, arith, ◌≡◌, str_le_refl, str_le_total, str_le_trans, str_le_antisymm,
}
use millrace.Streaming.State.{Order, order_lt}

pub order_lt_irrefl : (a : Order) → order_lt a a ≡ false
unfolding order_lt
order_lt_irrefl a = ground (arith, str_le_refl a.payload)

pub order_lt_asymm : (a b : Order) → order_lt a b ≡ true → order_lt b a ≡ false
unfolding order_lt
order_lt_asymm a b h = ground (arith, str_le_total b.payload a.payload)

-- If neither comes first, the two are the same.
pub order_lt_connex : (a b : Order) → order_lt a b ≡ false → order_lt b a ≡ false → a ≡ b
unfolding order_lt
order_lt_connex a b h k = ground (arith, str_le_antisymm a.payload b.payload)

-- What does not come before `b`, which does not come before `c`, does not come before `c`.
pub order_ge_trans :
    (a b c : Order) → order_lt a b ≡ false → order_lt b c ≡ false → order_lt a c ≡ false
unfolding order_lt
order_ge_trans a b c h k = ground (arith, str_le_trans c.payload b.payload a.payload)
