-- ===== src/Base/Decimal.antt =====
-- `str(n)` and `f"{n:0wd}"` of a natural number.
use Prim.Native.Nat.{ℕ, zero, suc, ◌+◌, ◌-◌, ◌/◌, ◌%◌}
use Prim.Native.Char.{Char, nul}
use Prim.Native.String.{String}
use millrace.Base.Tests.{ltb, if◌then◌else◌}

char_at : String → ℕ → Char
char_at String.[] i = nul
char_at (String.◌∷◌ c s) zero = c
char_at (String.◌∷◌ c s) (suc i) = char_at s i

digit_char : ℕ → Char
unfolding char_at
digit_char d = char_at "0123456789" d

-- the digits of `n` before `acc`, with at most as many rounds as the first argument
show_digits : ℕ → ℕ → String → String
unfolding digit_char
show_digits zero n acc = acc
show_digits (suc fuel) n acc =
    let rest = show_digits fuel (n / 10) (String.◌∷◌ (digit_char (n % 10)) acc) in
    if ltb n 10 then String.◌∷◌ (digit_char n) acc else rest

-- `n + 1` rounds are enough: each divides by ten
unfoldable pub show : ℕ → String
unfolding show_digits
show n = show_digits (n + 1) n String.[]

count : String → ℕ
count String.[] = 0
count (String.◌∷◌ c s) = suc (count s)

pad : ℕ → String → String
unfolding digit_char
pad zero s = s
pad (suc k) s = String.◌∷◌ (digit_char 0) (pad k s)

-- zeros on the left up to the width
unfoldable pub show_padded : ℕ → ℕ → String
unfolding show count pad
show_padded width n = pad (width - count (show n)) (show n)
