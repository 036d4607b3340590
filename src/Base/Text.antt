-- ===== src/Base/Text.antt =====
-- What the program uses of Python's `str`. A text is a native `String`, a list of code points, and
-- texts are ordered by code point, as Python's `<` orders them.
use Prim.Native.Nat.{ℕ, zero, suc}
use Prim.Native.Char.{Char, code}
use Prim.Native.String.{String, ◌++◌ as ◌<>◌}
use mathlib.Core.Path.{◌≡◌, refl, ap, ap₂, ◌∙◌}
use mathlib.Core.Bool.{Bool, true, false, ◌&&◌, ◌||◌}
use mathlib.Core.List.{List, [], ◌∷◌}
use mathlib.Core.Logic.{◌↔◌, ◌⊎◌, inl, inr}
use native.Mathlib.Omega.{arith}
use text.Mathlib.Text.{◌==◌ as eq_text}
use text.Mathlib.TextEquality.{Char-path, eq_iff}
use text.Mathlib.TextLemmas.{cons-append}
use millrace.Base.Tests.{Bool-cases, ltb, leb, ◌==◌, if◌then◌else◌}

-- `s == t`
unfoldable pub str_eq : String → String → Bool
str_eq s t = eq_text s t

pub str_eq_iff : (s t : String) → (str_eq s t ≡ true) ↔ (s ≡ t)
unfolding str_eq
str_eq_iff = eq_iff

pub str_eq_self : (s : String) → str_eq s s ≡ true
str_eq_self s = (str_eq_iff s s).1 refl

-- `s <= t`
unfoldable pub str_le : String → String → Bool
str_le String.[] t = true
str_le (String.◌∷◌ c s) String.[] = false
str_le (String.◌∷◌ c s) (String.◌∷◌ d t) =
    if ltb (code c) (code d) then true else (code c == code d) && str_le s t

pub str_le_refl : (s : String) → str_le s s ≡ true
unfolding str_le
str_le_refl String.[] = refl
str_le_refl (String.◌∷◌ c s) = ground (arith, str_le_refl s)

pub str_le_total : (s t : String) → str_le s t ≡ false → str_le t s ≡ true
unfolding str_le
str_le_total String.[] t h = ground arith
str_le_total (String.◌∷◌ c s) String.[] h = refl
str_le_total (String.◌∷◌ c s) (String.◌∷◌ d t) h = ground (arith, str_le_total s t)

pub str_le_trans : (s t u : String) → str_le s t ≡ true → str_le t u ≡ true → str_le s u ≡ true
unfolding str_le
str_le_trans String.[] t u h k = refl
str_le_trans (String.◌∷◌ c s) String.[] u h k = ground arith
str_le_trans (String.◌∷◌ c s) (String.◌∷◌ d t) String.[] h k = ground arith
str_le_trans (String.◌∷◌ c s) (String.◌∷◌ d t) (String.◌∷◌ e u) h k =
    ground (arith, str_le_trans s t u)

pub cons_path :
    (c d : Char) (s t : String) → code c ≡ code d → s ≡ t → String.◌∷◌ c s ≡ String.◌∷◌ d t
cons_path c d s t p q = ap₂ String.◌∷◌ (Char-path c d p) q

pub str_le_antisymm : (s t : String) → str_le s t ≡ true → str_le t s ≡ true → s ≡ t
unfolding str_le
str_le_antisymm String.[] String.[] h k = refl
str_le_antisymm String.[] (String.◌∷◌ d t) h k = ground arith
str_le_antisymm (String.◌∷◌ c s) String.[] h k = ground arith
str_le_antisymm (String.◌∷◌ c s) (String.◌∷◌ d t) h k =
    cons_path c d s t (ground arith) (str_le_antisymm s t (ground arith) (ground arith))

-- The characters that `str.strip` removes: Unicode white space.
unfoldable pub is_space : Char → Bool
is_space ch =
    let c = code ch in
    (leb 9 c && leb c 13)
    || (leb 28 c && leb c 32)
    || (c == 0x85)
    || (c == 0xa0)
    || (c == 0x1680)
    || (leb 0x2000 c && leb c 0x200a)
    || (c == 0x2028)
    || (c == 0x2029)
    || (c == 0x202f)
    || (c == 0x205f)
    || (c == 0x3000)

lstrip : String → String
lstrip String.[] = String.[]
lstrip (String.◌∷◌ c s) = let rest = lstrip s in if is_space c then rest else String.◌∷◌ c s

strip_end : Char → String → String
strip_end c String.[] = if is_space c then String.[] else String.◌∷◌ c String.[]
strip_end c (String.◌∷◌ d t) = String.◌∷◌ c (String.◌∷◌ d t)

rstrip : String → String
unfolding strip_end
rstrip String.[] = String.[]
rstrip (String.◌∷◌ c s) = strip_end c (rstrip s)

-- `s.strip()`
unfoldable pub strip : String → String
unfolding lstrip rstrip is_space
strip s = rstrip (lstrip s)

-- `s[:n]`
unfoldable pub first_chars : ℕ → String → String
first_chars zero s = ""
first_chars (suc n) String.[] = ""
first_chars (suc n) (String.◌∷◌ c s) = String.◌∷◌ c (first_chars n s)

-- `not s`
abbrev pub is_empty : String → Bool
is_empty String.[] = true
is_empty (String.◌∷◌ c s) = false

is_empty-strip_end : (c : Char) (s : String) → is_space c ≡ false → is_empty (strip_end c s) ≡ false
unfolding strip_end
is_empty-strip_end c String.[] h = ground arith
is_empty-strip_end c (String.◌∷◌ d t) h = refl

abbrev pub starts_visible : String → Bool
starts_visible String.[] = false
starts_visible (String.◌∷◌ c s) = if is_space c then false else true

-- a text that starts with a visible character is not empty without its outer spaces
pub is_empty-strip : (s : String) → starts_visible s ≡ true → is_empty (strip s) ≡ false
unfolding strip lstrip rstrip
is_empty-strip String.[] h = absurd (ground arith)
is_empty-strip (String.◌∷◌ c s) h = elim (Bool-cases (is_space c)) [
  | inl space ↦ absurd (ground arith)
  | inr visible ↦ rw (visible, rstrip) (is_empty-strip_end c (rstrip s) visible)
]

-- some character of the text is no space
unfoldable pub IsVisible : String → Type 0
IsVisible String.[] = ⊥
IsVisible (String.◌∷◌ c s) = (is_space c ≡ false) ⊎ IsVisible s

pub IsVisible-strip : (s : String) → is_empty (strip s) ≡ false → IsVisible s
unfolding strip lstrip rstrip IsVisible
IsVisible-strip String.[] h = cc
IsVisible-strip (String.◌∷◌ c s) h = elim (Bool-cases (is_space c)) [
  | inr visible ↦ inl visible
  | inl space ↦ inr (IsVisible-strip s (ground arith))
]

pub strip-IsVisible : (s : String) → IsVisible s → is_empty (strip s) ≡ false
unfolding strip lstrip rstrip IsVisible
strip-IsVisible String.[] v = absurd v
strip-IsVisible (String.◌∷◌ c s) v = elim (Bool-cases (is_space c)) [
  | inr visible ↦ is_empty-strip (String.◌∷◌ c s) (ground arith)
  | inl space ↦ elim v [
    | inl visible ↦ absurd (ground arith)
    | inr later ↦ rw space (strip-IsVisible s later)
  ]
]

pub starts_visible-append :
    (s t : String) → starts_visible s ≡ true → starts_visible (s <> t) ≡ true
starts_visible-append String.[] t h = absurd (ground arith)
starts_visible-append (String.◌∷◌ c s) t h = ap starts_visible (cons-append c s t) ∙ h

unfoldable pub push_char : Char → List String → List String
push_char c [] = (String.◌∷◌ c String.[]) ∷ []
push_char c (w ∷ ws) = (String.◌∷◌ c w) ∷ ws

-- `s.split(sep)` for a separator of one character, given by its code.
unfoldable pub split_on : ℕ → String → List String
unfolding push_char
split_on sep String.[] = String.[] ∷ []
split_on sep (String.◌∷◌ c s) =
    let rest = split_on sep s in if code c == sep then String.[] ∷ rest else push_char c rest

-- `sep.join(parts)`
unfoldable pub join : String → List String → String
join sep [] = String.[]
join sep (w ∷ []) = w
join sep (w ∷ v ∷ ws) = w <> (sep <> join sep (v ∷ ws))

-- `parts[-1]`, with "" for an empty list, which `split` never returns.
unfoldable pub last_part : List String → String
last_part [] = String.[]
last_part (w ∷ []) = w
last_part (w ∷ v ∷ ws) = last_part (v ∷ ws)

unfoldable pub but_last : List String → List String
but_last [] = []
but_last (w ∷ []) = []
but_last (w ∷ v ∷ ws) = w ∷ but_last (v ∷ ws)
