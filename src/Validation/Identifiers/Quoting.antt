-- ===== src/Validation/Identifiers/Quoting.antt =====
-- Lemmas on `quote_identifier` and `quote_relation` of src/millrace/validation/configuration.py.
use text.Mathlib.TextLemmas.{nil-append, cons-append, append-nil, append_assoc}
use millrace.Base.{
  ℕ, String, ◌<>◌, Char, code, ◌≡◌, refl, sym, ap, ◌∙◌, arith, true, List, [], ◌∷◌, inl, inr, ok,
  bind-eq-ok, Bool-cases, if◌then◌else◌, ◌==◌, Option, none, some, map, false, split_on, push_char,
  join, map_result,
}
use millrace.Validation.Identifiers.{
  IdentifierCase, preserve, upper, is_part, all_parts, is_identifier, translate, upper_char,
  upper_text, rendered, quote_identifier, quote_relation,
}

-- Where a reader of a quoted relation stands: before a name, in one, or after one.
data Place : Type 0 where
  before within after : Place

abbrev named : Option (List String) → Option (List String)
named none = none
named (some names) = some (String.[] ∷ names)

abbrev pushed : Char → Option (List String) → Option (List String)
pushed c none = none
pushed c (some names) = some (push_char c names)

-- How SQL reads a relation of quoted names: each begins and ends with a double quote, anything but a
-- double quote stands between them, and dots stand between the names.
read_from : Place → String → Option (List String)
read_from before String.[] = none
read_from before (String.◌∷◌ c s) =
    let rest = read_from within s in if code c == b'"' then rest else none
read_from within String.[] = none
read_from within (String.◌∷◌ c s) =
    let end = read_from after s in
    let rest = read_from within s in if code c == b'"' then named end else pushed c rest
read_from after String.[] = some []
read_from after (String.◌∷◌ c s) =
    let rest = read_from before s in if code c == b'.' then rest else none

pub read_relation : String → Option (List String)
unfolding read_from
read_relation s = read_from before s

is_part-ne : (c : Char) → is_part c ≡ true → (code c == b'"') ≡ false
unfolding is_part
is_part-ne c h = ground arith

abbrev prepended : String → Option (List String) → Option (List String)
prepended name none = none
prepended name (some names) = some (name ∷ names)

pushed-prepended :
    (c : Char) (s : String) (o : Option (List String))
    → pushed c (prepended s o) ≡ prepended (String.◌∷◌ c s) o
unfolding push_char
pushed-prepended c s none = refl
pushed-prepended c s (some names) = refl

-- A name is read to the quote that ends it.
read_from-within :
    (s rest : String)
    → all_parts s ≡ true
    → read_from within (s <> ("\"" <> rest)) ≡ prepended s (read_from after rest)
unfolding read_from all_parts
read_from-within String.[] rest h =
    ap (read_from within)
      (nil-append _ ∙ (cons-append "\"" "" rest ∙ ap (String.◌∷◌ "\"") (nil-append rest)))
read_from-within (String.◌∷◌ c s) rest h =
    let other : (code c == b'"') ≡ false = is_part-ne c (ground arith) in
    ap (read_from within) (cons-append c s _)
    ∙ (rw other (ap (pushed c) (read_from-within s rest (ground arith)) ∙ pushed-prepended c s _))

is_identifier-all_parts : (s : String) → is_identifier s ≡ true → all_parts s ≡ true
unfolding is_identifier is_part
is_identifier-all_parts String.[] h = cc
is_identifier-all_parts (String.◌∷◌ c s) h = ground arith

translate-is_part :
    (from to : String) (c : Char)
    → all_parts to ≡ true
    → is_part c ≡ true
    → is_part (translate from to c) ≡ true
unfolding translate all_parts
translate-is_part String.[] to c h p = p
translate-is_part (String.◌∷◌ a from) String.[] c h p = p
translate-is_part (String.◌∷◌ a from) (String.◌∷◌ b to) c h p =
    elim (Bool-cases (code a == code c)) [
      | inl e ↦ rw e (ground arith)
      | inr e ↦ rw e (translate-is_part from to c (ground arith) p)
    ]

upper_char-is_part : (c : Char) → is_part c ≡ true → is_part (upper_char c) ≡ true
unfolding upper_char all_parts is_part
upper_char-is_part c h =
    translate-is_part "abcdefghijklmnopqrstuvwxyz" "ABCDEFGHIJKLMNOPQRSTUVWXYZ" c refl h

upper_text-all_parts : (s : String) → all_parts s ≡ true → all_parts (upper_text s) ≡ true
unfolding upper_text all_parts
upper_text-all_parts String.[] h = refl
upper_text-all_parts (String.◌∷◌ c s) h =
    ground (arith, upper_char-is_part c, upper_text-all_parts s)

rendered-all_parts :
    (case : IdentifierCase) (s : String) → all_parts s ≡ true → all_parts (rendered case s) ≡ true
unfolding rendered
rendered-all_parts preserve s h = h
rendered-all_parts upper s h = upper_text-all_parts s h

-- What is quoted is a name of letters, digits and underscores between two double quotes.
pub quote_identifier-IsName :
    (case : IdentifierCase) (s q : String)
    → quote_identifier case s ≡ ok q
    → (q ≡ "\"" <> (rendered case s <> "\""))
      × (is_identifier s ≡ true)
      × (all_parts (rendered case s) ≡ true)
unfolding quote_identifier
quote_identifier-IsName case s q h =
    let named : is_identifier s ≡ true = ground arith in
    (ground arith, named, rendered-all_parts case s (is_identifier-all_parts s named))

split_on-cases :
    (sep : ℕ) (s : String) → (w : String) × (ws : List String) × (split_on sep s ≡ w ∷ ws)
unfolding split_on push_char
split_on-cases sep String.[] = (String.[], [], refl)
split_on-cases sep (String.◌∷◌ c s) =
    let (w, ws, e) = split_on-cases sep s in
    elim (Bool-cases (code c == sep)) [
      | inl h ↦ rw h (String.[], split_on sep s, refl)
      | inr h ↦ rw h (rw e (String.◌∷◌ c w, ws, refl))
    ]

-- A quoted name is read before the rest.
read_from-quote_identifier :
    (case : IdentifierCase) (s q rest : String)
    → quote_identifier case s ≡ ok q
    → read_from before (q <> rest) ≡ prepended (rendered case s) (read_from after rest)
unfolding read_from
read_from-quote_identifier case s q rest h =
    let (form, is_name, parts) = quote_identifier-IsName case s q h in
    let r = rendered case s in
    ap (λ z. read_from before (z <> rest)) form
    ∙ (ap (read_from before) (
          append_assoc "\"" (r <> "\"") rest
          ∙ (ap (λ z. "\"" <> z) (append_assoc r "\"" rest)
              ∙ (cons-append "\"" "" _ ∙ ap (String.◌∷◌ "\"") (nil-append _))))
        ∙ read_from-within r rest parts)

-- The quoted parts are read as the names that they quote.
read_from-join :
    (case : IdentifierCase) (w : String) (parts quoted : List String)
    → map_result (quote_identifier case) (w ∷ parts) ≡ ok quoted
    → read_from before (join "." quoted) ≡ some (map (rendered case) (w ∷ parts))
unfolding join map_result read_from
read_from-join case w [] quoted h =
    let (q, e, k) = bind-eq-ok (quote_identifier case w) _ h in
    let shape : quoted ≡ q ∷ [] = cc in
    rw shape (ap (read_from before) (sym (append-nil q)) ∙ read_from-quote_identifier case w q "" e)
read_from-join case w (v ∷ parts) quoted h =
    let (q, e, k) = bind-eq-ok (quote_identifier case w) _ h in
    let (others, f, l) = bind-eq-ok (map_result (quote_identifier case) (v ∷ parts)) _ k in
    let (r, _, m) = bind-eq-ok (quote_identifier case v) _ f in
    let (ps, _, last) = bind-eq-ok (map_result (quote_identifier case) parts) _ m in
    let rest = read_from-join case v parts others f in
    let shape : quoted ≡ q ∷ r ∷ ps = cc in
    let tail : others ≡ r ∷ ps = cc in
    rw shape (
      read_from-quote_identifier case w q _ e
      ∙ ap (prepended (rendered case w)) (
          ap (read_from after) (
            cons-append "." "" (join "." (r ∷ ps))
            ∙ ap (String.◌∷◌ ".") (nil-append (join "." (r ∷ ps))))
          ∙ (ap (λ x. read_from before (join "." x)) (sym tail) ∙ rest)))

-- A relation that is quoted is read by SQL as its parts, in the case that was asked for.
pub read_relation-quote_relation :
    (case : IdentifierCase) (relation quoted : String)
    → quote_relation case relation ≡ ok quoted
    → read_relation quoted ≡ some (map (rendered case) (split_on b'.' relation))
unfolding quote_relation read_relation
read_relation-quote_relation case relation quoted h =
    let (w, ws, e) = split_on-cases b'.' relation in
    let (parts, f, k) =
      bind-eq-ok (map_result (quote_identifier case) (split_on b'.' relation))
        (λ qs. ok (join "." qs)) {out = quoted} (ground arith) in
    let shape : join "." parts ≡ quoted = cc in
    ap (read_from before) (sym shape)
    ∙ (read_from-join case w ws parts (ap (map_result (quote_identifier case)) (sym e) ∙ f)
        ∙ ap (λ x. some (map (rendered case) x)) (sym e))
