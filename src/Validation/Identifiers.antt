-- ===== src/Validation/Identifiers.antt =====
-- The quoting of SQL names in src/millrace/validation/configuration.py.
pub mod Quoting
use millrace.Base.{
  Option, none, some, ◌++◌, ◌>>◌, ℕ, String, ◌<>◌, Char, code, Bool, true, false, ◌&&◌, ◌||◌, not,
  List, [], ◌∷◌, Result, ok, raise, value_error, ◌>>=◌, raise_if, ◌>>◌, if◌then◌else◌, leb, ◌==◌,
  split_on, join, any, map_result, is_empty,
}
use millrace.Validation.Models.{EntityRule, PublicationRule, ReconciliationConfig, column_names}
use millrace.Contracts.{Platform, RunContext, storage_key}

pub data IdentifierCase : Type 0 where
  preserve upper : IdentifierCase

-- `[A-Za-z_]` and `[A-Za-z0-9_]`
unfoldable pub is_start : Char → Bool
is_start c =
    (leb b'A' (code c) && leb (code c) b'Z')
    || (leb b'a' (code c) && leb (code c) b'z')
    || (code c == b'_')

unfoldable pub is_part : Char → Bool
unfolding is_start
is_part c = is_start c || (leb b'0' (code c) && leb (code c) b'9')

unfoldable pub all_parts : String → Bool
all_parts String.[] = true
all_parts (String.◌∷◌ c s) = is_part c && all_parts s

-- `_IDENTIFIER.fullmatch`
unfoldable pub is_identifier : String → Bool
unfolding is_start all_parts
is_identifier String.[] = false
is_identifier (String.◌∷◌ c s) = is_start c && all_parts s

-- the character of the second text that stands where `c` stands in the first
translate : String → String → Char → Char
translate String.[] to c = c
translate (String.◌∷◌ a from) String.[] c = c
translate (String.◌∷◌ a from) (String.◌∷◌ b to) c =
    let rest = translate from to c in if code a == code c then b else rest

unfoldable pub upper_char : Char → Char
unfolding translate
upper_char c = translate "abcdefghijklmnopqrstuvwxyz" "ABCDEFGHIJKLMNOPQRSTUVWXYZ" c

-- `identifier.upper()`, for the ASCII letters that an identifier holds
unfoldable pub upper_text : String → String
upper_text String.[] = String.[]
upper_text (String.◌∷◌ c s) = String.◌∷◌ (upper_char c) (upper_text s)

unfoldable pub rendered : IdentifierCase → String → String
rendered IdentifierCase.preserve s = s
rendered IdentifierCase.upper s = upper_text s

unfoldable pub quote_identifier : IdentifierCase → String → Result String
quote_identifier case identifier =
    if is_identifier identifier
    then ok ("\"" <> (rendered case identifier <> "\""))
    else raise (value_error "unsafe SQL identifier")

unfoldable pub quote_relation : IdentifierCase → String → Result String
quote_relation case relation =
    let parts = split_on b'.' relation in
    if any is_empty parts
    then raise (value_error "invalid SQL relation")
    else map_result (quote_identifier case) parts >>= λ quoted. ok (join "." quoted)

-- `text.split("/", maxsplit=1)[1]`: what follows the first slash
unfoldable pub after_slash : String → String
after_slash String.[] = String.[]
after_slash (String.◌∷◌ c s) = if code c == b'/' then s else after_slash s

unfoldable pub candidate_schema : Platform → RunContext → String
candidate_schema platform context = "candidate_" <> after_slash (storage_key platform context)

-- whether the text begins with the prefix, and what follows it
drop_prefix : String → String → Bool × String
drop_prefix String.[] s = (true, s)
drop_prefix (String.◌∷◌ p ps) String.[] = (false, String.[])
drop_prefix (String.◌∷◌ p ps) (String.◌∷◌ c s) =
    let rest = drop_prefix ps s in if code p == code c then rest else (false, String.[])

-- `template.replace(old, new)`, from the left; the first argument bounds the rounds
pub replace_all : ℕ → String → String → String → String
unfolding drop_prefix
replace_all _ old new String.[] = String.[]
replace_all ℕ.zero old new s = s
replace_all (ℕ.suc fuel) old new (String.◌∷◌ c s) =
    let (found, rest) = drop_prefix old (String.◌∷◌ c s) in
    let replaced = new <> replace_all fuel old new rest in
    let kept = String.◌∷◌ c (replace_all fuel old new s) in if found then replaced else kept

unfoldable pub count_text : String → ℕ
count_text String.[] = 0
count_text (String.◌∷◌ c s) = ℕ.suc (count_text s)

abbrev pub placeholder : String
placeholder = "{candidate_schema}"

unfoldable pub render_template : String → String → String
unfolding replace_all count_text
render_template new template = replace_all (count_text template) placeholder new template

unfoldable pub render_relation : Platform → IdentifierCase → String → RunContext → Result String
render_relation platform case template context =
    quote_relation case (render_template (candidate_schema platform context) template)

abbrev pub quotes : String → Result (Unit {0})
quotes name = quote_identifier IdentifierCase.preserve name >>= λ _. ok tt

abbrev quotes_relation : String → Result (Unit {0})
quotes_relation relation = quote_relation IdentifierCase.preserve relation >>= λ _. ok tt

abbrev quotes_optional : Option String → Result (Unit {0})
quotes_optional none = ok tt
quotes_optional (some name) = quotes name

-- `_validate_relation_template`
unfoldable pub validate_relation_template : String → Result (Unit {0})
validate_relation_template template = quotes_relation (render_template "candidate_schema" template)

unfoldable pub each : {A : Type 0} → (A → Result (Unit {0})) → List A → Result (Unit {0})
each f [] = ok tt
each f (x ∷ xs) = f x >>= λ _. each f xs

-- the rounds over the entities and the publications
unfoldable pub validate_entity_names : EntityRule → Result (Unit {0})
validate_entity_names entity = do
  quotes_relation entity.source.relation
  validate_relation_template entity.target.relation
  quotes entity.source.batch_column
  quotes entity.target.batch_column
  quotes_optional entity.source.sequence_column
  quotes_optional entity.source.deleted_column
  each quotes (entity.key_columns ++ column_names entity)

unfoldable pub validate_publication_names : PublicationRule → Result (Unit {0})
validate_publication_names publication = do
  quotes_relation publication.view
  validate_relation_template publication.relation
  quotes publication.batch_column

-- `_validate_identifiers`
unfoldable pub validate_identifiers : ReconciliationConfig → Result (Unit {0})
validate_identifiers config = do
  quotes config.control_schema
  quotes config.analytics_schema
  each validate_entity_names config.entities
  each validate_publication_names config.publications
