-- ===== src/Validation/Publication/Views.antt =====
-- What the loop over the configured publications does to the views.
use mathlib.Core.Path.{subst}
use millrace.Base.{
  Result, raise, false, some, str_eq, String, List, [], ◌∷◌, ok, ◌≡◌, refl, ap, ◌∙◌, All,
}
use millrace.Base.Dict.{Dict, lookup, insert, lookup-insert_self, lookup-insert_ne}
use millrace.Contracts.{Platform, RunContext}
use millrace.Validation.Identifiers.{
  IdentifierCase, quote_identifier, quote_relation, render_relation,
}
use millrace.Validation.Models.{PublicationRule}
use millrace.Validation.Publication.{
  View, Session, Engine, rows_of, create_schema, create_schema_of, publish_view, publish_views,
}
use millrace.Validation.Publication.Rules.{Ends, Ends-and_then, Ends-lift, Ends-last}

-- The rows of the two control tables are the same, and the same transaction is open.
abbrev pub IsKept : Session → Session → Type 0
IsKept before after =
    (after.db.publication_runs ≡ before.db.publication_runs)
    × (after.db.validation_runs ≡ before.db.validation_runs)
    × (after.saved ≡ before.saved)

module _ (engine : Engine) (platform : Platform) (context : RunContext) where
  -- The view of a publication: the name it is written under, and the batch that it shows.
  abbrev pub IsViewOf : PublicationRule → String → View → Type 0
  IsViewOf publication name view =
      (relation : String) × (column : String) × (quote_relation IdentifierCase.preserve
          publication.view
        ≡ ok name)
      × (render_relation platform IdentifierCase.preserve publication.relation context
          ≡ ok relation)
      × (quote_identifier IdentifierCase.preserve publication.batch_column ≡ ok column)
      × (view ≡ rows_of relation column context.batch_id)

  abbrev pub IsPublished : PublicationRule → Session → Session → Type 0
  IsPublished publication before after =
      (name : String) × (view : View) × IsViewOf publication name view
      × (after.db.views ≡ insert (engine.relation_name name) view before.db.views)
      × IsKept before after

  -- The same transaction is open.
  abbrev pub IsOpen : Session → Session → Type 0
  IsOpen before after = after.saved ≡ before.saved

  abbrev HasSameViews : Session → Session → Type 0
  HasSameViews before after = IsKept before after × (after.db.views ≡ before.db.views)

  create_schema_of-Ends :
      (parts : List String) (session : Session)
      → Ends
          (λ _. HasSameViews session)
          (IsOpen session)
          (create_schema_of engine platform context parts session)
  create_schema_of-Ends [] session = ((refl, refl, refl), refl)
  create_schema_of-Ends (part ∷ parts) session =
      Ends-lift (λ _. HasSameViews session) (IsOpen session) _ _ session refl
        (λ name e.
          Ends-last (λ _. HasSameViews session) (IsOpen session) engine (create_schema name) session
            refl ((refl, refl, refl), refl))

  publish_view-Ends :
      (publication : PublicationRule) (session : Session)
      → Ends
          (λ _. IsPublished publication session)
          (IsOpen session)
          (publish_view engine platform context publication session)
  unfolding publish_view
  publish_view-Ends publication session =
      let Q : Unit {0} → Session → Type 0 = λ _. IsPublished publication session in
      let E = IsOpen session in
      Ends-lift Q E _ _ session refl (λ name named.
        Ends-and_then Q E (λ _. HasSameViews session) _ _ (create_schema_of-Ends _ session)
          (λ _ next kept. Ends-lift Q E _ _ next kept.0.2 (λ relation rendered.
            Ends-lift Q E _ _ next kept.0.2 (λ column quoted. Ends-last Q E engine _ next kept.0.2 (
              name,
              rows_of relation column context.batch_id,
              (relation, column, named, rendered, quoted, refl),
              ap (insert _ _) kept.1,
              kept.0,
            )))))

  -- The dict of views after the publications are written into it, one after the other.
  abbrev pub AreWritten : List PublicationRule → Dict View → Dict View → Type 0
  AreWritten [] before after = after ≡ before
  AreWritten (publication ∷ publications) before after =
      (name : String) × (view : View) × IsViewOf publication name view
      × AreWritten publications (insert (engine.relation_name name) view before) after

  abbrev pub HaveWritten : List PublicationRule → Session → Session → Type 0
  HaveWritten publications before after =
      AreWritten publications before.db.views after.db.views × IsKept before after

  HaveWritten-cons :
      (publication : PublicationRule) (publications : List PublicationRule) (before next : Session)
      → IsPublished publication before next
      → (r : Result (Unit {0}) × Session)
      → Ends (λ _. HaveWritten publications next) (IsOpen next) r
      → Ends (λ _. HaveWritten (publication ∷ publications) before) (IsOpen before) r
  HaveWritten-cons p ps before next (name, view, shown, written, kept) (ok _, after) (rest, keeps) =
      (
        (name, view, shown, subst (λ views. AreWritten ps views after.db.views) written rest),
        (keeps.0 ∙ kept.0, keeps.1 ∙ kept.1, keeps.2 ∙ kept.2),
      )
  HaveWritten-cons p ps before next (name, view, shown, written, kept) (raise e, after) keeps =
      keeps ∙ kept.2

  pub publish_views-Ends :
      (publications : List PublicationRule) (session : Session)
      → Ends
          (λ _. HaveWritten publications session)
          (IsOpen session)
          (publish_views engine platform context publications session)
  unfolding publish_views
  publish_views-Ends [] session = (refl, (refl, refl, refl))
  publish_views-Ends (publication ∷ publications) session =
      Ends-and_then (λ _. HaveWritten (publication ∷ publications) session) (IsOpen session)
        (λ _. IsPublished publication session) _ _ (publish_view-Ends publication session)
        (λ _ next published.
          HaveWritten-cons publication publications session next published
            (publish_views engine platform context publications next)
            (publish_views-Ends publications next))

  -- The relation that a publication's view is, once its name is quoted.
  abbrev pub quoted : Result String → String
  quoted (ok name) = name
  quoted (raise e) = String.[]

  abbrev pub shown_name : PublicationRule → String
  shown_name publication =
      engine.relation_name (quoted (quote_relation IdentifierCase.preserve publication.view))

  abbrev pub AvoidsName : String → List PublicationRule → Type 0
  AvoidsName name publications = All (λ p. str_eq (shown_name p) name ≡ false) publications

  -- No two publications write the same view.
  abbrev pub HasDistinctViews : List PublicationRule → Type 0
  HasDistinctViews [] = Unit
  HasDistinctViews (publication ∷ publications) =
      AvoidsName (shown_name publication) publications × HasDistinctViews publications

  -- The view of the publication shows the batch.
  abbrev pub IsShown : Dict View → PublicationRule → Type 0
  IsShown views publication =
      (name : String) × (view : View) × IsViewOf publication name view
      × (lookup (engine.relation_name name) views ≡ some view)

  pub shown_name-quoted :
      (publication : PublicationRule) (name : String)
      → quote_relation IdentifierCase.preserve publication.view ≡ ok name
      → shown_name publication ≡ engine.relation_name name
  shown_name-quoted publication name e = ap (λ r. engine.relation_name (quoted r)) e

  lookup-AreWritten :
      (key : String) (publications : List PublicationRule) (before after : Dict View)
      → AvoidsName key publications
      → AreWritten publications before after
      → lookup key after ≡ lookup key before
  lookup-AreWritten key [] before after d w = ap (lookup key) w
  lookup-AreWritten key (p ∷ ps) before after d (name, view, shown, w) =
      lookup-AreWritten key ps _ after d.1 w
      ∙ lookup-insert_ne _ key view before
          (subst (λ n. str_eq n key ≡ false) (shown_name-quoted p name shown.2) d.0)

  pub AreWritten-IsShown :
      (publications : List PublicationRule) (before after : Dict View)
      → HasDistinctViews publications
      → AreWritten publications before after
      → All (IsShown after) publications
  AreWritten-IsShown [] before after d w = tt
  AreWritten-IsShown (p ∷ ps) before after d (name, view, shown, w) = (
    (
      name,
      view,
      shown,
      lookup-AreWritten _ ps _ after
            (subst (λ n. AvoidsName n ps) (shown_name-quoted p name shown.2) d.0) w
          ∙ lookup-insert_self _ view before,
    ),
    AreWritten-IsShown ps _ after d.1 w,
  )
