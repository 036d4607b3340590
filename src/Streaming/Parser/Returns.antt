-- ===== src/Streaming/Parser/Returns.antt =====
-- Where a sequence of steps of src/millrace/streaming/parser.py returns early, and where it goes on.
use millrace.Base.{String, ◌≡◌, refl, Option, none, some, Result, ok, raise}
use millrace.Streaming.Models.{ReasonCode}
use millrace.Streaming.Parser.{Parse, next, reject, throw, ◌>>=◌, lift, require, reject_error}

-- The step that returns early.
module _ {A B : Type 0} {c : ReasonCode} {d : String} {P : Type 0} where
  pub Rejects-bind :
      (m : Parse A) (f : A → Parse B)
      → (m >>= f) ≡ reject c d
      → (m ≡ reject c d → P)
      → ((a : A) → m ≡ next a → f a ≡ reject c d → P)
      → P
  Rejects-bind (next a) f h now later = later a refl h
  Rejects-bind (reject code detail) f h now later = now cc
  Rejects-bind (throw e) f h now later = absurd cc

  pub Rejects-require :
      (o : Option A) (code : ReasonCode) (detail : String) (f : A → Parse B)
      → (require o code detail >>= f) ≡ reject c d
      → (o ≡ none → code ≡ c → P)
      → ((a : A) → o ≡ some a → f a ≡ reject c d → P)
      → P
  Rejects-require none code detail f h now later = now refl cc
  Rejects-require (some a) code detail f h now later = later a refl h

  pub Rejects-lift :
      (r : Result A) (f : A → Parse B)
      → (lift r >>= f) ≡ reject c d
      → ((a : A) → r ≡ ok a → f a ≡ reject c d → P)
      → P
  Rejects-lift (ok a) f h later = later a refl h
  Rejects-lift (raise e) f h later = absurd cc

-- The steps that go on.
module _ {A B : Type 0} {b : B} {P : Type 0} where
  pub Accepts-require :
      (o : Option A) (code : ReasonCode) (detail : String) (f : A → Parse B)
      → (require o code detail >>= f) ≡ next b
      → ((a : A) → o ≡ some a → f a ≡ next b → P)
      → P
  Accepts-require none code detail f h later = absurd cc
  Accepts-require (some a) code detail f h later = later a refl h

  pub Accepts-lift :
      (r : Result A) (f : A → Parse B)
      → (lift r >>= f) ≡ next b
      → ((a : A) → r ≡ ok a → f a ≡ next b → P)
      → P
  Accepts-lift (ok a) f h later = later a refl h
  Accepts-lift (raise e) f h later = absurd cc

module _ {B : Type 0} {b : B} {P : Type 0} where
  pub Accepts-error :
      (error : Option String) (code : ReasonCode) (f : Unit {0} → Parse B)
      → (reject_error error code >>= f) ≡ next b
      → (error ≡ none → f tt ≡ next b → P)
      → P
  Accepts-error none code f h later = later refl h
  Accepts-error (some e) code f h later = absurd cc

module _ {B : Type 0} {c : ReasonCode} {d : String} {P : Type 0} where
  pub Rejects-error :
      (error : Option String) (code : ReasonCode) (f : Unit {0} → Parse B)
      → (reject_error error code >>= f) ≡ reject c d
      → ((e : String) → error ≡ some e → code ≡ c → P)
      → (error ≡ none → f tt ≡ reject c d → P)
      → P
  Rejects-error none code f h now later = later refl h
  Rejects-error (some e) code f h now later = now e refl cc

pub next-path : {A : Type 0} {a b : A} → next a ≡ next b → a ≡ b
next-path h = cc
