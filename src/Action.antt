-- ===== src/Action.antt =====
-- A call of a service method: state that survives a throw, and HTTP or database errors as values.
pub mod Keeps
use carbonledger.Base.{◌≡◌, refl, ◌⊎◌, inl, inr, String, Bool, Option, none, some, if◌then◌else◌}

-- The exceptions that the services throw (`plain` is an `Error` that is no HTTP exception), with the fixed part of the message where one class is
-- thrown for several reasons, and the two errors of the database client.
pub data Error : Type 0 where
  not_found conflict bad_request unprocessable forbidden unauthorized : String → Error
  plain internal : String → Error
  service_unavailable unique_violation record_missing : Error

pub data Result (A : Type 0) : Type 0 where
  ok : A → Result A
  err : Error → Result A

abbrev pub Action : Type 0 → Type 0 → Type 0
Action S A = S → Result A × S

module _ {S A : Type 0} where
  abbrev pub pure : A → Action S A
  pure a s = (ok a, s)

  abbrev pub throw : Error → Action S A
  throw e s = (err e, s)

  abbrev pub gets : (S → A) → Action S A
  gets f s = (ok (f s), s)

  abbrev pub or_throw : Option A → Error → Action S A
  or_throw none e = throw e
  or_throw (some a) e = pure a

abbrev pub modify : {S : Type 0} → (S → S) → Action S (Unit {0})
modify f s = (ok tt, f s)

-- `if (failed) throw e;`
abbrev pub throw_if : {S : Type 0} → Bool → Error → Action S (Unit {0})
throw_if failed e s = (if failed then err e else ok tt, s)

infixl 5 ◌>>=◌ ◌>>◌
abbrev pub ◌>>=◌ : {S A B : Type 0} → Action S A → (A → Action S B) → Action S B
◌>>=◌ m f s = let (r, s') = m s in elim r [ ok a ↦ f a s' | err e ↦ (err e, s') ]

abbrev pub ◌>>◌ : {S A B : Type 0} → Action S A → Action S B → Action S B
m >> k = m >>= λ _. k

-- The two branches of an `if` without `else` around a call for its effect.
abbrev pub when : {S : Type 0} → Bool → Action S (Unit {0}) → Action S (Unit {0})
when test m s = if test then m s else (ok tt, s)

-- `try { m } catch (e) { handler }`: what `m` wrote before it threw stays.
abbrev pub try_catch : {S A : Type 0} → Action S A → (Error → Action S A) → Action S A
try_catch m handler s = let (r, s') = m s in elim r [ ok a ↦ (ok a, s') | err e ↦ handler e s' ]

pub Result-cases :
    {A : Type 0} (r : Result A) → ((a : A) × (r ≡ ok a)) ⊎ ((e : Error) × (r ≡ err e))
Result-cases (ok a) = inl (a, refl)
Result-cases (err e) = inr (e, refl)
