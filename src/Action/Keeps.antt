-- ===== src/Action/Keeps.antt =====
-- Calls that keep an invariant of the state, whether they return or throw.
use carbonledger.Base.{inl, inr, Bool, true, false, Option, none, some}
use carbonledger.Action.{Action, Error, Result-cases, ◌>>=◌, ◌>>◌, throw_if, or_throw, try_catch}

abbrev pub Keeps : {S A : Type 0} → (S → Type 0) → Action S A → Type 0
Keeps {S} I m = (s : S) → I s → I (m s).1

module _ {S A : Type 0} (I : S → Type 0) where
  pub or_throw-Keeps : (o : Option A) (e : Error) → Keeps I (or_throw {S = S} o e)
  or_throw-Keeps none e s h = h
  or_throw-Keeps (some a) e s h = h

  pub try_catch-Keeps :
      (m : Action S A) (handler : Error → Action S A)
      → Keeps I m
      → ((e : Error) → Keeps I (handler e))
      → Keeps I (try_catch m handler)
  try_catch-Keeps m handler km kh s h = elim (Result-cases (m s).0) [
    | inl (a, e) ↦ rw (e, try_catch) (km s h)
    | inr (x, e) ↦ rw (e, try_catch) (kh x (m s).1 (km s h))
  ]

pub bind-Keeps :
    {S A B : Type 0} (I : S → Type 0) (m : Action S A) (k : A → Action S B)
    → Keeps I m
    → ((a : A) → Keeps I (k a))
    → Keeps I (m >>= k)
bind-Keeps I m k km kk s h = elim (Result-cases (m s).0) [
  | inl (a, e) ↦ rw (e, ◌>>=◌) (kk a (m s).1 (km s h))
  | inr (x, e) ↦ rw (e, ◌>>=◌) (km s h)
]

pub guard-Keeps :
    {S A : Type 0} (I : S → Type 0) (failed : Bool) (e : Error) (m : Action S A)
    → Keeps I m
    → Keeps I (throw_if failed e >> m)
guard-Keeps I true e m km s h = h
guard-Keeps I false e m km s h = km s h
