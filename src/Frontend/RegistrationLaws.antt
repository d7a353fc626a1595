-- ===== src/Frontend/RegistrationLaws.antt =====
-- frontend/components/ProjectRegistrationForm.tsx: what is sent has passed the checks of the first step,
-- and documents that were picked may be missing from it.
use carbonledger.Base.{
  ℕ, ◌≤◌, ◌<◌, ◌==◌, ◌&&◌, not, ◌≡◌, refl, Bool, true, false, Option, none, some, List, [], ◌∷◌,
  ◌++◌, if◌then◌else◌, arith, inl, inr, Bool-cases, All,
}
use carbonledger.Frontend.Texts.{Text}
use carbonledger.Frontend.Registration.{
  FormState, Key, documents_cid, State, none_left, errors_of_step0, errors_of_step1, advance,
  submit, uploaded, answered, upload_to_ipfs, Event, type_in, pick_file, press_upload, press_next,
  press_back, press_submit, upload_answer, submit_answer, is_offered, react, event, next_step,
}

module _ (magnitude : Text → Option ℕ) where
  abbrev pub IsValid : FormState → Type 0
  IsValid f = none_left (errors_of_step0 magnitude f) ≡ true

  -- Past the first step the form is valid, and so is every form that was sent.
  pub record IsSound (s : State) : Type 0 where
    pub bound : s.step ≤ 2
    pub passed : 0 < s.step → IsValid s.form
    pub sent : All IsValid s.sent

  append-All :
      (fs : List FormState) (f : FormState)
      → All IsValid fs
      → IsValid f
      → All IsValid (fs ++ f ∷ [])
  append-All [] f all v = (v, tt)
  append-All (g ∷ fs) f (h, all) v = (h, append-All fs f all v)

  -- The documents are no part of the first step.
  set_documents-IsValid :
      (t : Text) (f : FormState) → IsValid f → IsValid (record f { documents_cid = t })
  unfolding errors_of_step0
  set_documents-IsValid t f v = v

  type_in-IsSound :
      (key : Key) (t : Text) (s : State)
      → is_offered (type_in key t) s ≡ true
      → IsSound s
      → IsSound (react magnitude (type_in key t) s)
  unfolding is_offered react
  type_in-IsSound documents_cid t s h i = record {
    bound = i.bound;
    passed = λ p. set_documents-IsValid t s.form (i.passed p);
    sent = i.sent;
  }
  type_in-IsSound _ t s h i = record { bound = i.bound; passed = λ p. ground arith; sent = i.sent }

  if-IsSound :
      (b : Bool) (x y : State)
      → (b ≡ true → IsSound x)
      → (b ≡ false → IsSound y)
      → IsSound (if b then x else y)
  if-IsSound true x y hx hy = hx refl
  if-IsSound false x y hx hy = hy refl

  -- On the way from the first step its checks have passed, and later they still hold.
  advance-IsValid :
      (s : State)
      → IsSound s
      → (s.step == 0) && not (none_left (errors_of_step0 magnitude s.form)) ≡ false
      → IsValid s.form
  advance-IsValid s i fine = elim (Bool-cases (s.step == 0)) [
    | inl first ↦ ground (arith, first)
    | inr later ↦ i.passed (ground (arith, later))
  ]

  advance-IsSound : (s : State) → s.step < 2 → IsSound s → IsSound (advance magnitude s)
  unfolding advance
  advance-IsSound s h i =
      if-IsSound ((s.step == 0) && not (none_left (errors_of_step0 magnitude s.form)))
        (record s { errors = errors_of_step0 magnitude s.form }) _
        (λ wrong. record { bound = i.bound; passed = i.passed; sent = i.sent })
        (λ fine.
          if-IsSound ((s.step == 1) && not (none_left (errors_of_step1 s)))
            (record s { errors = errors_of_step1 s }) (next_step s)
            (λ wrong. record { bound = i.bound; passed = i.passed; sent = i.sent })
            (λ last. record {
              bound = omega arith;
              passed = λ p. advance-IsValid s i fine;
              sent = i.sent;
            }))

  react-IsSound :
      (e : Event) (s : State) → is_offered e s ≡ true → IsSound s → IsSound (react magnitude e s)
  unfolding is_offered react upload_to_ipfs uploaded submit answered
  react-IsSound (type_in key t) s h i = type_in-IsSound key t s h i
  react-IsSound (pick_file any) s h i = record { bound = i.bound; passed = i.passed; sent = i.sent }
  react-IsSound press_upload s h i =
      if-IsSound s.doc_file (record s { uploading = true }) s
        (λ there. record { bound = i.bound; passed = i.passed; sent = i.sent }) (λ absent. i)
  react-IsSound press_next s h i = advance-IsSound s (ground arith) i
  react-IsSound press_back s h i = record {
    bound = omega (arith, i.bound);
    passed = λ p. i.passed (omega arith);
    sent = i.sent;
  }
  react-IsSound press_submit s h i = record {
    bound = i.bound;
    passed = i.passed;
    sent = append-All s.sent s.form i.sent (i.passed (ground arith));
  }
  react-IsSound (upload_answer none) s h i = record {
    bound = i.bound;
    passed = i.passed;
    sent = i.sent;
  }
  react-IsSound (upload_answer (some cid)) s h i = record {
    bound = i.bound;
    passed = λ p. set_documents-IsValid cid s.form (i.passed p);
    sent = i.sent;
  }
  react-IsSound (submit_answer ok) s h i = record {
    bound = i.bound;
    passed = i.passed;
    sent = i.sent;
  }

  unfoldable pub fill_in : List Event → State → State
  fill_in [] s = s
  fill_in (e ∷ es) s = fill_in es (event magnitude e s)

  -- Whatever a user does with the inputs and buttons that the form shows, and whenever uploads and
  -- submissions are answered, every form that is sent has passed the checks of the first step.
  pub fill_in-IsSound : (es : List Event) (s : State) → IsSound s → IsSound (fill_in es s)
  unfolding fill_in event
  fill_in-IsSound [] s i = i
  fill_in-IsSound (e ∷ es) s i = elim (Bool-cases (is_offered e s)) [
    | inl there ↦ rw there (fill_in-IsSound es (react magnitude e s) (react-IsSound e s there i))
    | inr absent ↦ rw absent (fill_in-IsSound es s i)
  ]
