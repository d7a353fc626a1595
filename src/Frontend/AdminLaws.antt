-- ===== src/Frontend/AdminLaws.antt =====
-- frontend/app/dashboard/Admin: what the page asks the server for.
use carbonledger.Base.{
  ◌+◌, ◌-◌, String, Bool, true, false, not, ◌&&◌, ◌||◌, Option, none, some, List, [], ◌∷◌, ◌++◌,
  ◌≡◌, refl, if◌then◌else◌, arith, All, length, ◌∙◌, ◌==◌, Bool-cases, inl, inr, length-append,
}
use carbonledger.Frontend.Texts.{Text, is_blank, is_space, trim, trim_start, trim_end}
use carbonledger.Frontend.Admin.{
  AdminProject, SuspendProjectPayload, ModalState, Page, Response, answer, unauthorized_401,
  api_error, load_all, loaded, open_modal, close_modal, ask, handle_suspend, suspension_answered,
}
use carbonledger.Frontend.AdminEvents.{is_authorized, is_open, is_confirmable}

abbrev is_asked : Option SuspendProjectPayload → Bool
is_asked none = false
is_asked (some q) = true

abbrev pub is_idle : Page → Bool
is_idle p = not (is_open p.modal) && (length p.sent == 0) && (p.loads == 0)

-- A suspension with a reason.
abbrev HasReason : SuspendProjectPayload → Type 0
HasReason q = is_blank q.reason ≡ false

pub record IsSound (p : Page) : Type 0 where
  pub reasons : All HasReason p.sent
  pub under_way : p.suspending ≡ is_asked p.asked
  pub answered : length p.sent ≡ p.answers + (if p.suspending then 1 else 0)
  pub closed : (is_authorized p.session.state || is_idle p) ≡ true

is_blank-trim_start : (t : Text) → is_blank (trim_start t) ≡ is_blank t
is_blank-trim_start [] = refl
is_blank-trim_start (c ∷ t) = elim (Bool-cases (is_space c)) [
  | inl e ↦ ground (arith, e, is_blank-trim_start t)
  | inr e ↦ ground (arith, e)
]

is_blank-trim_end : (t : Text) → is_blank (trim_end t) ≡ is_blank t
is_blank-trim_end [] = refl
is_blank-trim_end (c ∷ t) = elim (Bool-cases (is_blank (c ∷ t))) [
  | inl e ↦ ground (arith, e)
  | inr e ↦ ground (arith, e, is_blank-trim_end t)
]

is_blank-trim : (t : Text) → is_blank (trim t) ≡ is_blank t
is_blank-trim t = is_blank-trim_end (trim_start t) ∙ is_blank-trim_start t

pub if-IsSound :
    (b : Bool) (x y : Page)
    → (b ≡ true → IsSound x)
    → (b ≡ false → IsSound y)
    → IsSound (if b then x else y)
if-IsSound true x y hx hy = hx refl
if-IsSound false x y hx hy = hy refl

append-All :
    (qs : List SuspendProjectPayload) (q : SuspendProjectPayload)
    → All HasReason qs
    → HasReason q
    → All HasReason (qs ++ q ∷ [])
append-All [] q all h = (h, tt)
append-All (r ∷ qs) q (g, all) h = (g, append-All qs q all h)

ask-IsSound :
    (q : SuspendProjectPayload) (p : Page)
    → is_authorized p.session.state ≡ true
    → p.suspending ≡ false
    → HasReason q
    → IsSound p
    → IsSound (ask q p)
ask-IsSound q p open_ free h i =
    let none_left : length p.sent ≡ p.answers = ground (arith, i.answered, free) in
    record {
      reasons = append-All p.sent q i.reasons h;
      under_way = refl;
      answered = omega (arith, length-append p.sent (q ∷ []), none_left);
      closed = ground (arith, open_);
    }

pub handle_suspend-IsSound :
    (p : Page) (o : Option ModalState)
    → p.modal ≡ o
    → is_confirmable p ≡ true
    → IsSound p
    → IsSound (handle_suspend p)
unfolding handle_suspend is_confirmable
handle_suspend-IsSound p none e h i = absurd (ground (arith, e, h))
handle_suspend-IsSound p (some m) e h i =
    let q : SuspendProjectPayload = record { project_id = m.project_id; reason = trim p.reason } in
    let given : is_blank p.reason ≡ false = ground (arith, h) in
    let same : handle_suspend p ≡ ask q p = ground (arith, e, given) in
    rw same (
      ask-IsSound q p (ground (arith, e, i.closed)) (ground (arith, h))
        (is_blank-trim p.reason ∙ given) i)

pub suspension_answered-IsSound :
    (asked : SuspendProjectPayload) (r : Response String) (p : Page)
    → p.suspending ≡ true
    → IsSound p
    → IsSound (suspension_answered asked r p)
unfolding suspension_answered
suspension_answered-IsSound asked (answer hash) p busy i = record {
  reasons = i.reasons;
  under_way = refl;
  answered = ground (arith, i.answered, busy);
  closed = i.closed;
}
suspension_answered-IsSound asked unauthorized_401 p busy i = record {
  reasons = i.reasons;
  under_way = refl;
  answered = ground (arith, i.answered, busy);
  closed = i.closed;
}
suspension_answered-IsSound asked (api_error message) p busy i = record {
  reasons = i.reasons;
  under_way = refl;
  answered = ground (arith, i.answered, busy);
  closed = i.closed;
}

pub loaded-IsSound :
    (r : Response (List AdminProject)) (p : Page)
    → is_authorized p.session.state ≡ true
    → IsSound p
    → IsSound (loaded r (record p { loads = p.loads - 1 }))
unfolding loaded
loaded-IsSound (answer ps) p open_ i = record {
  reasons = i.reasons;
  under_way = i.under_way;
  answered = i.answered;
  closed = ground (arith, open_);
}
loaded-IsSound unauthorized_401 p open_ i = record {
  reasons = i.reasons;
  under_way = i.under_way;
  answered = i.answered;
  closed = ground (arith, open_);
}
loaded-IsSound (api_error message) p open_ i = record {
  reasons = i.reasons;
  under_way = i.under_way;
  answered = i.answered;
  closed = ground (arith, open_);
}

pub load_all-IsSound :
    (p : Page) → is_authorized p.session.state ≡ true → IsSound p → IsSound (load_all p)
unfolding load_all
load_all-IsSound p open_ i = record {
  reasons = i.reasons;
  under_way = i.under_way;
  answered = i.answered;
  closed = ground (arith, open_);
}

pub close_modal-IsSound : (p : Page) → is_open p.modal ≡ true → IsSound p → IsSound (close_modal p)
unfolding close_modal
close_modal-IsSound p h i =
    if-IsSound p.suspending p (record p { modal = none; error = none; tx_hash = none }) (λ busy. i)
      (λ free. record {
        reasons = i.reasons;
        under_way = i.under_way;
        answered = i.answered;
        closed = ground (arith, h, i.closed);
      })

pub open_modal-IsSound :
    (project : AdminProject) (p : Page)
    → is_authorized p.session.state ≡ true
    → IsSound p
    → IsSound (open_modal project p)
unfolding open_modal
open_modal-IsSound project p open_ i = record {
  reasons = i.reasons;
  under_way = i.under_way;
  answered = i.answered;
  closed = ground (arith, open_);
}
