-- ===== src/Frontend/Toasts.antt =====
-- frontend/components/Toast.tsx: the notifications of a page. The random identifier of a toast is an
-- argument.
use carbonledger.Base.{
  ℕ, zero, suc, ◌+◌, ◌-◌, ◌≤◌, ltb, String, Bool, true, false, ◌≡◌, List, [], ◌∷◌, ◌++◌, length,
  drop, str_eq, if◌then◌else◌, arith,
}

pub data ToastType : Type 0 where
  success error warning info : ToastType

pub record ToastMessage : Type 0 where
  pub id : String
  pub type_ : ToastType
  pub title : String

-- `next.length > 3 ? next.slice(next.length - 3) : next`
unfoldable pub latest : List ToastMessage → List ToastMessage
latest next = if ltb 3 (length next) then drop (length next - 3) next else next

unfoldable pub add_toast : ToastMessage → List ToastMessage → List ToastMessage
unfolding latest
add_toast toast prev = latest (prev ++ toast ∷ [])

unfoldable pub dismiss : String → List ToastMessage → List ToastMessage
dismiss id [] = []
dismiss id (t ∷ toasts) = let rest = dismiss id toasts in if str_eq t.id id then rest else t ∷ rest

-- An error stays until it is dismissed; the others go after 5 seconds.
abbrev pub stays : ToastMessage → Bool
stays toast = elim toast.type_ [ error ↦ true | _ ↦ false ]

length-drop-eq :
    (n : ℕ) (ts : List ToastMessage) → n ≤ length ts → length (drop n ts) + n ≡ length ts
length-drop-eq zero ts h = omega arith
length-drop-eq (suc n) [] h = absurd (omega arith)
length-drop-eq (suc n) (t ∷ ts) h = omega (arith, length-drop-eq n ts (omega arith))

pub add_toast-le :
    (toast : ToastMessage) (prev : List ToastMessage) → length (add_toast toast prev) ≤ 3
unfolding add_toast latest
add_toast-le toast prev =
    let next = prev ++ toast ∷ [] in ground (arith, length-drop-eq (length next - 3) next)

pub dismiss-le : (id : String) (ts : List ToastMessage) → length (dismiss id ts) ≤ length ts
unfolding dismiss
dismiss-le id [] = omega arith
dismiss-le id (t ∷ ts) = ground (arith, dismiss-le id ts)
