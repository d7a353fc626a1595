-- ===== src/Auth/LoginLimit.antt =====
-- backend/src/auth/login-rate-limit.guard.ts: at most five logins a minute from one address.
use carbonledger.Base.{
  ℕ, ◌+◌, ◌-◌, ◌≤◌, String, ◌≡◌, ◌∙◌, Bool, true, false, Option, none, some, List, [], ◌∷◌, arith,
  ltb, leb, str_eq, eq_iff, if◌then◌else◌, Bool-cases, inl, inr,
}

pub record Counter : Type 0 where
  pub count : ℕ
  pub reset_at : ℕ

-- The guard's map of counters.
abbrev pub Counters : Type 0
Counters = String → Option Counter

abbrev pub limit : ℕ
limit = 5

abbrev pub window_ms : ℕ
window_ms = 60_000

abbrev pub fresh : ℕ → Counter
fresh now = record { count = 0; reset_at = now + window_ms }

-- The entry that the request counts in.
abbrev pub current : Option Counter → ℕ → Counter
current none now = fresh now
current (some entry) now = if ltb entry.reset_at now then fresh now else entry

-- The counters after a request, and whether it may go on; if not, the answer is 429.
unfoldable pub can_activate : String → ℕ → Counters → Counters × Bool
can_activate ip now counters =
    let entry = current (counters ip) now in
    let counted : Counter = record entry { count = entry.count + 1 } in
    (λ k. if str_eq k ip then some counted else counters k, leb counted.count limit)

-- The requests of one address that go on, in a run of requests from all addresses.
unfoldable pub allowed : String → List (String × ℕ) → Counters → ℕ
allowed ip [] counters = 0
allowed ip ((from, now) ∷ rest) counters =
    let (counters', goes_on) = can_activate from now counters in
    (if str_eq from ip then (if goes_on then 1 else 0) else 0) + allowed ip rest counters'

-- All requests of an address come no later than a time.
abbrev pub AreBy : String → ℕ → List (String × ℕ) → Type 0
AreBy ip by [] = Unit
AreBy ip by ((from, now) ∷ rest) = (from ≡ ip → now ≤ by) × AreBy ip by rest

count_self :
    (from ip : String) (now : ℕ) (counters : Counters) (c : Counter)
    → str_eq from ip ≡ true
    → counters ip ≡ some c
    → now ≤ c.reset_at
    → ((can_activate from now counters).0 ip ≡ some (record c { count = c.count + 1 }))
      × ((can_activate from now counters).1 ≡ leb (c.count + 1) limit)
unfolding can_activate
count_self from ip now counters c same found by =
    (ground (arith, eq_iff from ip, eq_iff ip from), ground (arith, eq_iff from ip))

count_other :
    (from ip : String) (now : ℕ) (counters : Counters)
    → str_eq from ip ≡ false
    → (can_activate from now counters).0 ip ≡ counters ip
unfolding can_activate
count_other from ip now counters other = ground (arith, eq_iff from ip, eq_iff ip from)

allowed_in_window :
    (ip : String) (rest : List (String × ℕ)) (counters : Counters) (c : Counter)
    → counters ip ≡ some c
    → AreBy ip c.reset_at rest
    → allowed ip rest counters ≤ limit - c.count
unfolding allowed
allowed_in_window ip [] counters c found by = omega arith
allowed_in_window ip ((from, now) ∷ rest) counters c found by = elim (Bool-cases (str_eq from ip)) [
  | inl same ↦
      let now_by : now ≤ c.reset_at = by.0 ((eq_iff from ip).0 same) in
      let counted : Counter = record c { count = c.count + 1 } in
      ground (
        arith,
        count_self from ip now counters c same found now_by,
        allowed_in_window ip rest (can_activate from now counters).0 counted
            (count_self from ip now counters c same found now_by).0 by.1,
      )
  | inr other ↦ ground (
    arith,
    allowed_in_window ip rest (can_activate from now counters).0 c
        (count_other from ip now counters other ∙ found) by.1,
  )
]

-- From the first request of an address on, no more than five go on in the minute that it starts,
-- whatever other addresses send meanwhile.
pub login_limit :
    (ip : String) (now : ℕ) (rest : List (String × ℕ)) (counters : Counters)
    → counters ip ≡ none
    → AreBy ip (now + window_ms) rest
    → allowed ip ((ip, now) ∷ rest) counters ≤ 5
unfolding allowed can_activate
login_limit ip now rest counters new by =
    let first : Counter = record { count = 1; reset_at = now + window_ms } in
    let counted : (can_activate ip now counters).0 ip ≡ some first = ground (arith, eq_iff ip ip) in
    ground (
      arith,
      eq_iff ip ip,
      allowed_in_window ip rest (can_activate ip now counters).0 first counted by,
    )
