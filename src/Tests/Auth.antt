-- ===== src/Tests/Auth.antt =====
-- Login and the guards at concrete inputs.
use carbonledger.Base.{
  ◌≤◌, ◌≡◌, ◌⊎◌, refl, none, some, true, false, [], ◌∷◌, arith, str_eq, Option, if◌then◌else◌,
}
use carbonledger.Prisma.Memory.{memory}
use carbonledger.Schema.{Role, User}
use carbonledger.Action.{ok, err, unauthorized}
use carbonledger.Auth.Service.{
  AuthState, Challenge, Claims, Stellar, message_of, issue_token_pair, verify_signature_and_login,
}
use carbonledger.Auth.Login.{login_sound, replay_is_refused}
use carbonledger.Auth.Guards.{Bearer, Route, Caller, roles_guard, OracleRequest}
use carbonledger.Auth.Access.{IsOneOf, roles_guard_sound}
use carbonledger.Auth.LoginLimit.{Counters, allowed, login_limit}
use carbonledger.Tests.Samples.{sample}

-- A signature is the message itself.
abbrev toy : Stellar
toy = record {
  is_public_key = λ key. true;
  verify = λ key message signature. str_eq message signature;
}

abbrev challenge : Challenge
challenge = record { nonce = "n"; expires_at = 500 }

abbrev asked_for : AuthState memory
asked_for = record {
  db = sample;
  nonce_store = λ key. if str_eq key "new" then some challenge else none;
}

signed :
    (verify_signature_and_login memory toy "new" "carbonledger:n" "n" Role.admin 400 asked_for).0
    ≡ ok (issue_token_pair "new" Role.admin)
unfolding verify_signature_and_login issue_token_pair
signed = refl

login_sound_example :
    (c : Challenge) × (asked_for.nonce_store "new" ≡ some c)
    × (c.nonce ≡ "n")
    × (400 ≤ c.expires_at)
    × (toy.verify "new" (message_of "n") "carbonledger:n" ≡ true)
login_sound_example =
    login_sound memory toy "new" "carbonledger:n" "n" Role.admin 400 asked_for signed

replay_is_refused_example :
    let after_first =
      (verify_signature_and_login memory toy "new" "carbonledger:n" "n" Role.admin 400
        asked_for).1 in
    verify_signature_and_login memory toy "new" "carbonledger:n" "n" Role.corporation 410
      after_first
    ≡ (err (unauthorized "Invalid or expired challenge"), after_first)
replay_is_refused_example =
    replay_is_refused memory toy "new" "n" "carbonledger:n" "carbonledger:n" Role.admin
      Role.corporation 400 410 asked_for {challenge = challenge} refl refl refl

abbrev payload : Claims
payload = record { sub = "own"; role = Role.admin; type = "access" }

abbrev developers : Route
developers = record { is_public = false; required_roles = Role.project_developer ∷ [] }

abbrev attached : Option Caller
attached = some (record { public_key = "own"; role = Role.project_developer })

passed : roles_guard memory developers (Bearer.claims payload) sample.users ≡ ok attached
unfolding roles_guard
passed = refl

roles_guard_sound_example :
    (p : Claims) × (user : User) × (Bearer.claims payload ≡ Bearer.claims p)
    × (p.type ≡ "access")
    × (memory.find_unique p.sub sample.users ≡ some user)
    × (attached ≡ some (record { public_key = user.public_key; role = user.role }))
    × ((developers.required_roles ≡ []) ⊎ IsOneOf user.role developers.required_roles)
roles_guard_sound_example =
    roles_guard_sound memory developers (Bearer.claims payload) sample.users refl passed

abbrev report : OracleRequest
report = record {
  signature = "oracle:1000:{}";
  timestamp = "1000";
  timestamp_ms = some 1000;
  raw_body = "{}";
}

abbrev no_counters : Counters
no_counters ip = none

login_limit_example :
    allowed "1.2.3.4"
      (("1.2.3.4", 0) ∷ ("1.2.3.4", 10) ∷ ("5.6.7.8", 20) ∷ ("1.2.3.4", 30) ∷ [])
      no_counters
    ≤ 5
login_limit_example =
    login_limit "1.2.3.4" 0 (("1.2.3.4", 10) ∷ ("5.6.7.8", 20) ∷ ("1.2.3.4", 30) ∷ []) no_counters
      refl (λ e. omega arith, (λ e. omega arith, (λ e. omega arith, tt)))
