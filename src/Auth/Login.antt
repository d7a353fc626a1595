-- ===== src/Auth/Login.antt =====
-- What a login proves, and that a challenge serves once.
use carbonledger.Base.{ℕ, ◌≤◌, String, ◌≡◌, inl, inr, true, none, some, arith, eq_iff, Option-cases}
use carbonledger.Prisma.{Prisma}
use carbonledger.Schema.{User, Role}
use carbonledger.Action.{ok, err, unauthorized}
use carbonledger.Auth.Service.{
  AuthState, Challenge, TokenPair, Stellar, message_of, new_user, verify_signature_and_login,
}

module _ (prisma : Prisma) (stellar : Stellar) where
  -- The role of a key after a login: that of the stored user, or else the role that was asked for.
  abbrev pub role_of : String → Role → AuthState prisma → Role
  role_of key asked s = elim (prisma.find_unique {V = User} key s.db.users) [
    | none ↦ asked
    | some user ↦ user.role
  ]

  module _ (key signature nonce : String) (asked : Role) (now : ℕ) (s : AuthState prisma) where
    -- A login answers tokens only for an unexpired challenge that was issued to the key, with a
    -- signature of it by the key.
    pub login_sound :
        {tokens : TokenPair}
        → (verify_signature_and_login prisma stellar key signature nonce asked now s).0 ≡ ok tokens
        → (challenge : Challenge) × (s.nonce_store key ≡ some challenge)
          × (challenge.nonce ≡ nonce)
          × (now ≤ challenge.expires_at)
          × (stellar.verify key (message_of nonce) signature ≡ true)
    unfolding verify_signature_and_login
    login_sound e = elim (Option-cases (s.nonce_store key)) [
      | inl missing ↦ absurd (ground arith)
      | inr (challenge, found) ↦ (
        challenge,
        found,
        ground (arith, eq_iff challenge.nonce nonce),
        ground arith,
        ground arith,
      )
    ]

    -- After any attempt with the issued nonce of a valid key, whatever came of it, the challenge is gone.
    pub login_spends_nonce :
        {challenge : Challenge}
        → stellar.is_public_key key ≡ true
        → s.nonce_store key ≡ some challenge
        → challenge.nonce ≡ nonce
        → (verify_signature_and_login prisma stellar key signature nonce asked now s).1.nonce_store
            key
          ≡ none
    unfolding verify_signature_and_login
    login_spends_nonce {challenge} valid found e =
        ground (arith, eq_iff challenge.nonce nonce, eq_iff key key)

    -- The tokens carry the stored role of a known user; a new user gets whatever role was asked for.
    pub login_role :
        {tokens : TokenPair}
        → (verify_signature_and_login prisma stellar key signature nonce asked now s).0 ≡ ok tokens
        → (tokens.access_token.role ≡ role_of key asked s)
          × (tokens.refresh_token.role ≡ role_of key asked s)
    unfolding verify_signature_and_login
    login_role e =
        let stored = prisma.find-upsert_self key (λ user. user) (new_user key asked) s.db.users in
        elim (Option-cases (s.nonce_store key)) [
          | inl missing ↦ absurd (ground arith)
          | inr (challenge, found) ↦ (ground (arith, stored), ground (arith, stored))
        ]

  spent_is_refused :
      (key nonce signature : String) (asked : Role) (now : ℕ) (s : AuthState prisma)
      → stellar.is_public_key key ≡ true
      → s.nonce_store key ≡ none
      → verify_signature_and_login prisma stellar key signature nonce asked now s
        ≡ (err (unauthorized "Invalid or expired challenge"), s)
  unfolding verify_signature_and_login
  spent_is_refused key nonce signature asked now s valid spent = ground arith

  -- A second attempt with the same challenge is refused, with whatever signature and role it comes.
  pub replay_is_refused :
      (key nonce first second : String) (asked asked' : Role) (now later : ℕ) (s : AuthState prisma)
      {challenge : Challenge}
      → stellar.is_public_key key ≡ true
      → s.nonce_store key ≡ some challenge
      → challenge.nonce ≡ nonce
      → let after_first =
          (verify_signature_and_login prisma stellar key first nonce asked now s).1 in
        verify_signature_and_login prisma stellar key second nonce asked' later after_first
        ≡ (err (unauthorized "Invalid or expired challenge"), after_first)
  replay_is_refused key nonce first second asked asked' now later s valid found e =
      spent_is_refused key nonce second asked' later _ valid
        (login_spends_nonce key first nonce asked now s valid found e)
