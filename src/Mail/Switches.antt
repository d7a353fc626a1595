-- ===== src/Mail/Switches.antt =====
-- backend/src/notifications and backend/src/mail: what a change of the preferences means for the
-- e-mails that follow it.
use carbonledger.Base.{
  Bool, true, false, str_eq, ◌∙◌, ap, String, true, Option, none, some, [], ◌∷◌, ◌++◌, ◌≡◌, refl,
  if◌then◌else◌, arith,
}
use carbonledger.Prisma.{Prisma}
use carbonledger.Schema.{
  project_approved, credits_minted, purchase_confirmed, retirement_confirmed, MailEvent,
  NotificationPreference, User, Db,
}
use carbonledger.Action.{Result, ok, err, ◌>>◌}
use carbonledger.Tables.{users, find_unique}
use carbonledger.Tables.Laws.{update_found}
use carbonledger.Mail.{is_event_enabled, is_wanted, send_email, send_to, send_if_enabled}
use carbonledger.Mail.Preferences.{
  UpdateNotificationPreferencesDto, defaults, updated, created, upserted_preferences,
  preferences_of, with_preferences, get_preferences, update_preferences,
}

-- The first change of the preferences starts from the defaults.
upserted-updated :
    (dto : UpdateNotificationPreferencesDto) (o : Option NotificationPreference)
    → upserted_preferences dto o ≡ updated dto (elim o [ none ↦ defaults | some row ↦ row ])
unfolding updated created
upserted-updated dto none = refl
upserted-updated dto (some row) = refl

-- What a change says of the switch of an event, and how the switch stood before it.
abbrev pub asked_for : MailEvent → UpdateNotificationPreferencesDto → Option Bool
asked_for project_approved dto = dto.project_approved
asked_for credits_minted dto = dto.credits_minted
asked_for purchase_confirmed dto = dto.purchase_confirmed
asked_for retirement_confirmed dto = dto.retirement_confirmed

abbrev pub switched : MailEvent → Option NotificationPreference → Bool
switched event none = true
switched project_approved (some row) = row.project_approved
switched credits_minted (some row) = row.credits_minted
switched purchase_confirmed (some row) = row.purchase_confirmed
switched retirement_confirmed (some row) = row.retirement_confirmed

abbrev pub first_of : Option Bool → Bool → Bool
first_of none before = before
first_of (some b) before = b

is_event_enabled-updated :
    (event : MailEvent) (dto : UpdateNotificationPreferencesDto) (o : Option NotificationPreference)
    → is_event_enabled (upserted_preferences dto o) event
      ≡ first_of (asked_for event dto) (switched event o)
unfolding is_event_enabled updated created
is_event_enabled-updated project_approved dto none = ground arith
is_event_enabled-updated credits_minted dto none = ground arith
is_event_enabled-updated purchase_confirmed dto none = ground arith
is_event_enabled-updated retirement_confirmed dto none = ground arith
is_event_enabled-updated project_approved dto (some row) = ground arith
is_event_enabled-updated credits_minted dto (some row) = ground arith
is_event_enabled-updated purchase_confirmed dto (some row) = ground arith
is_event_enabled-updated retirement_confirmed dto (some row) = ground arith

updated-first_of :
    (dto : UpdateNotificationPreferencesDto)
    → updated dto ≡ (λ before. record {
      project_approved = first_of dto.project_approved before.project_approved;
      credits_minted = first_of dto.credits_minted before.credits_minted;
      purchase_confirmed = first_of dto.purchase_confirmed before.purchase_confirmed;
      retirement_confirmed = first_of dto.retirement_confirmed before.retirement_confirmed;
    })
unfolding updated
updated-first_of dto = refl

-- An answer passed through a function; an error stays.
abbrev pub with_answer : {A : Type 0} → (A → A) → Result A → Result A
with_answer f (ok a) = ok (f a)
with_answer f (err e) = err e

module _ {prisma : Prisma} where
  stored : String → UpdateNotificationPreferencesDto → User → Db prisma → Db prisma
  stored key dto user db = record db {
    users = prisma.upsert key (with_preferences dto) user db.users;
  }

  update_preferences-stored :
      (key : String) (dto : UpdateNotificationPreferencesDto) (user : User) (db : Db prisma)
      → prisma.find_unique key db.users ≡ some user
      → update_preferences key dto db
        ≡ (ok (upserted_preferences dto user.notification_preferences), stored key dto user db)
  unfolding update_preferences find_unique stored
  update_preferences-stored key dto user db e =
      ground (arith, e, update_found (users prisma) key (with_preferences dto) db e)

  find-stored :
      (key : String) (dto : UpdateNotificationPreferencesDto) (user : User) (db : Db prisma)
      → prisma.find_unique key db.users ≡ some user
      → prisma.find_unique key (stored key dto user db).users ≡ some (with_preferences dto user)
  unfolding stored
  find-stored key dto user db e =
      ground (arith, e, prisma.find-upsert_self key (with_preferences dto) user db.users)

  get_preferences-found :
      (key : String) (user : User) (db : Db prisma)
      → prisma.find_unique key db.users ≡ some user
      → get_preferences key db ≡ (ok (preferences_of user), db)
  unfolding get_preferences find_unique
  get_preferences-found key user db e = ground (arith, e)

  read_back_found :
      (key : String) (dto : UpdateNotificationPreferencesDto) (db : Db prisma) (user : User)
      → prisma.find_unique key db.users ≡ some user
      → ((update_preferences key dto >> get_preferences key) db).0
        ≡ with_answer (updated dto) (get_preferences key db).0
  read_back_found key dto db user e = ground (
    arith,
    update_preferences-stored key dto user db e,
    get_preferences-found key user db e,
    get_preferences-found key (with_preferences dto user) (stored key dto user db)
        (find-stored key dto user db e),
    upserted-updated dto user.notification_preferences,
  )

  read_back :
      (key : String) (dto : UpdateNotificationPreferencesDto) (db : Db prisma) (o : Option User)
      → prisma.find_unique key db.users ≡ o
      → ((update_preferences key dto >> get_preferences key) db).0
        ≡ with_answer (updated dto) (get_preferences key db).0
  unfolding update_preferences get_preferences find_unique
  read_back key dto db none e = ground (arith, e)
  read_back key dto db (some user) e = read_back_found key dto db user e

  -- What is read after a change is what was read before it, but for the switches that the change
  -- gives; a user who is not there is refused by both.
  pub update_preferences-get_preferences :
      (key : String) (dto : UpdateNotificationPreferencesDto) (db : Db prisma)
      → ((update_preferences key dto >> get_preferences key) db).0
        ≡ with_answer
            (λ before. record {
              project_approved = first_of dto.project_approved before.project_approved;
              credits_minted = first_of dto.credits_minted before.credits_minted;
              purchase_confirmed = first_of dto.purchase_confirmed before.purchase_confirmed;
              retirement_confirmed = first_of dto.retirement_confirmed before.retirement_confirmed;
            })
            (get_preferences key db).0
  update_preferences-get_preferences key dto db =
      read_back key dto db (prisma.find_unique key db.users) refl
      ∙ ap (λ f. with_answer f (get_preferences key db).0) (updated-first_of dto)

  -- After a change of the preferences of a user who has an address and is subscribed, an event
  -- sends one e-mail to the address exactly if its own switch is on: as the change sets it, else as it
  -- was before, else on.
  pub update_preferences-send_if_enabled :
      (key : String) (dto : UpdateNotificationPreferencesDto) (event : MailEvent)
      (about to : String) (user : User) (db : Db prisma)
      → prisma.find_unique key db.users ≡ some user
      → user.email ≡ some to
      → str_eq to "" ≡ false
      → user.is_subscribed ≡ true
      → (send_if_enabled key event about (update_preferences key dto db).1).1.emails ≡ (
          if first_of (asked_for event dto) (switched event user.notification_preferences)
          then db.emails ++ record { to = to; event = event; about = about } ∷ []
          else db.emails)
  unfolding send_if_enabled send_to send_email is_wanted find_unique stored
  update_preferences-send_if_enabled key dto event about to user db e address given on = ground (
    arith,
    update_preferences-stored key dto user db e,
    find-stored key dto user db e,
    upserted-updated dto user.notification_preferences,
    is_event_enabled-updated event dto user.notification_preferences,
    address,
    given,
    on,
  )
