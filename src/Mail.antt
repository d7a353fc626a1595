-- ===== src/Mail.antt =====
-- backend/src/mail/mail.service.ts: the log entry with its queued job, sent or held back by the
-- user's preferences. Subjects and payload texts are left out.
pub mod Laws
pub mod Preferences
pub mod Processor
pub mod Switches
use carbonledger.Base.{
  String, Bool, true, Option, none, some, [], ◌∷◌, ◌++◌, not, ◌&&◌, str_eq, if◌then◌else◌,
}
use carbonledger.Prisma.{Prisma}
use carbonledger.Schema.{
  MailEvent, project_approved, credits_minted, purchase_confirmed, retirement_confirmed,
  NotificationPreference, User, Db,
}
use carbonledger.Action.{Action, ◌>>=◌, pure, modify}
use carbonledger.Tables.{users, find_unique}

unfoldable pub is_event_enabled : NotificationPreference → MailEvent → Bool
is_event_enabled prefs project_approved = prefs.project_approved
is_event_enabled prefs credits_minted = prefs.credits_minted
is_event_enabled prefs purchase_confirmed = prefs.purchase_confirmed
is_event_enabled prefs retirement_confirmed = prefs.retirement_confirmed

-- `prefs ? this.isEventEnabled(prefs, event) : true`
unfoldable pub is_wanted : Option NotificationPreference → MailEvent → Bool
unfolding is_event_enabled
is_wanted none event = true
is_wanted (some prefs) event = is_event_enabled prefs event

module _ {prisma : Prisma} where
  unfoldable pub send_email : String → MailEvent → String → Action (Db prisma) (Unit {0})
  send_email to event about = modify (λ db. record db {
    emails = db.emails ++ record { to = to; event = event; about = about } ∷ [];
  })

  unfoldable pub send_to : Option User → MailEvent → String → Action (Db prisma) (Unit {0})
  unfolding send_email is_wanted
  send_to none event about db = (pure tt) db
  send_to (some user) event about db = elim user.email [
    | none ↦ (pure tt) db
    | some to ↦
        if not (str_eq to "") && user.is_subscribed
        then (if is_wanted user.notification_preferences event
            then send_email to event about db
            else (pure tt) db)
        else (pure tt) db
  ]

  unfoldable pub send_if_enabled : String → MailEvent → String → Action (Db prisma) (Unit {0})
  unfolding send_to find_unique
  send_if_enabled public_key event about = do
    user ← find_unique (users prisma) public_key
    send_to user event about
