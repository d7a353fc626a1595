-- ===== src/Mail/Preferences.antt =====
-- backend/src/notifications: notifications.service.ts, as a child of the e-mails that it switches on and
-- off. The preferences of a user are a column of the user here, as the client joins them.
use carbonledger.Base.{String, Bool, true, Option, none, some}
use carbonledger.Prisma.{Prisma}
use carbonledger.Schema.{NotificationPreference, User, Db}
use carbonledger.Action.{Action, ◌>>=◌, pure, or_throw, not_found}
use carbonledger.Tables.{users, find_unique, update}

pub record UpdateNotificationPreferencesDto : Type 0 where
  pub project_approved : Option Bool
  pub credits_minted : Option Bool
  pub purchase_confirmed : Option Bool
  pub retirement_confirmed : Option Bool

abbrev pub defaults : NotificationPreference
defaults = record {
  project_approved = true;
  credits_minted = true;
  purchase_confirmed = true;
  retirement_confirmed = true;
}

-- `a ?? b`
abbrev pub or_else : Option Bool → Bool → Bool
or_else none b = b
or_else (some a) b = a

-- The `update` of the `upsert`: a field that is not given stays.
unfoldable pub updated :
    UpdateNotificationPreferencesDto → NotificationPreference → NotificationPreference
updated dto row = record {
  project_approved = or_else dto.project_approved row.project_approved;
  credits_minted = or_else dto.credits_minted row.credits_minted;
  purchase_confirmed = or_else dto.purchase_confirmed row.purchase_confirmed;
  retirement_confirmed = or_else dto.retirement_confirmed row.retirement_confirmed;
}

-- The `create` of the `upsert`.
unfoldable pub created : UpdateNotificationPreferencesDto → NotificationPreference
created dto = record {
  project_approved = or_else dto.project_approved true;
  credits_minted = or_else dto.credits_minted true;
  purchase_confirmed = or_else dto.purchase_confirmed true;
  retirement_confirmed = or_else dto.retirement_confirmed true;
}

abbrev pub upserted_preferences :
    UpdateNotificationPreferencesDto → Option NotificationPreference → NotificationPreference
upserted_preferences dto none = created dto
upserted_preferences dto (some row) = updated dto row

-- `user.notificationPreferences ?? { … }`
abbrev pub preferences_of : User → NotificationPreference
preferences_of user = elim user.notification_preferences [ none ↦ defaults | some row ↦ row ]

abbrev pub with_preferences : UpdateNotificationPreferencesDto → User → User
with_preferences dto user = record user {
  notification_preferences = some (upserted_preferences dto user.notification_preferences);
}

module _ {prisma : Prisma} where
  unfoldable pub get_preferences : String → Action (Db prisma) NotificationPreference
  unfolding find_unique
  get_preferences public_key = do
    found ← find_unique (users prisma) public_key
    user ← or_throw found (not_found "User not found")
    pure (preferences_of user)

  unfoldable pub update_preferences :
      String → UpdateNotificationPreferencesDto → Action (Db prisma) NotificationPreference
  unfolding find_unique update updated created
  update_preferences public_key dto = do
    found ← find_unique (users prisma) public_key
    user ← or_throw found (not_found "User not found")
    stored ← update (users prisma) public_key (with_preferences dto)
    pure (preferences_of stored)
