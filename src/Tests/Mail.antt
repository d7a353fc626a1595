-- ===== src/Tests/Mail.antt =====
-- The preferences and the job of an e-mail at concrete inputs.
use carbonledger.Base.{ℕ, String, true, false, none, some, List, [], ◌∷◌, ◌≡◌, refl}
use carbonledger.Prisma.Memory.{memory}
use carbonledger.Schema.{purchase_confirmed, Db, User, verifier}
use carbonledger.Action.{Error, Result, ok, err, internal, ◌>>◌}
use carbonledger.Mail.{send_if_enabled}
use carbonledger.Mail.Preferences.{
  UpdateNotificationPreferencesDto, get_preferences, update_preferences,
}
use carbonledger.Mail.Switches.{
  update_preferences-get_preferences, update_preferences-send_if_enabled,
}
use carbonledger.Mail.Processor.{EmailLog, pending, attempts, after, attempts_lem}
use carbonledger.Tests.Samples.{sample}

abbrev reader : User
reader = record {
  public_key = "GREAD";
  email = some "r@b.org";
  role = verifier;
  is_subscribed = true;
  notification_preferences = none;
}

abbrev with_reader : Db memory
with_reader = record sample { users = ("GREAD", reader) ∷ [] }

abbrev no_purchases : UpdateNotificationPreferencesDto
no_purchases = record {
  project_approved = none;
  credits_minted = some true;
  purchase_confirmed = some false;
  retirement_confirmed = none;
}

update_preferences-get_preferences_example :
    ((update_preferences "GREAD" no_purchases >> get_preferences "GREAD") with_reader).0
    ≡ ok (record {
      project_approved = true;
      credits_minted = true;
      purchase_confirmed = false;
      retirement_confirmed = true;
    })
unfolding get_preferences
update_preferences-get_preferences_example =
    update_preferences-get_preferences "GREAD" no_purchases with_reader

update_preferences-send_if_enabled_example :
    (send_if_enabled "GREAD" purchase_confirmed "p1"
      (update_preferences "GREAD" no_purchases with_reader).1).1.emails
    ≡ sample.emails
update_preferences-send_if_enabled_example =
    update_preferences-send_if_enabled "GREAD" no_purchases purchase_confirmed "p1" "r@b.org" reader
      with_reader refl refl refl refl

abbrev message : Error → String
message e = "ENOENT"

abbrev tries : List (Result (Unit {0}) × ℕ)
tries = (err (internal "read"), 5) ∷ (ok tt, 9) ∷ []

abbrev fresh : EmailLog
fresh = record { status = pending; error = none; sent_at = none }

attempts_lem_example :
    memory.find_unique "m1" (attempts memory message tries "m1" (("m1", fresh) ∷ []))
    ≡ some (after memory message tries fresh)
attempts_lem_example = attempts_lem memory message tries "m1" fresh (("m1", fresh) ∷ []) refl
