-- ===== src/Mail/Laws.antt =====
-- What a notification changes: the e-mails alone.
use carbonledger.Base.{String, ◌≡◌, arith}
use carbonledger.Prisma.{Prisma}
use carbonledger.Schema.{MailEvent, Db}
use carbonledger.Action.{ok}
use carbonledger.Mail.{send_if_enabled}

-- Sending never fails, and changes nothing but the e-mails.
pub send_if_enabled_lem :
    {prisma : Prisma} (key : String) (event : MailEvent) (about : String) (db : Db prisma)
    → send_if_enabled key event about db
      ≡ (ok tt, record db { emails = (send_if_enabled key event about db).1.emails })
unfolding send_if_enabled
send_if_enabled_lem key event about db = ground arith
