-- ===== src/Schema.antt =====
-- backend/prisma/schema.prisma: the rows of the tables, and the database as the services see it.
-- Tonnes are counted in hundredths, the scale of the `Decimal(18, 2)` columns. Times are in ms.
use carbonledger.Base.{ℕ, String, Bool, Option, List}
use carbonledger.Base.Int.{ℤ}
use carbonledger.Prisma.{Prisma}

-- Text columns with a known set of values; `other` holds any other text.
pub data ProjectStatus : Type 0 where
  pending verified rejected suspended completed : ProjectStatus
  other : String → ProjectStatus

pub data BatchStatus : Type 0 where
  active partially_retired fully_retired : BatchStatus
  other : String → BatchStatus

pub data ListingStatus : Type 0 where
  active partially_filled sold delisted : ListingStatus
  other : String → ListingStatus

pub data ApplicationStatus : Type 0 where
  pending approved rejected : ApplicationStatus
  other : String → ApplicationStatus

pub data Role : Type 0 where
  admin verifier project_developer corporation : Role
  other : String → Role

pub record Project : Type 0 where
  pub project_id : String
  pub name : String
  pub methodology : String
  pub country : String
  pub status : ProjectStatus
  pub vintage_year : ℕ
  pub methodology_score : ℕ
  pub total_credits_issued : ℕ
  pub total_credits_retired : ℕ
  pub verifier_address : String
  pub owner_address : String

-- A serial is stored as text: its characters, by code.
abbrev pub Serial : Type 0
Serial = List ℕ

pub record CreditBatch : Type 0 where
  pub batch_id : String
  pub project_id : String
  pub vintage_year : ℕ
  pub amount : ℕ
  pub serial_start : Serial
  pub serial_end : Serial
  pub status : BatchStatus
  pub metadata_cid : String

pub record RetirementRecord : Type 0 where
  pub retirement_id : String
  pub batch_id : String
  pub project_id : String
  pub amount : ℕ
  pub retired_by : String
  pub beneficiary : String
  pub retirement_reason : String
  pub vintage_year : ℕ
  pub serial_start : Serial
  pub serial_end : Serial
  pub serial_numbers : List ℕ
  pub tx_hash : String
  pub certificate_cid : Option String
  pub is_valid : Bool

pub record MarketListing : Type 0 where
  pub listing_id : String
  pub project_id : String
  pub batch_id : String
  pub seller : String
  pub amount_available : ℤ
  pub price_per_credit : String
  pub vintage_year : ℕ
  pub status : ListingStatus

pub record NotificationPreference : Type 0 where
  pub project_approved : Bool
  pub credits_minted : Bool
  pub purchase_confirmed : Bool
  pub retirement_confirmed : Bool

pub record User : Type 0 where
  pub public_key : String
  pub email : Option String
  pub role : Role
  pub is_subscribed : Bool
  pub notification_preferences : Option NotificationPreference

pub record VerifierApplication : Type 0 where
  pub public_key : String
  pub organization_name : String
  pub status : ApplicationStatus
  pub approved_by : Option String
  pub approved_at : Option ℕ
  pub rejection_reason : Option String

-- An entry that `ProjectStateMachineService` writes to the audit log.
pub record AuditEntry : Type 0 where
  pub actor : String
  pub resource_id : String
  pub before : ProjectStatus
  pub after : ProjectStatus
  pub reason : Option String

pub data MailEvent : Type 0 where
  project_approved credits_minted purchase_confirmed retirement_confirmed : MailEvent

-- An email log row with the job that is queued for it; `about` is the payload's identifier.
pub record Email : Type 0 where
  pub to : String
  pub event : MailEvent
  pub about : String

pub data PinStatus : Type 0 where
  pending pinned failed : PinStatus

-- A row of `iPFSFile`; the two texts of the linked entity are those that the callers give.
pub record IpfsFile : Type 0 where
  pub cid : String
  pub file_name : String
  pub file_type : String
  pub file_size : ℕ
  pub pin_status : PinStatus
  pub linked_entity_type : String
  pub linked_entity_id : String
  pub pinned_at : Option ℕ

pub record ApiKey : Type 0 where
  pub organization_name : String
  pub contact_email : String
  pub is_active : Bool

-- The database, the mail queue and the job queue. The tables whose keys are generated are lists.
pub record Db (prisma : Prisma) : Type 0 where
  pub projects : prisma.Rows Project
  pub batches : prisma.Rows CreditBatch
  pub retirements : prisma.Rows RetirementRecord
  pub listings : prisma.Rows MarketListing
  pub users : prisma.Rows User
  pub applications : prisma.Rows VerifierApplication
  pub files : prisma.Rows IpfsFile
  pub api_keys : prisma.Rows ApiKey
  pub audit_log : List AuditEntry
  pub emails : List Email
  pub certificate_jobs : List String
