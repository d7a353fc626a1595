-- ===== src/Tests/Samples.antt =====
-- A small database in memory.
use carbonledger.Base.{String, none, some, true, [], ◌∷◌}
use carbonledger.Base.Int.{pos}
use carbonledger.Prisma.Memory.{memory}
use carbonledger.Schema.{
  Project, ProjectStatus, CreditBatch, BatchStatus, MarketListing, ListingStatus, User, Role, Db,
}

abbrev pub project : String → ProjectStatus → Project
project id status = record {
  project_id = id;
  name = "Forest";
  methodology = "VCS";
  country = "Kenya";
  status = status;
  vintage_year = 2023;
  methodology_score = 82;
  total_credits_issued = 0;
  total_credits_retired = 0;
  verifier_address = "ver";
  owner_address = "own";
}

-- Serials 10 to 99, a tonne and a half.
abbrev pub batch : CreditBatch
batch = record {
  batch_id = "b1";
  project_id = "p1";
  vintage_year = 2023;
  amount = 150;
  serial_start = b'1' ∷ b'0' ∷ [];
  serial_end = b'9' ∷ b'9' ∷ [];
  status = BatchStatus.active;
  metadata_cid = "cid";
}

abbrev pub listing : MarketListing
listing = record {
  listing_id = "l1";
  project_id = "p1";
  batch_id = "b1";
  seller = "sel";
  amount_available = pos 10;
  price_per_credit = "5";
  vintage_year = 2023;
  status = ListingStatus.active;
}

abbrev pub owner : User
owner = record {
  public_key = "own";
  email = some "own@example.org";
  role = Role.project_developer;
  is_subscribed = true;
  notification_preferences = none;
}

abbrev pub sample : Db memory
sample = record {
  projects =
      ("p1", project "p1" ProjectStatus.verified)
      ∷ ("p2", project "p2" ProjectStatus.rejected)
      ∷ ("p3", project "p3" ProjectStatus.pending)
      ∷ [];
  batches = ("b1", batch) ∷ [];
  retirements = [];
  listings = ("l1", listing) ∷ [];
  users = ("own", owner) ∷ [];
  applications = [];
  files = [];
  api_keys = [];
  audit_log = [];
  emails = [];
  certificate_jobs = [];
}

abbrev pub empty : Db memory
empty = record {
  projects = [];
  batches = [];
  retirements = [];
  listings = [];
  users = [];
  applications = [];
  files = [];
  api_keys = [];
  audit_log = [];
  emails = [];
  certificate_jobs = [];
}
