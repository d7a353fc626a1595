-- ===== src/Projects/Service.antt =====
-- backend/src/projects/projects.service.ts.
use carbonledger.Base.{
  ℕ, String, true, false, Option, none, some, [], ◌∷◌, ◌++◌, ltb, if◌then◌else◌,
}
use carbonledger.Prisma.{Prisma}
use carbonledger.Schema.{
  ProjectStatus, pending, verified, rejected, Project, User, project_approved, Db,
}
use carbonledger.Action.{Action, ◌>>=◌, ◌>>◌, pure, throw_if, or_throw, modify, not_found, conflict}
use carbonledger.Tables.{projects, users, find_unique, create, update}
use carbonledger.Projects.StateMachine.{transition}

pub record RegisterProjectDto : Type 0 where
  pub project_id : String
  pub name : String
  pub methodology : String
  pub country : String
  pub verifier_address : String
  pub owner_address : String
  pub vintage_year : ℕ
  pub methodology_score : ℕ

pub record UpdateProjectStatusDto : Type 0 where
  pub status : ProjectStatus
  pub reason : Option String

-- The row that `create({ data: dto })` stores: the columns that the DTO lacks take their defaults.
abbrev pub new_project : RegisterProjectDto → Project
new_project dto = record {
  project_id = dto.project_id;
  name = dto.name;
  methodology = dto.methodology;
  country = dto.country;
  status = pending;
  vintage_year = dto.vintage_year;
  methodology_score = dto.methodology_score;
  total_credits_issued = 0;
  total_credits_retired = 0;
  verifier_address = dto.verifier_address;
  owner_address = dto.owner_address;
}

abbrev pub with_status : ProjectStatus → Project → Project
with_status status project = record project { status = status }

module _ (prisma : Prisma) where
  unfoldable pub find_one : String → Action (Db prisma) Project
  unfolding find_unique
  find_one project_id = do
    project ← find_unique (projects prisma) project_id
    or_throw project (not_found "Project not found")

  unfoldable pub register : RegisterProjectDto → Action (Db prisma) (Unit {0})
  unfolding find_unique create
  register dto = do
    existing ← find_unique (projects prisma) dto.project_id
    throw_if (elim existing [ none ↦ false | some _ ↦ true ]) (conflict "Project already exists")
    throw_if (ltb dto.methodology_score 70) (conflict "methodology score is below minimum 70/100")
    create (projects prisma) dto.project_id (new_project dto)

  unfoldable pub update_status :
      String → UpdateProjectStatusDto → String → Action (Db prisma) Project
  unfolding find_one transition update
  update_status project_id dto actor = do
    project ← find_one project_id
    transition project_id project.status dto.status actor dto.reason
    update (projects prisma) project_id (with_status dto.status)

  -- The e-mail of `verify`, which does not ask for the owner's preferences.
  unfoldable pub notify_owner : Project → Option User → Action (Db prisma) (Unit {0})
  notify_owner project none db = (pure tt) db
  notify_owner project (some owner) db = elim owner.email [
    | none ↦ (pure tt) db
    | some to ↦
        (if owner.is_subscribed
            then modify (λ d. record d {
              emails =
                  d.emails
                  ++ record { to = to; event = project_approved; about = project.project_id } ∷ [];
            })
            else pure tt)
          db
  ]

  unfoldable pub verify : String → String → Action (Db prisma) Project
  unfolding find_one transition update notify_owner find_unique
  verify project_id verifier_public_key = do
    project ← find_one project_id
    transition project_id project.status verified verifier_public_key none
    updated ← update (projects prisma) project_id (with_status verified)
    owner ← find_unique (users prisma) updated.owner_address
    notify_owner updated owner
    pure updated

  unfoldable pub reject : String → String → String → Action (Db prisma) Project
  unfolding find_one transition update
  reject project_id verifier_public_key reason = do
    project ← find_one project_id
    transition project_id project.status rejected verifier_public_key (some reason)
    update (projects prisma) project_id (with_status rejected)
