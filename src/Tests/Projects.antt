-- ===== src/Tests/Projects.antt =====
-- The projects service at concrete inputs.
use carbonledger.Base.{◌≡◌, refl, inl, some, [], ◌∷◌, arith}
use carbonledger.Prisma.Memory.{memory}
use carbonledger.Schema.{verified, rejected, Project}
use carbonledger.Projects.Effects.{Request, Effect, handle, handle_all, handle-Effect}
use carbonledger.Projects.Service
use carbonledger.Projects.Service.{RegisterProjectDto}
use carbonledger.Projects.Lifecycle.{terminal_is_final, IsAudited, handle-IsAudited}
use carbonledger.Tests.Samples.{sample, empty, project}

abbrev dto : RegisterProjectDto
dto = record {
  project_id = "p9";
  name = "Mangrove";
  methodology = "VCS";
  country = "Peru";
  verifier_address = "ver";
  owner_address = "own";
  vintage_year = 2024;
  methodology_score = 75;
}

handle-Effect_example : Effect memory sample (handle memory (Request.verify "p3" "ver") sample)
handle-Effect_example = handle-Effect memory (Request.verify "p3" "ver") sample

terminal_is_final_example :
    memory.find_unique {V = Project} "p2"
      (handle_all memory (Request.verify "p2" "ver" ∷ Request.register dto ∷ []) sample).projects
    ≡ some (project "p2" rejected)
terminal_is_final_example =
    terminal_is_final memory "p2" (Request.verify "p2" "ver" ∷ Request.register dto ∷ []) sample
      refl (inl refl)

empty-IsAudited : IsAudited memory empty
empty-IsAudited = record { scored = λ k row e. absurd (ground arith); accounted = λ k. refl }

handle-IsAudited_example : IsAudited memory (handle memory (Request.register dto) empty)
handle-IsAudited_example = handle-IsAudited memory (Request.register dto) empty empty-IsAudited

-- Verifying a project writes the status, the audit entry and the owner's e-mail.
verify_run :
    let db = handle memory (Request.verify "p3" "ver") sample in
    memory.find_unique {V = Project} "p3" db.projects ≡ some (project "p3" verified)
unfolding handle Service.verify
verify_run = refl
