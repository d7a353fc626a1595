-- ===== src/Credits/Retiring.antt =====
-- What a retirement stores, when it is refused, and what a partial one leaves open.
use carbonledger.Base.{
  ℕ, zero, suc, ◌+◌, ◌≤◌, ◌<◌, String, ◌≡◌, refl, sym, ◌∙◌, ◌≢◌, ◌⊎◌, inl, inr, true, false, none,
  some, arith, length, leb, if◌then◌else◌, Bool-cases,
}
use carbonledger.Prisma.{Prisma}
use carbonledger.Schema.{
  Project, CreditBatch, BatchStatus, fully_retired, partially_retired, RetirementRecord, Db,
  retirement_confirmed,
}
use carbonledger.Action.{Error, ok, err, conflict, unprocessable}
use carbonledger.Mail.Laws.{send_if_enabled_lem}
use carbonledger.Credits.Service.{
  RetireCreditsDto, new_retirement, retirement_id_of, serials_from, is_fully_retired,
  with_batch_status, add_retired, retire_credits,
}

-- A retirement of `n` units is given `n` consecutive serials.
pub length-serials_from : (start n : ℕ) → length (serials_from start n) ≡ n
unfolding serials_from
length-serials_from start zero = refl
length-serials_from start (suc n) = omega (arith, length-serials_from (start + 1) n)

abbrev pub status_after : RetireCreditsDto → CreditBatch → BatchStatus
status_after dto batch = if leb batch.amount dto.amount then fully_retired else partially_retired

module _ (prisma : Prisma) where
  -- The facts under which a retirement goes through.
  pub record IsRetirable (dto : RetireCreditsDto) (now : String) (batch : CreditBatch)
      (project : Project) (db : Db prisma) : Type 0 where
    pub stored : prisma.find_unique dto.batch_id db.batches ≡ some batch
    pub live : is_fully_retired batch.status ≡ false
    pub covered : dto.amount ≤ batch.amount
    pub fresh :
        prisma.find_unique {V = RetirementRecord} (retirement_id_of dto.batch_id now) db.retirements
        ≡ none
    pub owned : prisma.find_unique batch.project_id db.projects ≡ some project

  module _ (dto : RetireCreditsDto) (now tx_hash : String) (batch : CreditBatch) (project : Project)
      (db : Db prisma) where
    abbrev pub retirement : RetirementRecord
    retirement = new_retirement dto batch (retirement_id_of dto.batch_id now) tx_hash

    abbrev pub retired : Db prisma
    retired = record db {
      retirements =
          prisma.upsert (retirement_id_of dto.batch_id now) (λ row. row) retirement db.retirements;
      batches =
          prisma.upsert dto.batch_id (with_batch_status (status_after dto batch)) batch db.batches;
      projects = prisma.upsert batch.project_id (add_retired dto.amount) project db.projects;
    }

    pub record IsRetired (outcome : Db prisma) : Type 0 where
      pub recorded : outcome.retirements ≡ retired.retirements
      pub marked : outcome.batches ≡ retired.batches
      pub counted : outcome.projects ≡ retired.projects

    pub retire_stores :
        IsRetirable dto now batch project db
        → ((retire_credits prisma dto now tx_hash db).0 ≡ ok retirement)
          × IsRetired (retire_credits prisma dto now tx_hash db).1
    unfolding retire_credits
    retire_stores r =
        let created =
          prisma.create_free (retirement_id_of dto.batch_id now) retirement db.retirements
            r.fresh in
        let marked =
          prisma.update_found dto.batch_id (with_batch_status (status_after dto batch)) db.batches
            r.stored in
        let marked_row =
          prisma.find-upsert_self dto.batch_id (with_batch_status (status_after dto batch)) batch
            db.batches in
        let counted =
          prisma.update_found batch.project_id (add_retired dto.amount) db.projects r.owned in
        let counted_row =
          prisma.find-upsert_self batch.project_id (add_retired dto.amount) project db.projects in
        let sent =
          send_if_enabled_lem dto.holder_public_key retirement_confirmed
            (retirement_id_of dto.batch_id now) retired in
        (
          ground arith,
          record { recorded = ground arith; marked = ground arith; counted = ground arith },
        )

    -- A batch that is retired in full, or holds less than is asked for, is left alone.
    pub retire_refuses :
        prisma.find_unique dto.batch_id db.batches ≡ some batch
        → (is_fully_retired batch.status ≡ true) ⊎ (batch.amount < dto.amount)
        → (e : Error) × (retire_credits prisma dto now tx_hash db ≡ (err e, db))
    unfolding retire_credits
    retire_refuses stored refused = elim (Bool-cases (is_fully_retired batch.status)) [
      | inl full ↦ (conflict "Credits are already fully retired", ground arith)
      | inr live ↦ (unprocessable "Cannot retire", ground arith)
    ]

  -- A partial retirement leaves the amount of its batch as it was: the same retirement at a later
  -- time goes through, and is given the same serials.
  module _ (dto : RetireCreditsDto) (now later tx_hash tx_hash' : String) (batch : CreditBatch)
      (project : Project) (db : Db prisma) where
    abbrev again : CreditBatch
    again = with_batch_status partially_retired batch

    IsRetirable-again :
        {outcome : Db prisma}
        → IsRetirable dto now batch project db
        → IsRetired dto now tx_hash batch project db outcome
        → dto.amount < batch.amount
        → prisma.find_unique {V = RetirementRecord}
            (retirement_id_of dto.batch_id later)
            db.retirements
          ≡ none
        → retirement_id_of dto.batch_id now ≢ retirement_id_of dto.batch_id later
        → IsRetirable dto later again (add_retired dto.amount project) outcome
    IsRetirable-again r done partial fresh ne = record {
      stored = rw done.marked (
          ground (
            arith,
            prisma.find-upsert_self dto.batch_id (with_batch_status (status_after dto batch)) batch
                db.batches,
            r.stored,
          ));
      live = refl;
      covered = omega arith;
      fresh = rw done.recorded (prisma.find-upsert_ne _ _ _ _ _ (λ e. ne (sym e)) ∙ fresh);
      owned = rw done.counted (
          ground (
            arith,
            prisma.find-upsert_self batch.project_id (add_retired dto.amount) project db.projects,
            r.owned,
          ));
    }

    pub partial_retirement_repeats :
        IsRetirable dto now batch project db
        → dto.amount < batch.amount
        → prisma.find_unique {V = RetirementRecord}
            (retirement_id_of dto.batch_id later)
            db.retirements
          ≡ none
        → retirement_id_of dto.batch_id now ≢ retirement_id_of dto.batch_id later
        → let second =
            retire_credits prisma dto later tx_hash' (retire_credits prisma dto now tx_hash db).1 in
          (second.0 ≡ ok (retirement dto later tx_hash' batch project db))
          × ((retirement dto later tx_hash' batch project db).serial_numbers
              ≡ (retirement dto now tx_hash batch project db).serial_numbers)
    partial_retirement_repeats r partial fresh ne =
        let (first, done) = retire_stores dto now tx_hash batch project db r in
        let next =
          retire_stores dto later tx_hash' again (add_retired dto.amount project) _
            (IsRetirable-again r done partial fresh ne) in
        (next.0, refl)
