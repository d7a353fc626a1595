-- ===== src/Credits/Minting.antt =====
-- When a batch is minted, and that minting keeps serial ranges apart where all serials have as
-- many digits.
use carbonledger.Base.{
  ℕ, ◌<◌, ◌≤◌, String, ◌≡◌, refl, ◌≢◌, ◌⊎◌, inl, inr, true, false, ◌&&◌, Option, none, some, [],
  ◌∷◌, arith, length, Bool-cases, Option-cases, eq_iff,
}
use carbonledger.Base.Digits.{is_number_text, all_digits, value, text_leb-eq-leb}
use carbonledger.Prisma.{Prisma}
use carbonledger.Schema.{Serial, CreditBatch, Db}
use carbonledger.Action.{Error, ok, err, bad_request}
use carbonledger.Tables.Laws.{find-upsert}
use carbonledger.Mail.Laws.{send_if_enabled_lem}
use carbonledger.Schema.{Project, credits_minted}
use carbonledger.Credits.Service.{
  MintCreditsDto, new_batch, is_bad_range, overlaps, notify_minted, mint_credits,
}

module _ (prisma : Prisma) where
  -- What `mint_credits` asks for before it stores a batch.
  pub record IsMintable (dto : MintCreditsDto) (db : Db prisma) : Type 0 where
    pub free : prisma.find_unique {V = CreditBatch} dto.batch_id db.batches ≡ none
    pub digits : (is_number_text dto.serial_start && is_number_text dto.serial_end) ≡ true
    pub range : is_bad_range dto ≡ false
    pub no_overlap : prisma.find_first (overlaps prisma dto) db.batches ≡ none

  notify_minted_lem :
      (project : Option Project) (dto : MintCreditsDto) (db : Db prisma)
      → notify_minted prisma project dto db
        ≡ (ok tt, record db { emails = (notify_minted prisma project dto db).1.emails })
  unfolding notify_minted
  notify_minted_lem none dto db = refl
  notify_minted_lem (some project) dto db =
      ground (arith, send_if_enabled_lem project.owner_address credits_minted dto.batch_id db)

  module _ (dto : MintCreditsDto) (db : Db prisma) where
    abbrev pub minted : prisma.Rows CreditBatch
    minted = prisma.upsert dto.batch_id (λ row. row) (new_batch dto) db.batches

    pub mint_stores :
        IsMintable dto db
        → ((mint_credits prisma dto db).0 ≡ ok (new_batch dto))
          × ((mint_credits prisma dto db).1.batches ≡ minted)
    unfolding mint_credits
    mint_stores m =
        let stored : Db prisma = record db { batches = minted } in
        let e = prisma.create_free dto.batch_id (new_batch dto) db.batches m.free in
        let sent = notify_minted_lem (prisma.find_unique dto.project_id db.projects) dto stored in
        (ground (arith, e, sent), ground (arith, e, sent))

    -- Every other call throws and stores nothing.
    pub mint_cases : IsMintable dto db ⊎ ((e : Error) × (mint_credits prisma dto db ≡ (err e, db)))
    unfolding mint_credits
    mint_cases =
        elim (Option-cases (prisma.find_unique {V = CreditBatch} dto.batch_id db.batches)) [
          | inr (row, taken) ↦ inr (bad_request "Batch already exists", ground arith)
          | inl free ↦
              elim (Bool-cases (is_number_text dto.serial_start && is_number_text dto.serial_end)) [
                | inr bad ↦ inr (
                  bad_request "serialStart and serialEnd must be positive integer strings",
                  ground arith,
                )
                | inl digits ↦ elim (Bool-cases (is_bad_range dto)) [
                  | inl bad ↦ inr (
                    bad_request
                        "serialEnd must be greater than serialStart and both must be positive",
                    ground arith,
                  )
                  | inr range ↦
                      elim (Option-cases (prisma.find_first (overlaps prisma dto) db.batches)) [
                        | inr (row, found) ↦ inr (
                          bad_request "Serial number range overlaps existing batch",
                          ground arith,
                        )
                        | inl clear ↦ inl (record {
                          free = free;
                          digits = digits;
                          range = range;
                          no_overlap = clear;
                        })
                      ]
                ]
              ]
        ]

abbrev pub HasWidth : ℕ → Serial → Type 0
HasWidth w serial = (length serial ≡ w) × (all_digits serial ≡ true)

abbrev pub AreApart : CreditBatch → CreditBatch → Type 0
AreApart a b =
    (value a.serial_end < value b.serial_start) ⊎ (value b.serial_end < value a.serial_start)

all_digits_of_number : (s : Serial) → is_number_text s ≡ true → all_digits s ≡ true
all_digits_of_number [] h = cc
all_digits_of_number (c ∷ s) h = h

module _ (prisma : Prisma) (w : ℕ) where
  -- All stored serials have `w` digits, and no two batches share a serial.
  pub record IsDisjoint (db : Db prisma) : Type 0 where
    pub wide :
        (k : String) (b : CreditBatch)
        → prisma.find_unique k db.batches ≡ some b
        → HasWidth w b.serial_start × HasWidth w b.serial_end
    pub apart :
        (j k : String) (a b : CreditBatch)
        → j ≢ k
        → prisma.find_unique j db.batches ≡ some a
        → prisma.find_unique k db.batches ≡ some b
        → AreApart a b

  clear-AreApart :
      (dto : MintCreditsDto) (b : CreditBatch)
      → HasWidth w dto.serial_start × HasWidth w dto.serial_end
      → HasWidth w b.serial_start × HasWidth w b.serial_end
      → overlaps prisma dto b ≡ false
      → AreApart b (new_batch dto)
  clear-AreApart dto b (ws, we) (bs, be) clear = ground (
    arith,
    prisma.text_lte_digits b.serial_start dto.serial_end bs.1 we.1,
    prisma.text_lte_digits dto.serial_start b.serial_end ws.1 be.1,
    text_leb-eq-leb b.serial_start dto.serial_end 0 (omega arith) bs.1 we.1,
    text_leb-eq-leb dto.serial_start b.serial_end 0 (omega arith) ws.1 be.1,
  )

  module _ (dto : MintCreditsDto) {db : Db prisma} (m : IsMintable prisma dto db)
      (inv : IsDisjoint db) (wide : HasWidth w dto.serial_start × HasWidth w dto.serial_end) where
    -- A stored batch that is not the new one is clear of it.
    old-AreApart :
        (k : String) (b : CreditBatch)
        → prisma.find_unique k db.batches ≡ some b
        → AreApart b (new_batch dto)
    old-AreApart k b found =
        clear-AreApart dto b wide (inv.wide k b found)
          (prisma.find_first_none (overlaps prisma dto) k db.batches m.no_overlap found)

    minted_wide :
        (k : String) (b : CreditBatch)
        → prisma.find_unique k (minted prisma dto db) ≡ some b
        → HasWidth w b.serial_start × HasWidth w b.serial_end
    minted_wide k b found = ground (
      arith,
      m.free,
      find-upsert prisma k dto.batch_id (λ row. row) (new_batch dto) db.batches,
      inv.wide k b,
    )

    minted_apart :
        (j k : String) (a b : CreditBatch)
        → j ≢ k
        → prisma.find_unique j (minted prisma dto db) ≡ some a
        → prisma.find_unique k (minted prisma dto db) ≡ some b
        → AreApart a b
    minted_apart j k a b ne ja kb = ground (
      arith,
      m.free,
      eq_iff dto.batch_id j,
      eq_iff dto.batch_id k,
      find-upsert prisma j dto.batch_id (λ row. row) (new_batch dto) db.batches,
      find-upsert prisma k dto.batch_id (λ row. row) (new_batch dto) db.batches,
      inv.apart j k a b,
      old-AreApart j a,
      old-AreApart k b,
    )

  -- Minting a range of `w`-digit serials keeps all ranges apart, whether it succeeds or not.
  pub mint_credits-IsDisjoint :
      (dto : MintCreditsDto) (db : Db prisma)
      → HasWidth w dto.serial_start
      → HasWidth w dto.serial_end
      → IsDisjoint db
      → IsDisjoint (mint_credits prisma dto db).1
  mint_credits-IsDisjoint dto db ws we inv = elim (mint_cases prisma dto db) [
    | inl m ↦
        let e = (mint_stores prisma dto db m).1 in
        record {
          wide = rw e (minted_wide dto m inv (ws, we));
          apart = rw e (minted_apart dto m inv (ws, we));
        }
    | inr (e, same) ↦ rw same inv
  ]

-- The check compares texts: a batch whose first serial another batch holds is minted where the texts
-- of their ranges do not meet, and both are stored.
pub missed_overlap_is_minted :
    (prisma : Prisma) (dto : MintCreditsDto) (db : Db prisma) (k : String) (b : CreditBatch)
    → IsMintable prisma dto db
    → prisma.find_unique k db.batches ≡ some b
    → value b.serial_start ≤ value dto.serial_start
    → value dto.serial_start ≤ value b.serial_end
    → let after = (mint_credits prisma dto db).1.batches in
      (prisma.find_unique k after ≡ some b)
      × (prisma.find_unique dto.batch_id after ≡ some (new_batch dto))
missed_overlap_is_minted prisma dto db k b m found lo hi = rw (mint_stores prisma dto db m).1 (
  ground (
    arith,
    m.free,
    eq_iff dto.batch_id k,
    find-upsert prisma k dto.batch_id (λ row. row) (new_batch dto) db.batches,
  ),
  ground
      (arith, m.free, prisma.find-upsert_self dto.batch_id (λ row. row) (new_batch dto) db.batches),
)
