-- ===== src/Persistence/Worlds/Keeps.antt =====
-- The rules for the operations on the world's writer.
use burning_space.Base.{◌==◌, ℕ, ◌≡◌, ◌+◌, some, inl, inr, Option-cases, Bool-cases, update_where}
use burning_space.Persistence.Schema.{WorldRow, Db, Moment}
use burning_space.Persistence.Transaction.Preserves.{Preserves, Ends}
use burning_space.Persistence.Worlds.{
  world_of, extend_writer, taken_over, update_world, clear_writer, can_renew_writer, is_writer,
  has_live_other_writer, same_process_still_live, claim_row, claim_found, claim_world_writer,
  renew_world_writer, release_world_writer, status_is_active, supported_domain_version,
}

module _ (R : Db → Type 0) where
  module _ (world instance_id : ℕ) (m : Moment) (db_time : ℕ)
      (extends : (db : Db) (row : WorldRow)
        → world_of world db ≡ some row
        → R db
        → R (update_world world (extend_writer m) db))
      (takes : (db : Db) (row : WorldRow)
        → world_of world db ≡ some row
        → R db
        → R (taken_over world instance_id (row.writer_epoch + 1) m db_time db)) where
    claim_row_Preserves :
        (db : Db) (row : WorldRow)
        → world_of world db ≡ some row
        → R db
        → Ends (λ _. R) (claim_row world instance_id m db_time row db)
    unfolding claim_row
    claim_row_Preserves db row found r =
        elim (Bool-cases (has_live_other_writer row instance_id m.db_now)) [
          | inl foreign ↦ rw foreign r
          | inr free ↦
              rw free (elim (Bool-cases (same_process_still_live row instance_id m.db_now)) [
                | inl own ↦ rw own (extends db row found r)
                | inr expired ↦ rw expired (takes db row found r)
              ])
        ]

    claim_found_Preserves :
        (db : Db) (row : WorldRow)
        → world_of world db ≡ some row
        → R db
        → Ends (λ _. R) (claim_found world instance_id m db_time (some row) db)
    unfolding claim_found
    claim_found_Preserves db row found r =
        elim (Bool-cases (status_is_active row.lifecycle_status)) [
          | inl active ↦
              rw active (elim (Bool-cases (row.domain_version == supported_domain_version)) [
                | inl supported ↦ rw supported (claim_row_Preserves db row found r)
                | inr other ↦ rw other tt
              ])
          | inr retired ↦ rw retired tt
        ]

    pub claim_world_writer-Preserves : Preserves R (claim_world_writer world instance_id m db_time)
    unfolding claim_world_writer
    claim_world_writer-Preserves db r = elim (Option-cases (world_of world db)) [
      | inl absent ↦ rw (absent, claim_world_writer, claim_found) tt
      | inr (row, found) ↦ rw (found, claim_world_writer) (claim_found_Preserves db row found r)
    ]

  pub renew_world_writer-Preserves :
      (world instance_id epoch : ℕ) (m : Moment)
      → ((db : Db)
          → R db
          → R (record db {
            worlds =
                update_where
                  (can_renew_writer world instance_id epoch m.checked_at)
                  (extend_writer m)
                  db.worlds;
          }))
      → Preserves R (renew_world_writer world instance_id epoch m)
  unfolding renew_world_writer
  renew_world_writer-Preserves world instance_id epoch m h db r = h db r

  pub release_world_writer-Preserves :
      (world instance_id epoch : ℕ)
      → ((db : Db)
          → R db
          → R (record db {
            worlds = update_where (is_writer world instance_id epoch) clear_writer db.worlds;
          }))
      → Preserves R (release_world_writer world instance_id epoch)
  unfolding release_world_writer
  release_world_writer-Preserves world instance_id epoch h db r = h db r
