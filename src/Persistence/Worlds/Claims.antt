-- ===== src/Persistence/Worlds/Claims.antt =====
-- `claimWorldWriter`: what a claim of a world's writer does, on every branch.
use mathlib.Core.Option
use burning_space.Base.{
  sym, subst, ◌≢◌, ◌⊎◌, none, Option-cases, ◌<◌, find_where_holds, ◌∙◌, ◌==◌,
  find_where-update_where, ℕ, ◌≡◌, ◌+◌, refl, inl, inr, arith, true, false, some, Bool-cases,
}
use burning_space.Persistence.Schema.{seconds, WorldRow, Db, Moment, get_time}
use burning_space.Persistence.Transaction.{ok}
use burning_space.Persistence.Worlds.{
  world_writer_ttl_seconds, is_live, granted, take_over, taken_over, extend_writer,
  supported_domain_version, is_world, status_is_active, update_world, ClaimWorldWriterResult,
  WriterClaim, world_of, claimed, live_writer_conflict, has_live_other_writer,
  same_process_still_live, claim_world_writer, claim_found, claim_row, assert_compatible,
}

-- The writer that the row names has not expired at `now`, and when it does.
pub record IsLiveUntil (row : WorldRow) (now until : ℕ) : Type 0 where
  pub expiry : row.writer_expires_at ≡ some until
  pub later : get_time now < get_time until

-- The claim is what the world's row says: its holder, its epoch and its expiry, which lies the time to
-- live after the statement's clock.
pub record IsHeldBy (claim : WriterClaim) (world instance_id : ℕ) (m : Moment) (db : Db)
    : Type 0 where
  pub row : WorldRow
  pub found : world_of world db ≡ some row
  pub holder : row.writer_instance_id ≡ some instance_id
  pub epoch_is : row.writer_epoch ≡ claim.writer_epoch
  pub until : row.writer_expires_at ≡ some (m.expires_from + seconds world_writer_ttl_seconds)
  pub claimed_until :
      claim.writer_expires_at ≡ get_time (m.expires_from + seconds world_writer_ttl_seconds)
  pub claimed_world : claim.world_id ≡ world
  pub claimed_by : claim.server_instance_id ≡ instance_id

-- What a claim may do: keep a live claim of its own, take over a world with no live writer, or find a
-- live writer and leave everything as it is.
pub data Claims (world instance_id : ℕ) (m : Moment) (row : WorldRow) (db : Db)
    : ClaimWorldWriterResult → Db → Type 0 where
  keeps :
      (claim : WriterClaim) (after : Db) (until : ℕ)
      → row.writer_instance_id ≡ some instance_id
      → IsLiveUntil row m.db_now until
      → claim.writer_epoch ≡ row.writer_epoch
      → IsHeldBy claim world instance_id m after
      → after.leases ≡ db.leases
      → Claims world instance_id m row db (claimed claim) after
  takes_over :
      (claim : WriterClaim) (after : Db)
      → (row.writer_instance_id ≡ none) ⊎ ((until : ℕ) → ¬ IsLiveUntil row m.db_now until)
      → claim.writer_epoch ≡ row.writer_epoch + 1
      → IsHeldBy claim world instance_id m after
      → Claims world instance_id m row db (claimed claim) after
  is_refused :
      (other until : ℕ)
      → row.writer_instance_id ≡ some other
      → other ≢ instance_id
      → IsLiveUntil row m.db_now until
      → Claims world instance_id m row db (live_writer_conflict (some (get_time until))) db

live_until :
    (row : WorldRow) (now : ℕ) → is_live row now ≡ true → (until : ℕ) × IsLiveUntil row now until
live_until row now live = elim (Option-cases row.writer_expires_at) [
  | inl e ↦ ground (arith, e, live)
  | inr (until, e) ↦ (until, record { expiry = e; later = ground (arith, e, live) })
]

not_live : (row : WorldRow) (now until : ℕ) → is_live row now ≡ false → ¬ IsLiveUntil row now until
not_live row now until gone h = ground (arith, gone, h.expiry, h.later)

pub record ClaimOutcome (world instance_id : ℕ) (m : Moment) (db_time : ℕ) (row : WorldRow)
    (db : Db) : Type 0 where
  pub answer : ClaimWorldWriterResult
  pub after : Db
  pub runs : claim_world_writer world instance_id m db_time db ≡ ok (answer, after)
  pub explained : Claims world instance_id m row db answer after

module _ (world instance_id : ℕ) (m : Moment) (db_time : ℕ) (row : WorldRow) (db : Db)
    (found : world_of world db ≡ some row) where
  row_after :
      (f : WorldRow → WorldRow)
      → ((r : WorldRow) → (f r).world_id ≡ r.world_id)
      → world_of world (update_world world f db) ≡ some (f row)
  row_after f keep =
      find_where-update_where (is_world world) (is_world world) f db.worlds
        (λ r. ground (arith, keep r))
      ∙ rw (found, find_where_holds (is_world world) db.worlds found) refl

  reaches_row :
      (status_is_active row.lifecycle_status ≡ true)
      → (row.domain_version == supported_domain_version) ≡ true
      → claim_world_writer world instance_id m db_time db
        ≡ claim_row world instance_id m db_time row db
  unfolding claim_world_writer claim_found assert_compatible
  reaches_row active supported =
      rw (found, claim_world_writer, claim_found) (rw active (rw supported refl))

  refuses :
      has_live_other_writer row instance_id m.db_now ≡ true
      → Claims world instance_id m row db
          (live_writer_conflict (Option.map get_time row.writer_expires_at))
          db
  refuses foreign = elim (Option-cases row.writer_instance_id) [
    | inl e ↦ ground (arith, e, foreign)
    | inr (other, e) ↦
        let (until, live) = live_until row m.db_now (ground (arith, foreign)) in
        subst
          (λ o. Claims world instance_id m row db (live_writer_conflict (Option.map get_time o)) db)
          (sym live.expiry)
          (is_refused other until e (λ same. ground (arith, e, foreign, same)) live)
  ]

  -- The row that a claim writes is the world's, and the claim is what it says.
  taken_row :
      (epoch : ℕ) (after : Db)
      → world_of world after ≡ some (take_over instance_id epoch m row)
      → IsHeldBy (granted world instance_id epoch m) world instance_id m after
  taken_row epoch after there = record {
    row = take_over instance_id epoch m row;
    found = there;
    holder = refl;
    epoch_is = refl;
    until = refl;
    claimed_until = refl;
    claimed_world = refl;
    claimed_by = refl;
  }

  no_writer :
      has_live_other_writer row instance_id m.db_now ≡ false
      → same_process_still_live row instance_id m.db_now ≡ false
      → (row.writer_instance_id ≡ none) ⊎ ((until : ℕ) → ¬ IsLiveUntil row m.db_now until)
  no_writer free expired = elim (Option-cases row.writer_instance_id) [
    | inl e ↦ inl e
    | inr (other, e) ↦ inr (λ until. not_live row m.db_now until (ground (arith, e, free, expired)))
  ]

  own_claim :
      same_process_still_live row instance_id m.db_now ≡ true
      → Claims world instance_id m row db
          (claimed (granted world instance_id row.writer_epoch m))
          (update_world world (extend_writer m) db)
  own_claim own =
      let (until, live) = live_until row m.db_now (ground (arith, own)) in
      let holder : row.writer_instance_id ≡ some instance_id = ground (arith, own) in
      keeps _ _ until holder live refl
        (record {
          row = extend_writer m row;
          found = row_after (extend_writer m) (λ r. refl);
          holder = holder;
          epoch_is = refl;
          until = refl;
          claimed_until = refl;
          claimed_world = refl;
          claimed_by = refl;
        })
        refl

  -- Claiming a world that is in the table, active and of the supported version always returns an
  -- answer. Either the claimant already holds the writer and has not expired, and keeps its epoch with
  -- no lease touched; or the row names no writer or one that has expired, and the claimant becomes the
  -- holder under the next epoch; or another writer holds it that has not expired, and the answer is a
  -- conflict, with that writer's expiry, that changes nothing. After a claim that succeeds the world's
  -- row names the claimant, the epoch and the expiry of the answer, which is fifteen seconds on.
  pub claim_explained :
      status_is_active row.lifecycle_status ≡ true
      → (row.domain_version == supported_domain_version) ≡ true
      → ClaimOutcome world instance_id m db_time row db
  unfolding claim_row
  claim_explained active supported =
      elim (Bool-cases (has_live_other_writer row instance_id m.db_now)) [
        | inl foreign ↦ record {
          answer = live_writer_conflict (Option.map get_time row.writer_expires_at);
          after = db;
          runs = reaches_row active supported ∙ rw foreign;
          explained = refuses foreign;
        }
        | inr free ↦ elim (Bool-cases (same_process_still_live row instance_id m.db_now)) [
          | inl own ↦ record {
            answer = claimed (granted world instance_id row.writer_epoch m);
            after = update_world world (extend_writer m) db;
            runs = reaches_row active supported ∙ rw (free, own) refl;
            explained = own_claim own;
          }
          | inr expired ↦ record {
            answer = claimed (granted world instance_id (row.writer_epoch + 1) m);
            after = taken_over world instance_id (row.writer_epoch + 1) m db_time db;
            runs = reaches_row active supported ∙ rw (free, expired) refl;
            explained = takes_over _ _ (no_writer free expired) refl (
                taken_row (row.writer_epoch + 1) _
                  (row_after (take_over instance_id (row.writer_epoch + 1) m) (λ r. refl)));
          }
        ]
      ]
