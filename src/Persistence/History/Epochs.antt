-- ===== src/Persistence/History/Epochs.antt =====
-- The writer's epoch over whole histories: a lease that is not released belongs to the current epoch
-- of its world.
use mathlib.Core.Option
use burning_space.Base.{
  sym, ap, false, All-update_where_some, All-mono, ◌==◌, ℕ, ◌≡◌, ◌⊎◌, ◌+◌, ◌∙◌, refl, inl, inr,
  arith, Bool, true, Option, none, some, List, All, All-update_where_to, find_where, update_where,
  change_if, find_where-update_where, find_where_holds, Option-cases, Bool-cases, ==_iff,
}
use burning_space.Persistence.Schema.{WorldRow, LeaseStatus, LeaseRow, Db, Moment}
use burning_space.Persistence.Worlds.{is_world, take_over, is_of_other_epoch, taken_over}
use burning_space.Persistence.Credentials.{is_lease_of_credential}
use burning_space.Persistence.Leases.{is_released, release, has_key, reclaim}
use burning_space.Persistence.Authority.{acquire_params}
use burning_space.Persistence.History.{DbCall, run}
use burning_space.Persistence.History.Kept.{Kept, KeepsEpoch, LeaseChange}
use burning_space.Persistence.History.Keeps.{run-kept}

abbrev pub epoch_of : ℕ → List WorldRow → Option ℕ
epoch_of world rows = Option.map (λ row. row.writer_epoch) (find_where (is_world world) rows)

abbrev IsOfEpoch : List WorldRow → LeaseRow → Type 0
IsOfEpoch rows lease =
    (lease.status ≡ LeaseStatus.released) ⊎ (epoch_of lease.world_id rows ≡ some lease.writer_epoch)

-- Every lease that is not released has its world's epoch.
abbrev pub IsCurrent : Db → Type 0
IsCurrent db = All (IsOfEpoch db.worlds) db.leases

map-changed :
    (q : WorldRow → Bool) (f : WorldRow → WorldRow) (k : KeepsEpoch f) (o : Option WorldRow)
    → Option.map (λ row. row.writer_epoch) (Option.map (change_if q f) o)
      ≡ Option.map (λ row. row.writer_epoch) o
map-changed q f k none = refl
map-changed q f k (some row) = ground (arith, k.writer_epoch row)

epoch_of-updated :
    (q : WorldRow → Bool) (f : WorldRow → WorldRow) (k : KeepsEpoch f) (world : ℕ)
    (rows : List WorldRow)
    → epoch_of world (update_where q f rows) ≡ epoch_of world rows
epoch_of-updated q f k world rows =
    rw (find_where-update_where (is_world world) q f rows (λ r. ground (arith, k.world_id r)))
      (map-changed q f k (find_where (is_world world) rows))

released-IsCurrent :
    (q : LeaseRow → Bool) (now : ℕ) (db : Db)
    → IsCurrent db
    → All (IsOfEpoch db.worlds) (update_where q (release now) db.leases)
released-IsCurrent q now db c =
    All-update_where_to (IsOfEpoch db.worlds) (IsOfEpoch db.worlds) q (release now) db.leases
      (λ r e h. inl refl) (λ r h. h) c

changed-IsOfEpoch :
    (rows : List WorldRow) (q : LeaseRow → Bool) (f : LeaseRow → LeaseRow) (c : LeaseChange q f)
    (row : LeaseRow)
    → q row ≡ true
    → IsOfEpoch rows row
    → IsOfEpoch rows (f row)
changed-IsOfEpoch rows q f c row e h = elim (c.epoch row e) [
  | inl gone ↦ inl gone
  | inr same ↦ elim h [ inl gone ↦ absurd (same.0 gone) | inr now ↦ inr (rw (same.2, same.1) now) ]
]

is_released-released :
    (status : LeaseStatus) → is_released status ≡ true → status ≡ LeaseStatus.released
is_released-released LeaseStatus.active e = cc
is_released-released LeaseStatus.recovering e = cc
is_released-released LeaseStatus.released e = refl

epoch_found :
    (world : ℕ) (rows : List WorldRow) (row : WorldRow)
    → find_where (is_world world) rows ≡ some row
    → epoch_of world rows ≡ some row.writer_epoch
epoch_found world rows row found = rw found

-- The takeover: the leases of the world that are not of the new epoch are released, and none was.
taken-IsOfEpoch :
    (world instance_id : ℕ) (m : Moment) (db : Db) (row : WorldRow)
    → find_where (is_world world) db.worlds ≡ some row
    → (lease : LeaseRow) → IsOfEpoch db.worlds lease
    → (lease.status ≡ LeaseStatus.released)
      ⊎ (is_of_other_epoch world (row.writer_epoch + 1) lease ≡ true)
      ⊎ (epoch_of lease.world_id (
            update_where
              (is_world world)
              (take_over instance_id (row.writer_epoch + 1) m)
              db.worlds)
          ≡ some lease.writer_epoch)
taken-IsOfEpoch world instance_id m db row found lease h =
    elim (Bool-cases (lease.world_id == world)) [
      | inl same ↦ elim (Bool-cases (is_released lease.status)) [
        | inl gone ↦ inl (is_released-released lease.status gone)
        | inr live ↦ elim h [ inl gone ↦ inl gone | inr now ↦ inr (inl (here same live now)) ]
      ]
      | inr other ↦ elim h [ inl gone ↦ inl gone | inr now ↦ inr (inr (there other now)) ]
    ]
  where
    here :
        (lease.world_id == world) ≡ true
        → is_released lease.status ≡ false
        → epoch_of lease.world_id db.worlds ≡ some lease.writer_epoch
        → is_of_other_epoch world (row.writer_epoch + 1) lease ≡ true
    here same live now = ground (
      arith,
      (==_iff lease.world_id world).0 same,
      epoch_found world db.worlds row found,
      sym (ap (λ w. epoch_of w db.worlds) ((==_iff lease.world_id world).0 same)),
    )

    elsewhere :
        (lease.world_id == world) ≡ false
        → (r : WorldRow) → find_where (is_world lease.world_id) db.worlds ≡ some r
        → is_world world r ≡ false
    elsewhere other r at =
        ap (λ w. w == world)
          ((==_iff r.world_id lease.world_id).0
            (find_where_holds (is_world lease.world_id) db.worlds at))
        ∙ other

    unmoved :
        (lease.world_id == world) ≡ false
        → (r : WorldRow) → find_where (is_world lease.world_id) db.worlds ≡ some r
        → some r.writer_epoch ≡ some lease.writer_epoch
        → Option.map
            (λ row. row.writer_epoch)
            (Option.map
              (change_if (is_world world) (take_over instance_id (row.writer_epoch + 1) m))
              (find_where (is_world lease.world_id) db.worlds))
          ≡ some lease.writer_epoch
    unmoved other r at now = rw (at, elsewhere other r at) now

    there :
        (lease.world_id == world) ≡ false
        → epoch_of lease.world_id db.worlds ≡ some lease.writer_epoch
        → epoch_of lease.world_id (
            update_where
              (is_world world)
              (take_over instance_id (row.writer_epoch + 1) m)
              db.worlds)
          ≡ some lease.writer_epoch
    there other now =
        rw
          (find_where-update_where (is_world lease.world_id) (is_world world)
            (take_over instance_id (row.writer_epoch + 1) m) db.worlds (λ r. refl))
          (elim (Option-cases (find_where (is_world lease.world_id) db.worlds)) [
            | inl free ↦ ground (arith, free)
            | inr (r, at) ↦
                unmoved other r at (sym (epoch_found lease.world_id db.worlds r at) ∙ now)
          ])

still :
    (db : Db) (q : WorldRow → Bool) (f : WorldRow → WorldRow) (k : KeepsEpoch f) (lease : LeaseRow)
    → IsOfEpoch db.worlds lease
    → IsOfEpoch (update_where q f db.worlds) lease
still db q f k lease (inl gone) = inl gone
still db q f k lease (inr now) = inr (rw (epoch_of-updated q f k lease.world_id db.worlds) now)

after-takeover :
    (world instance_id : ℕ) (m : Moment) (now : ℕ) (db : Db) (row : WorldRow)
    → find_where (is_world world) db.worlds ≡ some row
    → IsCurrent db
    → IsCurrent (taken_over world instance_id (row.writer_epoch + 1) m now db)
after-takeover world instance_id m now db row found c =
    All-update_where_some (IsOfEpoch db.worlds) (IsOfEpoch _)
      (is_of_other_epoch world (row.writer_epoch + 1)) (release now) db.leases
      (λ lease e h. inl refl)
      (λ lease e h. elim (taken-IsOfEpoch world instance_id m db row found lease h) [
        | inl gone ↦ inl gone
        | inr (inl stale) ↦ cc
        | inr (inr now) ↦ inr now
      ])
      c

owned :
    (world : ℕ) (rows : List WorldRow) (row : WorldRow) (epoch : ℕ) (lease : LeaseRow)
    → find_where (is_world world) rows ≡ some row
    → row.writer_epoch ≡ epoch
    → (lease.world_id == world) ≡ true
    → epoch_of lease.world_id rows ≡ some epoch
owned world rows row epoch lease found same here =
    ap (λ w. epoch_of w rows) ((==_iff lease.world_id world).0 here) ∙ rw (found, same)

IsCurrent-kept : Kept IsCurrent
IsCurrent-kept = record {
  players_changed = λ db rows c. c;
  membership_inserted = λ db w p f now e c. c;
  membership_assigned = λ db w p f now row e n c. c;
  worlds_updated = λ db q f k c. All-mono (λ lease h. still db q f k lease h) db.leases c;
  writer_taken = λ db w i m t row found c. after-takeover w i m t db row found c;
  lease_inserted = λ db o ctx m w free c. (inr (rw (w.found, w.epoch) refl), c);
  lease_reclaimed = λ db o ctx m w c.
      All-update_where_to (IsOfEpoch db.worlds) (IsOfEpoch db.worlds)
        (has_key o.world_id ctx.player_id) (reclaim (acquire_params o ctx) m) db.leases
        (λ lease e h.
          inr
            (owned o.world_id db.worlds w.row o.writer_epoch lease w.found w.epoch (ground arith)))
        (λ lease h. h) c;
  lease_refreshed = λ db params m existing found active c.
      All-update_where_to (IsOfEpoch db.worlds) (IsOfEpoch db.worlds) _ _ db.leases (λ lease e h. h)
        (λ lease h. h) c;
  leases_updated = λ db q f k c.
      All-update_where_to (IsOfEpoch db.worlds) (IsOfEpoch db.worlds) q f db.leases
        (λ lease e h. changed-IsOfEpoch db.worlds q f k lease e h) (λ lease h. h) c;
  credential_inserted = λ db fresh p h e c. c;
  credential_revoked = λ db q p credential t now c.
      released-IsCurrent (is_lease_of_credential p credential) now db c;
}

-- Whatever sequence of transactions the server's processes run, with whatever options, epochs and
-- clock readings they carry, every lease that is not released has the writer epoch that its world's
-- row has, if this holds at the start. So after a takeover no lease of an earlier writer is live, and
-- a process that lost the world cannot bring one back.
pub run-IsCurrent : (calls : List DbCall) (db : Db) → IsCurrent db → IsCurrent (run calls db)
run-IsCurrent = run-kept IsCurrent IsCurrent-kept
