-- ===== src/Persistence/History/Takeovers.antt =====
-- The writer's epoch of a world over whole histories: it never goes back.
use burning_space.Base.{
  find_where_holds, ==_iff, ap, sym, true, List, ℕ, ◌≡◌, ◌≤◌, ◌+◌, ◌∙◌, refl, arith, Bool, some,
  find_where-update_where, change_if, update_where,
}
use burning_space.Persistence.Schema.{WorldRow, Db, Moment}
use burning_space.Persistence.Worlds.{is_world, world_of, take_over}
use burning_space.Persistence.History.{DbCall, run}
use burning_space.Persistence.History.Kept.{Kept}
use burning_space.Persistence.History.Keeps.{run-kept}

-- The world exists, and its epoch is at least the bound.
pub record HasEpochFrom (world bound : ℕ) (db : Db) : Type 0 where
  pub row : WorldRow
  pub found : world_of world db ≡ some row
  pub reached : bound ≤ row.writer_epoch

module _ (world bound : ℕ) where
  updated-HasEpochFrom :
      (db : Db) (q : WorldRow → Bool) (f : WorldRow → WorldRow)
      → ((row : WorldRow) → (f row).world_id ≡ row.world_id)
      → ((row : WorldRow)
          → world_of world db ≡ some row
          → q row ≡ true
          → row.writer_epoch ≤ (f row).writer_epoch)
      → HasEpochFrom world bound db
      → HasEpochFrom world bound (record db { worlds = update_where q f db.worlds })
  updated-HasEpochFrom db q f key grows h = record {
    row = change_if q f h.row;
    found =
        find_where-update_where (is_world world) q f db.worlds (λ r. ground (arith, key r))
        ∙ rw h.found;
    reached = ground (arith, h.reached, grows h.row h.found);
  }

  same_worlds :
      {db other : Db}
      → other.worlds ≡ db.worlds
      → HasEpochFrom world bound db
      → HasEpochFrom world bound other
  same_worlds e h = record { row = h.row; found = rw e h.found; reached = h.reached }

  taken :
      (db : Db) (w i : ℕ) (m : Moment) (row : WorldRow)
      → world_of w db ≡ some row
      → HasEpochFrom world bound db
      → HasEpochFrom world bound (record db {
        worlds = update_where (is_world w) (take_over i (row.writer_epoch + 1) m) db.worlds;
      })
  taken db w i m row found h =
      updated-HasEpochFrom db (is_world w) (take_over i (row.writer_epoch + 1) m) (λ r. refl)
        (λ r at e. ground (arith, same r at e)) h
    where
      same : (r : WorldRow) → world_of world db ≡ some r → is_world w r ≡ true → some row ≡ some r
      same r at e =
          sym found
          ∙ ap (λ v. world_of v db)
              (sym ((==_iff r.world_id w).0 e)
                ∙ (==_iff r.world_id world).0 (find_where_holds (is_world world) db.worlds at))
          ∙ at

  HasEpochFrom-kept : Kept (HasEpochFrom world bound)
  HasEpochFrom-kept = record {
    players_changed = λ db rows h. same_worlds refl h;
    membership_inserted = λ db w p f now free h. same_worlds refl h;
    membership_assigned = λ db w p f now row found unset h. same_worlds refl h;
    worlds_updated = λ db q f k h.
        updated-HasEpochFrom db q f k.world_id (λ row found e. ground (arith, k.writer_epoch row))
          h;
    writer_taken = λ db w i m t row found h. same_worlds refl (taken db w i m row found h);
    lease_inserted = λ db o ctx m w free h. same_worlds refl h;
    lease_reclaimed = λ db o ctx m w h. same_worlds refl h;
    lease_refreshed = λ db params m existing found active h. same_worlds refl h;
    leases_updated = λ db q f k h. same_worlds refl h;
    credential_inserted = λ db fresh p hash free h. same_worlds refl h;
    credential_revoked = λ db q p credential t now h. same_worlds refl h;
  }

-- Whatever sequence of transactions runs, a world that has reached an epoch stays in the table, with
-- that epoch or a later one.
pub run-HasEpochFrom :
    (calls : List DbCall) (db : Db) (world bound : ℕ)
    → HasEpochFrom world bound db
    → HasEpochFrom world bound (run calls db)
run-HasEpochFrom calls db world bound =
    run-kept (HasEpochFrom world bound) (HasEpochFrom-kept world bound) calls db
