-- ===== src/Persistence/History/Constraints.antt =====
-- The constraints of the table of leases over whole histories, and the faction of a member.
use burning_space.Persistence.Credentials.{is_lease_of_credential}
use burning_space.Persistence.Worlds.{is_of_other_epoch}
use burning_space.Persistence.Authority.{acquire_params}
use burning_space.Base.{◌+◌, refl, ◌≡◌, List}
use burning_space.Persistence.Schema.{Db}
use burning_space.Persistence.Leases.{reclaim}
use burning_space.Persistence.Leases.Shape.{
  fresh-IsWellFormed, released-IsWellFormed, IsWellFormed, update_leases-IsWellFormed,
  refresh_existing-IsWellFormed,
}
use burning_space.Persistence.History.{DbCall, run}
use burning_space.Persistence.History.Kept.{Kept}
use burning_space.Persistence.History.Keeps.{run-kept}

-- The constraints look at the leases only.
same_leases : {db other : Db} → other.leases ≡ db.leases → IsWellFormed db → IsWellFormed other
same_leases e v = record { shaped = rw e v.shaped; keyed = λ w p. rw e (v.keyed w p) }

-- Only a fresh key is inserted; the reclaim's case needs no INSERT.
IsWellFormed-kept : Kept IsWellFormed
IsWellFormed-kept = record {
  players_changed = λ db rows v. same_leases refl v;
  membership_inserted = λ db w p f now e v. same_leases refl v;
  membership_assigned = λ db w p f now row e n v. same_leases refl v;
  worlds_updated = λ db q f k v. same_leases refl v;
  writer_taken = λ db w i m t row found v.
      same_leases refl (released-IsWellFormed (is_of_other_epoch w (row.writer_epoch + 1)) t db v);
  lease_inserted = λ db o c m w free v. fresh-IsWellFormed _ db refl free v;
  lease_reclaimed = λ db o c m w v.
      update_leases-IsWellFormed _ (reclaim (acquire_params o c) m) (λ w' p row. refl)
        (λ row q h. refl) db v;
  lease_refreshed = λ db params m existing found active v.
      refresh_existing-IsWellFormed params m existing db found active v;
  leases_updated = λ db q f c v. update_leases-IsWellFormed q f c.key c.shape db v;
  credential_inserted = λ db fresh p h e v. same_leases refl v;
  credential_revoked = λ db q p c t t' v.
      same_leases refl (released-IsWellFormed (is_lease_of_credential p c) t' db v);
}

-- Whatever sequence of transactions the server's processes run, with whatever options, credentials
-- and clock readings, the rows of the table of leases satisfy the CHECK on status, reconnect deadline
-- and expiry, and no two rows have the same world and player, if this holds at the start.
pub run-IsWellFormed :
    (calls : List DbCall) (db : Db) → IsWellFormed db → IsWellFormed (run calls db)
run-IsWellFormed = run-kept IsWellFormed IsWellFormed-kept
