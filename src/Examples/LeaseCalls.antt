-- ===== src/Examples/LeaseCalls.antt =====
-- The theorems on single calls, on the example's tables.
use burning_space.Base.{◌≡◌, ◌+◌, refl, arith, none, some, ltb, if◌then◌else◌}
use burning_space.Persistence.Schema.{Db, seconds, get_time}
use burning_space.Persistence.Transaction.{ok}
use burning_space.Persistence.Leases.{
  start_recovery, resume, AcquireLeaseParams, LeaseIdentityParams, mark_recovering,
  resume_recovering_lease, now_recovering, already_recovering, lease_of,
}
use burning_space.Persistence.Leases.Recovery.{mark_recovering_idempotent, resume-mark}
use burning_space.Persistence.Leases.Fencing.{after_call, releases, after_call_stale}
use burning_space.Persistence.Worlds.Claims.{ClaimOutcome, claim_explained}
use burning_space.Examples.{world_row, lease_row, tables, tables-IsWellFormed, late}

-- Another session of the player.
abbrev other_session : AcquireLeaseParams
other_session = record {
  world_id = 1;
  player_id = 2;
  credential_id = 4;
  server_instance_id = 5;
  writer_epoch = 1;
  room_id = 6;
  transport_session_id = 8;
  active_ttl_seconds = 45;
}

abbrev identity : LeaseIdentityParams
identity = record {
  world_id = 1;
  player_id = 2;
  lease_id = 3;
  server_instance_id = 5;
  writer_epoch = 1;
}

claim_explained_example : ClaimOutcome 1 9 late 50000000 world_row tables
claim_explained_example = claim_explained 1 9 late 50000000 world_row tables refl refl refl

mark_recovering_idempotent_example :
    (away : Db) × (mark_recovering identity 30 12000000 tables
      ≡ ok (now_recovering (some (get_time (12000000 + seconds 30))), away))
    × (mark_recovering identity 10 13000000 away
        ≡ ok (already_recovering (get_time (12000000 + seconds 30)), away))
mark_recovering_idempotent_example =
    mark_recovering_idempotent identity tables lease_row tables-IsWellFormed refl refl refl 30
      12000000 (omega arith) 10 13000000 (omega arith)

after_call_stale_example :
    after_call (releases (record identity { lease_id = 9 }) 12000000) tables ≡ tables
after_call_stale_example =
    after_call_stale (releases (record identity { lease_id = 9 }) 12000000) tables lease_row
      tables-IsWellFormed refl (omega arith)

resume-mark_example :
    (away back : Db) × (mark_recovering identity 30 12000000 tables
      ≡ ok (now_recovering (some (get_time (12000000 + seconds 30))), away))
    × (resume_recovering_lease identity 4 45 20000000 away
        ≡ ok (
          (if ltb 20000000 (12000000 + seconds 30)
              then some (get_time (20000000 + seconds 45))
              else none),
          back,
        ))
    × (lease_of 1 2 back
        ≡ some (
            if ltb 20000000 (12000000 + seconds 30)
            then resume 45 20000000 lease_row
            else start_recovery 30 12000000 lease_row))
resume-mark_example =
    resume-mark identity tables lease_row tables-IsWellFormed refl refl refl 30 12000000
      (omega arith) 45 20000000 (omega arith)
