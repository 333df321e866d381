-- ===== src/Persistence/Credentials.antt =====
-- apps/server/src/persistence/repositories/credentialsRepository.ts: the verifiers of the players'
-- credentials. A verifier hash is a number, and the columns that are constant are left out.
pub mod Keeps
pub mod Revocation
pub mod Rotation
use mathlib.Core.Option
use burning_space.Base.{
  ◌∷◌, ◌||◌, not, is_some, is_none, if◌then◌else◌, ◌&&◌, ℕ, Bool, true, false, Option, none, some,
  ◌==◌, find_where, update_where,
}
use burning_space.Persistence.Schema.{CredentialRow, PlayerRow, LeaseRow, Db}
use burning_space.Persistence.Transaction.{throw, return, Tx, ◌>>=◌, query_failed}
use burning_space.Persistence.Leases.{is_released, release}

abbrev pub is_unrevoked : CredentialRow → Bool
is_unrevoked row = is_none row.revoked_at

-- `player_credentials_one_active_per_player_uidx`.
abbrev pub is_active_of : ℕ → CredentialRow → Bool
is_active_of player row = row.player_id == player && is_unrevoked row

abbrev pub has_hash : ℕ → CredentialRow → Bool
has_hash hash row = row.credential_hash == hash

abbrev pub has_id : ℕ → CredentialRow → Bool
has_id credential row = row.credential_id == credential

-- `WHERE player_id = $1 AND credential_id = $2`.
abbrev pub is_pair : ℕ → ℕ → CredentialRow → Bool
is_pair player credential row = row.player_id == player && row.credential_id == credential

abbrev pub new_credential : ℕ → ℕ → ℕ → CredentialRow
new_credential fresh player hash = record {
  credential_id = fresh;
  player_id = player;
  credential_hash = hash;
  revoked_at = none;
}

-- The constraints of `player_credentials` in
-- apps/server/db/migrations/001_persistent_identity_foundation.sql that a new row may violate: the
-- partial unique index of the active credentials, the unique hash, the primary key and the player's
-- foreign key.
abbrev pub can_insert_credential : ℕ → ℕ → ℕ → Db → Bool
can_insert_credential fresh player hash db =
    not (is_some (find_where (is_active_of player) db.credentials))
    && not (is_some (find_where (has_hash hash) db.credentials))
    && not (is_some (find_where (has_id fresh) db.credentials))
    && is_some (find_where (λ (row : PlayerRow). row.player_id == player) db.players)

-- `insertCredential`: an INSERT, which throws when the database refuses the row.
unfoldable pub insert_credential : ℕ → ℕ → ℕ → Tx ℕ
insert_credential fresh player hash db =
    if can_insert_credential fresh player hash db
    then return fresh
        (record db { credentials = new_credential fresh player hash ∷ db.credentials })
    else throw query_failed

pub data CredentialLookup : Type 0 where
  active revoked : ℕ → ℕ → CredentialLookup
  missing : CredentialLookup

looked_up : Option CredentialRow → CredentialLookup
looked_up none = missing
looked_up (some row) =
    if is_unrevoked row
    then active row.player_id row.credential_id
    else revoked row.player_id row.credential_id

pub find_credential_by_hash : ℕ → Tx CredentialLookup
unfolding looked_up
find_credential_by_hash hash db = return (looked_up (find_where (has_hash hash) db.credentials)) db

-- The player and the credential, if it is active.
pub find_active_credential_by_hash : ℕ → Tx (Option (ℕ × ℕ))
find_active_credential_by_hash hash db =
    return
      (Option.map (λ row. (row.player_id, row.credential_id))
        (find_where (λ row. has_hash hash row && is_unrevoked row) db.credentials))
      db

unfoldable pub is_credential_active_for_player : ℕ → ℕ → Tx Bool
is_credential_active_for_player player credential db =
    return
      (is_some
        (find_where (λ row. is_pair player credential row && is_unrevoked row) db.credentials))
      db

-- `row !== undefined && row.revoked_at === null`.
abbrev pub is_present_unrevoked : Option CredentialRow → Bool
is_present_unrevoked none = false
is_present_unrevoked (some row) = is_unrevoked row

unfoldable pub lock_active_credential_for_player : ℕ → ℕ → Tx Bool
lock_active_credential_for_player player credential db =
    return (is_present_unrevoked (find_where (is_pair player credential) db.credentials)) db

abbrev pub is_lease_of_credential : ℕ → ℕ → LeaseRow → Bool
is_lease_of_credential player credential row =
    row.player_id == player && row.credential_id == credential && not (is_released row.status)

-- The UPDATE of `player_credentials`, then `releaseLeasesForCredential` at one reading of the clock.
abbrev pub revoked_db : (CredentialRow → Bool) → ℕ → ℕ → ℕ → ℕ → Db → Db
revoked_db q player credential revoked_at released_at db = record db {
  credentials = update_where q (λ row. record row { revoked_at = some revoked_at }) db.credentials;
  leases = update_where (is_lease_of_credential player credential) (release released_at) db.leases;
}

pub data RevokeCredentialResult : Type 0 where
  now_revoked already_revoked not_found : RevokeCredentialResult

revoke_found : ℕ → ℕ → ℕ → ℕ → Option CredentialRow → Tx RevokeCredentialResult
revoke_found player credential now released_at none db = return not_found db
revoke_found player credential now released_at (some row) db =
    if is_unrevoked row
    then return now_revoked
        (revoked_db (is_pair player credential) player credential now released_at db)
    else return already_revoked db

unfoldable pub revoke_credential : ℕ → ℕ → ℕ → ℕ → Tx RevokeCredentialResult
unfolding revoke_found
revoke_credential player credential now released_at db =
    revoke_found player credential now released_at
      (find_where (is_pair player credential) db.credentials) db

pub data RotateCredentialResult : Type 0 where
  rotated : ℕ → RotateCredentialResult
  not_found mismatched_player already_revoked : RotateCredentialResult

rotate_found : ℕ → ℕ → ℕ → ℕ → ℕ → ℕ → Option CredentialRow → Tx RotateCredentialResult
unfolding insert_credential
rotate_found player credential hash fresh now released_at none db =
    return RotateCredentialResult.not_found db
rotate_found player credential hash fresh now released_at (some row) db =
    if not (row.player_id == player)
    then return RotateCredentialResult.mismatched_player db
    else if not (is_unrevoked row)
    then return RotateCredentialResult.already_revoked db
    else (insert_credential fresh player hash >>= λ inserted. return (rotated inserted))
        (revoked_db (has_id credential) player credential now released_at db)

unfoldable pub rotate_credential : ℕ → ℕ → ℕ → ℕ → ℕ → ℕ → Tx RotateCredentialResult
unfolding rotate_found
rotate_credential player credential hash fresh now released_at db =
    rotate_found player credential hash fresh now released_at
      (find_where (has_id credential) db.credentials) db
