-- ===== src/Persistence/Credentials/Rotation.antt =====
-- `rotateCredential` and the unique index of the active credentials.
use burning_space.Base.{
  ℕ, ◌≡◌, ◌∙◌, refl, inl, inr, arith, Bool, true, false, none, some, List, [], ◌∷◌, ◌==◌,
  Bool-cases, find_where, update_where, find_where-update_where, AtMostOne,
}
use burning_space.Persistence.Schema.{CredentialRow, PlayerRow, Db}
use burning_space.Persistence.Transaction.{ok, ◌>>=◌}
use burning_space.Persistence.Credentials.{
  is_active_of, has_hash, has_id, is_unrevoked, new_credential, can_insert_credential,
  insert_credential, revoked_db, rotate_found, rotate_credential, rotated,
}

abbrev revoke_at : ℕ → CredentialRow → CredentialRow
revoke_at now row = record row { revoked_at = some now }

none_active :
    (player now : ℕ) (q : CredentialRow → Bool) (rows : List CredentialRow)
    → find_where (is_active_of player) rows ≡ none
    → find_where (is_active_of player) (update_where q (revoke_at now) rows) ≡ none
none_active player now q [] e = refl
none_active player now q (row ∷ rows) e = elim (Bool-cases (is_active_of player row)) [
  | inl live ↦ ground arith
  | inr gone ↦ ground (arith, none_active player now q rows)
]

found_inactive :
    (player : ℕ) (q : CredentialRow → Bool) (rows : List CredentialRow) (row : CredentialRow)
    → find_where (is_active_of player) rows ≡ none
    → find_where q rows ≡ some row
    → is_active_of player row ≡ false
found_inactive player q [] row e f = cc
found_inactive player q (r ∷ rows) row e f = elim (Bool-cases (is_active_of player r)) [
  | inl live ↦ ground arith
  | inr gone ↦ elim (Bool-cases (q r)) [
    | inl hit ↦ ground arith
    | inr miss ↦ found_inactive player q rows row (ground arith) (ground arith)
  ]
]

-- Revoking the one active credential leaves none.
one_revoked :
    (player now : ℕ) (q : CredentialRow → Bool) (rows : List CredentialRow) (row : CredentialRow)
    → AtMostOne (is_active_of player) rows
    → find_where q rows ≡ some row
    → is_active_of player row ≡ true
    → find_where (is_active_of player) (update_where q (revoke_at now) rows) ≡ none
one_revoked player now q [] row u f live = cc
one_revoked player now q (r ∷ rows) row u f live = elim (Bool-cases (q r)) [
  | inl hit ↦ ground (arith, u.0, none_active player now q rows)
  | inr miss ↦ elim (Bool-cases (is_active_of player r)) [
    | inl other ↦ ground (arith, u.0, found_inactive player q rows row)
    | inr gone ↦ ground (arith, one_revoked player now q rows row u.1)
  ]
]

-- The active credentials, and what a rotation does to them.
pub record IsRotated (player credential hash fresh now : ℕ) (before after : Db) : Type 0 where
  pub current :
      find_where (is_active_of player) after.credentials ≡ some (new_credential fresh player hash)
  pub single : AtMostOne (is_active_of player) after.credentials
  pub rows :
      after.credentials
      ≡ new_credential fresh player hash
        ∷ update_where (has_id credential) (revoke_at now) before.credentials

none-AtMostOne :
    (p : CredentialRow → Bool) (rows : List CredentialRow)
    → find_where p rows ≡ none
    → AtMostOne p rows
none-AtMostOne p [] e = tt
none-AtMostOne p (r ∷ rows) e = (λ h. ground arith, none-AtMostOne p rows (ground arith))

module _ (player credential hash fresh now released_at : ℕ) (db : Db) (row : CredentialRow)
    (owner : PlayerRow) (single : AtMostOne (is_active_of player) db.credentials)
    (found : find_where (has_id credential) db.credentials ≡ some row)
    (live : is_active_of player row ≡ true)
    (unused_hash : find_where (has_hash hash) db.credentials ≡ none)
    (unused_id : find_where (has_id fresh) db.credentials ≡ none)
    (exists : find_where (λ (p : PlayerRow). p.player_id == player) db.players ≡ some owner) where
  abbrev revoked : Db
  revoked = revoked_db (has_id credential) player credential now released_at db

  -- A condition that the UPDATE does not touch still selects no row.
  still_none :
      (p : CredentialRow → Bool)
      → ((r : CredentialRow) → p (revoke_at now r) ≡ p r)
      → find_where p db.credentials ≡ none
      → find_where p revoked.credentials ≡ none
  still_none p keep e =
      find_where-update_where p (has_id credential) (revoke_at now) db.credentials keep ∙ rw e

  none_left : find_where (is_active_of player) revoked.credentials ≡ none
  none_left = one_revoked player now (has_id credential) db.credentials row single found live

  admits : can_insert_credential fresh player hash revoked ≡ true
  admits =
      rw
        (
          none_left,
          still_none (has_hash hash) (λ r. refl) unused_hash,
          still_none (has_id fresh) (λ r. refl) unused_id,
          exists,
        )
        refl

  -- Rotating the active credential of a player of the table who has no other one, to a hash and an
  -- identifier that no credential has, never meets the unique index: it revokes the old credential
  -- before it inserts the new one, answers with it, and leaves it as the player's only active
  -- credential.
  pub rotate_credential-rotated :
      (after : Db) × (rotate_credential player credential hash fresh now released_at db
        ≡ ok (rotated fresh, after))
      × IsRotated player credential hash fresh now db after
  unfolding rotate_credential rotate_found insert_credential
  rotate_credential-rotated = (
    record revoked { credentials = new_credential fresh player hash ∷ revoked.credentials },
    rw (rotate_credential, found, rotate_found, own, unrevoked, ◌>>=◌, insert_credential, admits)
        refl,
    record {
      current = ground (arith, none_left);
      single = (λ h. none_left, none-AtMostOne (is_active_of player) revoked.credentials none_left);
      rows = refl;
    },
  )
    where
      own : (row.player_id == player) ≡ true
      own = ground (arith, live)

      unrevoked : is_unrevoked row ≡ true
      unrevoked = ground (arith, live)
