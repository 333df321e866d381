-- ===== src/Persistence/Credentials/Revocation.antt =====
-- What a revocation leaves of the credential.
use burning_space.Base.{
  sym, subst, ℕ, ◌≡◌, ◌∙◌, refl, false, none, some, inl, inr, Bool-cases, find_where,
  find_where-update_where, find_where_holds, true, Option, update_where,
}
use burning_space.Persistence.Schema.{CredentialRow, Db}
use burning_space.Persistence.Transaction.{ok, Result, run_transaction}
use burning_space.Persistence.Credentials.{
  already_revoked, RevokeCredentialResult, now_revoked, is_pair, is_unrevoked, is_present_unrevoked,
  revoke_credential, revoke_found, revoked_db,
}

-- The tables after the transaction.
abbrev pub after_revocation : ℕ → ℕ → ℕ → ℕ → Db → Db
after_revocation player credential now released_at db =
    (run_transaction (revoke_credential player credential now released_at) db).1

module _ (player credential now released_at : ℕ) (db : Db) where
  abbrev revoke_row : CredentialRow → CredentialRow
  revoke_row row = record row { revoked_at = some now }

  abbrev IsInactive : Result RevokeCredentialResult × Db → Type 0
  IsInactive out =
      is_present_unrevoked (find_where (is_pair player credential) out.1.credentials) ≡ false

  revokes :
      (row : CredentialRow)
      → is_unrevoked row ≡ true
      → run_transaction (revoke_found player credential now released_at (some row)) db ≡ (
        ok now_revoked,
        revoked_db (is_pair player credential) player credential now released_at db,
      )
  unfolding run_transaction revoke_found
  revokes row live = rw (live, run_transaction, revoke_found) refl

  leaves :
      (row : CredentialRow)
      → is_unrevoked row ≡ false
      → run_transaction (revoke_found player credential now released_at (some row)) db
        ≡ (ok already_revoked, db)
  unfolding run_transaction revoke_found
  leaves row gone = rw (gone, run_transaction, revoke_found) refl

  found_lem :
      (o : Option CredentialRow)
      → find_where (is_pair player credential) db.credentials ≡ o
      → is_present_unrevoked (
          find_where
            (is_pair player credential)
            (run_transaction (revoke_found player credential now released_at o) db).1.credentials)
        ≡ false
  unfolding run_transaction revoke_found
  found_lem none absent = rw absent refl
  found_lem (some row) found = elim (Bool-cases (is_unrevoked row)) [
    | inl live ↦ subst IsInactive (sym (revokes row live)) (rw (seen row found) refl)
    | inr gone ↦ subst IsInactive (sym (leaves row gone)) (rw found gone)
  ]
    where
      seen :
          (row : CredentialRow)
          → find_where (is_pair player credential) db.credentials ≡ some row
          → find_where
              (is_pair player credential)
              (update_where (is_pair player credential) revoke_row db.credentials)
            ≡ some (revoke_row row)
      seen row found =
          find_where-update_where (is_pair player credential) (is_pair player credential) revoke_row
            db.credentials (λ r. refl)
          ∙ rw (found, find_where_holds (is_pair player credential) db.credentials found) refl

  -- Whatever the revocation finds, the credential is not active after it.
  pub after_revocation_lem :
      is_present_unrevoked (
        find_where
          (is_pair player credential)
          (after_revocation player credential now released_at db).credentials)
      ≡ false
  unfolding revoke_credential run_transaction
  after_revocation_lem = found_lem (find_where (is_pair player credential) db.credentials) refl
