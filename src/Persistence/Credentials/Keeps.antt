-- ===== src/Persistence/Credentials/Keeps.antt =====
-- The rules for the operations that write credentials.
use burning_space.Base.{
  arith, true, ◌==◌, ◌∷◌, ℕ, ◌≡◌, none, inl, inr, Option-cases, Bool-cases, find_where,
}
use burning_space.Persistence.Schema.{Db}
use burning_space.Persistence.Transaction.{return, ◌>>=◌}
use burning_space.Persistence.Transaction.Preserves.{Preserves-bind, Preserves, Ends}
use burning_space.Persistence.Credentials.{
  can_insert_credential, return, is_active_of, has_id, is_pair, is_unrevoked, new_credential,
  insert_credential, revoked_db, revoke_found, revoke_credential, rotate_found, rotate_credential,
  rotated,
}

module _ (R : Db → Type 0) where
  insert_Preserves :
      (fresh player hash : ℕ) (db : Db)
      → R db
      → ((find_where (is_active_of player) db.credentials ≡ none)
          → R (record db { credentials = new_credential fresh player hash ∷ db.credentials }))
      → Ends (λ _. R) (insert_credential fresh player hash db)
  unfolding insert_credential
  insert_Preserves fresh player hash db r inserts =
      elim (Bool-cases (can_insert_credential fresh player hash db)) [
        | inl allowed ↦ rw (allowed, insert_credential) (inserts (free_of allowed))
        | inr refused ↦ rw (refused, insert_credential) tt
      ]
    where
      free_of :
          can_insert_credential fresh player hash db ≡ true
          → find_where (is_active_of player) db.credentials ≡ none
      free_of allowed = ground (arith, allowed)

  pub insert_credential-Preserves :
      (fresh player hash : ℕ)
      → ((db : Db)
          → find_where (is_active_of player) db.credentials ≡ none
          → R db
          → R (record db { credentials = new_credential fresh player hash ∷ db.credentials }))
      → Preserves R (insert_credential fresh player hash)
  insert_credential-Preserves fresh player hash h db r =
      insert_Preserves fresh player hash db r (λ free. h db free r)

  pub revoke_credential-Preserves :
      (player credential now released_at : ℕ)
      → ((db : Db)
          → R db
          → R (revoked_db (is_pair player credential) player credential now released_at db))
      → Preserves R (revoke_credential player credential now released_at)
  unfolding revoke_credential
  revoke_credential-Preserves player credential now released_at h db r =
      elim (Option-cases (find_where (is_pair player credential) db.credentials)) [
        | inl absent ↦ rw (absent, revoke_credential, revoke_found) r
        | inr (row, found) ↦
            rw (found, revoke_credential, revoke_found)
              (elim (Bool-cases (is_unrevoked row)) [
                | inl active ↦ rw active (h db r)
                | inr revoked ↦ rw revoked r
              ])
      ]

  module _ (player credential hash fresh now released_at : ℕ)
      (revokes : (db : Db)
        → R db
        → R (revoked_db (has_id credential) player credential now released_at db))
      (inserts : (db : Db)
        → find_where (is_active_of player) db.credentials ≡ none
        → R db
        → R (record db { credentials = new_credential fresh player hash ∷ db.credentials })) where
    replace_Preserves :
        Preserves R (insert_credential fresh player hash >>= λ inserted. return (rotated inserted))
    replace_Preserves =
        Preserves-bind R (insert_credential fresh player hash)
          (λ inserted. return (rotated inserted))
          (insert_credential-Preserves fresh player hash inserts) (λ a db r. r)

    pub rotate_credential-Preserves :
        Preserves R (rotate_credential player credential hash fresh now released_at)
    unfolding rotate_credential
    rotate_credential-Preserves db r =
        elim (Option-cases (find_where (has_id credential) db.credentials)) [
          | inl absent ↦ rw (absent, rotate_credential, rotate_found) r
          | inr (row, found) ↦
              rw (found, rotate_credential, rotate_found)
                (elim (Bool-cases (row.player_id == player)) [
                  | inl own ↦ rw own (elim (Bool-cases (is_unrevoked row)) [
                    | inl active ↦ rw active (replace_Preserves _ (revokes db r))
                    | inr revoked ↦ rw revoked r
                  ])
                  | inr other ↦ rw other r
                ])
        ]
