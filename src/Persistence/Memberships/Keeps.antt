-- ===== src/Persistence/Memberships/Keeps.antt =====
-- The rule for `establishPlayerFaction`.
use burning_space.Base.{
  refl, ◌∷◌, ℕ, ◌≡◌, Option, none, some, inl, inr, Option-cases, Bool-cases, update_where,
}
use burning_space.Persistence.Schema.{Faction, MembershipRow, Db}
use burning_space.Persistence.Transaction.Preserves.{Ends, Preserves, Preserves-bind}
use burning_space.Persistence.Memberships.{
  membership_of, is_membership, new_membership, insert_membership, inserted_or, settle_locked,
  settle, assigned_row, assign, establish_player_faction, faction_eq,
}

-- A change of the memberships is kept, if an insertion on a free key and an assignment to a row
-- with no faction are.
module _ (R : Db → Type 0) (world player : ℕ) (requested : Faction) (now : ℕ)
    (inserts : (db : Db)
      → membership_of world player db ≡ none
      → R db
      → R (record db { memberships = new_membership world player requested now ∷ db.memberships }))
    (assigns : (db : Db) (row : MembershipRow)
      → membership_of world player db ≡ some row
      → row.faction ≡ none
      → R db
      → R (record db {
        memberships =
            update_where (is_membership world player) (assign requested now) db.memberships;
      })) where
  assigned_row_Preserves : (o : Option MembershipRow) → Preserves R (assigned_row o)
  unfolding assigned_row
  assigned_row_Preserves none db r = tt
  assigned_row_Preserves (some row) db r = r

  settle_Preserves :
      (existing : MembershipRow) (f : Option Faction) (db : Db)
      → membership_of world player db ≡ some existing
      → existing.faction ≡ f
      → R db
      → Ends (λ _. R) (settle world player requested now existing f db)
  unfolding settle
  settle_Preserves existing none db found e r =
      assigned_row_Preserves _ _ (assigns db existing found e r)
  settle_Preserves existing (some f) db found e r = elim (Bool-cases (faction_eq f requested)) [
    | inl same ↦ rw same r
    | inr other ↦ rw other r
  ]

  locked_Preserves :
      (db : Db) → R db → Ends (λ _. R) (inserted_or world player requested now none db)
  unfolding inserted_or
  locked_Preserves db r = elim (Option-cases (membership_of world player db)) [
    | inl free ↦ rw (free, settle_locked) tt
    | inr (existing, found) ↦
        rw (found, settle_locked) (settle_Preserves existing existing.faction db found refl r)
  ]

  inserted_or_Preserves :
      (o : Option MembershipRow) → Preserves R (inserted_or world player requested now o)
  unfolding inserted_or
  inserted_or_Preserves (some row) db r = r
  inserted_or_Preserves none db r = locked_Preserves db r

  insert_Preserves : Preserves R (insert_membership (new_membership world player requested now))
  unfolding insert_membership
  insert_Preserves db r = elim (Option-cases (membership_of world player db)) [
    | inl free ↦ rw (free, insert_membership) (inserts db free r)
    | inr (existing, found) ↦ rw (found, insert_membership) r
  ]

  pub establish_player_faction-Preserves :
      Preserves R (establish_player_faction world player requested now)
  unfolding establish_player_faction
  establish_player_faction-Preserves =
      Preserves-bind R (insert_membership (new_membership world player requested now))
        (inserted_or world player requested now) insert_Preserves inserted_or_Preserves
