-- ===== src/Persistence/History/Members.antt =====
-- The faction of a member over whole histories.
use mathlib.Core.Option
use burning_space.Base.{
  sym, ◌≢◌, ◌∷◌, ℕ, ◌≡◌, ◌==◌, ◌∙◌, ◌&&◌, refl, inl, inr, arith, true, false, Option, none, some,
  List, Option-cases, Bool-cases, ==_iff, find_where_holds, find_where-update_where, update_where,
}
use burning_space.Persistence.Schema.{Faction, MembershipRow, Db}
use burning_space.Persistence.Memberships.{membership_of, is_membership, new_membership, assign}
use burning_space.Persistence.History.{DbCall, run}
use burning_space.Persistence.History.Kept.{Kept}
use burning_space.Persistence.History.Keeps.{run-kept}

-- The column `faction` of a member's row.
abbrev pub faction_of : ℕ → ℕ → Db → Option (Option Faction)
faction_of world player db = Option.map (λ row. row.faction) (membership_of world player db)

module _ (world player : ℕ) (faction : Faction) where
  abbrev HasFaction : Db → Type 0
  HasFaction db = faction_of world player db ≡ some (some faction)

  same_key :
      (db : Db) (w p : ℕ) → w ≡ world → p ≡ player → faction_of w p db ≡ faction_of world player db
  same_key db w p e k = rw (e, k)

  unset_of_free :
      (db : Db) (w p : ℕ) → membership_of w p db ≡ none → w ≡ world → p ≡ player → ¬ (HasFaction db)
  unset_of_free db w p free e k h = no (sym h ∙ (sym (same_key db w p e k) ∙ rw free))
    where
      no : some (some faction) ≢ none
      no e = cc

  inserted_lem :
      (db : Db) (w p : ℕ) (f : Faction) (now : ℕ)
      → membership_of w p db ≡ none
      → HasFaction db
      → HasFaction (record db { memberships = new_membership w p f now ∷ db.memberships })
  inserted_lem db w p f now free h = elim (Bool-cases (w == world && p == player)) [
    | inl same ↦ absurd (
        unset_of_free db w p free ((==_iff w world).0 (ground arith))
          ((==_iff p player).0 (ground arith)) h)
    | inr other ↦ rw other h
  ]

  assigned_lem :
      (db : Db) (w p : ℕ) (f : Faction) (now : ℕ) (row : MembershipRow)
      → membership_of w p db ≡ some row
      → row.faction ≡ none
      → HasFaction db
      → HasFaction (record db {
        memberships = update_where (is_membership w p) (assign f now) db.memberships;
      })
  assigned_lem db w p f now row found unset h = elim (Bool-cases (world == w && player == p)) [
    | inl same ↦ absurd (
        taken row found unset ((==_iff world w).0 (ground arith))
          ((==_iff player p).0 (ground arith)))
    | inr other ↦
        rw
          (find_where-update_where (is_membership world player) (is_membership w p) (assign f now)
            db.memberships (λ r. refl))
          (elim (Option-cases (membership_of world player db)) [
            | inl free ↦ ground (arith, free, h)
            | inr (r, at) ↦ rw (at, elsewhere other r at) (sym (rw at) ∙ h)
          ])
  ]
    where
      no : some (some faction) ≢ some none
      no e = cc

      taken :
          (row : MembershipRow)
          → membership_of w p db ≡ some row
          → row.faction ≡ none
          → world ≡ w
          → player ≢ p
      taken row found unset e k =
          no (sym h ∙ (sym (same_key db w p (sym e) (sym k)) ∙ rw (found, unset)))

      keys :
          (r : MembershipRow)
          → membership_of world player db ≡ some r
          → ((r.world_id == world) ≡ true) × ((r.player_id == player) ≡ true)
      keys r at = (
        ground (arith, find_where_holds (is_membership world player) db.memberships at),
        ground (arith, find_where_holds (is_membership world player) db.memberships at),
      )

      elsewhere :
          (world == w && player == p) ≡ false
          → (r : MembershipRow) → membership_of world player db ≡ some r
          → is_membership w p r ≡ false
      elsewhere other r at = ground (
        arith,
        other,
        (==_iff r.world_id world).0 (keys r at).0,
        (==_iff r.player_id player).0 (keys r at).1,
      )

  HasFaction-kept : Kept HasFaction
  HasFaction-kept = record {
    players_changed = λ db rows h. h;
    membership_inserted = λ db w p f now free h. inserted_lem db w p f now free h;
    membership_assigned =
        λ db w p f now row found unset h. assigned_lem db w p f now row found unset h;
    worlds_updated = λ db q f k h. h;
    writer_taken = λ db w i m t row found h. h;
    lease_inserted = λ db o ctx m w free h. h;
    lease_reclaimed = λ db o ctx m w h. h;
    lease_refreshed = λ db params m existing found active h. h;
    leases_updated = λ db q f k h. h;
    credential_inserted = λ db fresh p hash e h. h;
    credential_revoked = λ db q p credential t now h. h;
  }

-- A player's faction in a world, once set, is the same after any sequence of transactions: joining
-- again with the other faction, reconnecting, a new credential or another writer never changes it.
pub run-faction_of :
    (calls : List DbCall) (db : Db) (world player : ℕ) (faction : Faction)
    → faction_of world player db ≡ some (some faction)
    → faction_of world player (run calls db) ≡ some (some faction)
run-faction_of calls db world player faction h =
    run-kept (HasFaction world player faction) (HasFaction-kept world player faction) calls db h
