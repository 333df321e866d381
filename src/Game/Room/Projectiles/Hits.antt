-- ===== src/Game/Room/Projectiles/Hits.antt =====
-- Which ship a projectile hits.
use burning_space.Base.{
  ◌∙◌, ap, ◌⊎◌, ℕ, Bool, true, false, Option, none, some, [], ◌∷◌, ◌≡◌, All, inl, inr, arith, refl,
  Bool-cases, Option-cases, if◌then◌else◌,
}
use burning_space.Base.Maps.{Map}
use burning_space.Game.Numbers.{Numbers, IsAsymmetric, at_most}
use burning_space.Game.Schema.{ShipState, ProjectileState}
use burning_space.Game.Room.Projectiles.{
  Impact, impact_of, better, best_impact, find_projectile_hit,
}

module _ (F : Numbers) where
  open F use {Number, less}

  -- Numbers without NaN are totally preordered by `>=`.
  abbrev pub IsTotal : Type 0
  IsTotal = (a b c : Number) → less a b ≡ false → less b c ≡ false → less a c ≡ false

  module _ (projectile : ProjectileState F) (now : ℕ) where
    -- The ship of an entry is not hit before the fraction.
    abbrev pub NotBefore : Option Number → Number → Type 0
    NotBefore none t = Unit
    NotBefore (some s) t = less s t ≡ false

    abbrev pub IsFirst : Number → Map (ShipState F) → Type 0
    IsFirst t = All (λ e. NotBefore (impact_of F projectile now e.1) t)

    -- The impact is one of a ship among the entries.
    abbrev pub IsImpactOf : Impact F → Map (ShipState F) → Type 0
    IsImpactOf impact [] = ⊥
    IsImpactOf impact ((id, ship) ∷ ships) =
        ((id ≡ impact.ship_id) × (impact_of F projectile now ship ≡ some impact.t))
        ⊎ IsImpactOf impact ships

    abbrev pub NotAfter : Option (Impact F) → Number → Type 0
    NotAfter none t = Unit
    NotAfter (some best) t = less best.t t ≡ false

    abbrev pub IsFrom : Option (Impact F) → Map (ShipState F) → Impact F → Type 0
    IsFrom none ships impact = IsImpactOf impact ships
    IsFrom (some best) ships impact = (best ≡ impact) ⊎ IsImpactOf impact ships

    module _ (asymmetric : IsAsymmetric F) (total : IsTotal) where
      better-IsFirst :
          (best : Option (Impact F)) (id : ℕ) (hit : Option Number) (t : Number)
          → NotAfter (better F best id hit) t
          → NotBefore hit t × NotAfter best t
      better-IsFirst best id none t h = (tt, h)
      better-IsFirst none id (some s) t h = (h, tt)
      better-IsFirst (some best) id (some s) t h = elim (Bool-cases (at_most F best.t s)) [
        | inl e ↦ (ground (arith, total s best.t t), ground arith)
        | inr e ↦ (ground arith, ground (arith, total best.t s t, asymmetric s best.t))
      ]

      best_impact-IsFirst :
          (best : Option (Impact F)) (ships : Map (ShipState F)) (impact : Impact F)
          → best_impact F projectile now best ships ≡ some impact
          → IsFirst impact.t ships × NotAfter best impact.t
      unfolding best_impact
      best_impact-IsFirst none [] impact e = cc
      best_impact-IsFirst (some best) [] impact e = (tt, ground (arith, asymmetric best.t best.t))
      best_impact-IsFirst best ((id, ship) ∷ ships) impact e =
          let hit = impact_of F projectile now ship in
          let rest = best_impact-IsFirst (better F best id hit) ships impact e in
          let here = better-IsFirst best id hit impact.t rest.1 in ((here.0, rest.0), here.1)

    new-IsFrom :
        (id : ℕ) (ship : ShipState F) (s : Number) (ships : Map (ShipState F)) (impact : Impact F)
        → impact_of F projectile now ship ≡ some s
        → IsFrom (some (record { ship_id = id; t = s })) ships impact
        → IsImpactOf impact ((id, ship) ∷ ships)
    new-IsFrom id ship s ships impact hit (inl e) =
        inl (ap (λ i. i.ship_id) e, hit ∙ ap (λ i. some i.t) e)
    new-IsFrom id ship s ships impact hit (inr k) = inr k

    old-IsFrom :
        (best : Impact F) (id : ℕ) (ship : ShipState F) (ships : Map (ShipState F))
        (impact : Impact F)
        → IsFrom (some best) ships impact
        → IsFrom (some best) ((id, ship) ∷ ships) impact
    old-IsFrom best id ship ships impact (inl e) = inl e
    old-IsFrom best id ship ships impact (inr k) = inr (inr k)

    chosen-IsFrom :
        (best : Impact F) (id : ℕ) (ship : ShipState F) (s : Number) (ships : Map (ShipState F))
        (impact : Impact F) (keeps : Bool)
        → impact_of F projectile now ship ≡ some s
        → IsFrom (if keeps then some best else some (record { ship_id = id; t = s })) ships impact
        → IsFrom (some best) ((id, ship) ∷ ships) impact
    chosen-IsFrom best id ship s ships impact true hit h = old-IsFrom best id ship ships impact h
    chosen-IsFrom best id ship s ships impact false hit h =
        inr (new-IsFrom id ship s ships impact hit h)

    better-IsFrom :
        (best : Option (Impact F)) (id : ℕ) (ship : ShipState F) (hit : Option Number)
        (ships : Map (ShipState F)) (impact : Impact F)
        → impact_of F projectile now ship ≡ hit
        → IsFrom (better F best id hit) ships impact
        → IsFrom best ((id, ship) ∷ ships) impact
    better-IsFrom none id ship none ships impact e h = inr h
    better-IsFrom none id ship (some s) ships impact e h = new-IsFrom id ship s ships impact e h
    better-IsFrom (some best) id ship none ships impact e h = old-IsFrom best id ship ships impact h
    better-IsFrom (some best) id ship (some s) ships impact e h =
        chosen-IsFrom best id ship s ships impact (at_most F best.t s) e h

    best_impact-IsFrom :
        (best : Option (Impact F)) (ships : Map (ShipState F)) (impact : Impact F)
        → best_impact F projectile now best ships ≡ some impact
        → IsFrom best ships impact
    unfolding best_impact
    best_impact-IsFrom none [] impact e = cc
    best_impact-IsFrom (some best) [] impact e = inl cc
    best_impact-IsFrom best ((id, ship) ∷ ships) impact e =
        let hit = impact_of F projectile now ship in
        better-IsFrom best id ship hit ships impact refl
          (best_impact-IsFrom (better F best id hit) ships impact e)

    best_impact-none :
        (best : Option (Impact F)) (ships : Map (ShipState F))
        → best_impact F projectile now best ships ≡ none
        → (best ≡ none) × All (λ e. impact_of F projectile now e.1 ≡ none) ships
    unfolding best_impact
    best_impact-none best [] e = (e, tt)
    best_impact-none best ((id, ship) ∷ ships) e =
        let hit = impact_of F projectile now ship in
        let rest = best_impact-none (better F best id hit) ships e in
        (ground (arith, rest.0), (ground (arith, rest.0), rest.1))

    -- What a projectile hits, under no assumption on the ships: if nothing, it crosses no ship that
    -- it can damage; otherwise the hit is one of the ships, which it can damage and crosses at that
    -- fraction of its stretch, and it crosses none of the ships that it can damage at an earlier one.
    -- The order of the numbers is asymmetric and total.
    pub find_projectile_hit-IsFirst :
        IsAsymmetric F
        → IsTotal
        → (ships : Map (ShipState F))
        → ((find_projectile_hit F projectile now ships ≡ none)
            × All (λ e. impact_of F projectile now e.1 ≡ none) ships)
          ⊎ ((impact : Impact F) × (find_projectile_hit F projectile now ships ≡ some impact)
              × IsImpactOf impact ships
              × IsFirst impact.t ships)
    unfolding find_projectile_hit
    find_projectile_hit-IsFirst asymmetric total ships =
        elim (Option-cases (find_projectile_hit F projectile now ships)) [
          | inl e ↦ inl (e, (best_impact-none none ships e).1)
          | inr (impact, e) ↦ inr (
            impact,
            e,
            best_impact-IsFrom none ships impact e,
            (best_impact-IsFirst asymmetric total none ships impact e).0,
          )
        ]
