-- ===== src/Persistence/RoomDependencies/Stack.antt =====
-- The installations as the list of those that are in force.
use burning_space.Base.{
  ℕ, ◌+◌, ◌<◌, true, false, Option, none, some, List, [], ◌∷◌, ◌≡◌, ◌∙◌, ◌==◌, ltb, if◌then◌else◌,
  arith, refl, ap, inl, inr, Bool-cases,
}
use burning_space.Persistence.RoomDependencies.{
  InstallationRecord, Installations, none_installed, compact_inactive_installations, deactivate,
  install, has_restored, restore, first_active, get_active_production_room_dependencies,
  InstallationCall, after_call, after_calls, installs, restores,
}

module _ {ℓ} (D : Type ℓ) where
  -- The abstract state: the installations in force with their numbers, the latest first, and how many
  -- were made. An installation is added in front, a restored one taken out, and the first is active.
  pub record InForce : Type ℓ where
    pub installed : List (ℕ × D)
    pub made : ℕ

  abbrev pub without : ℕ → List (ℕ × D) → List (ℕ × D)
  without id [] = []
  without id (d ∷ installed) = if d.0 == id then without id installed else d ∷ without id installed

  abbrev pub apply_call : InstallationCall D → InForce → InForce
  apply_call (installs dependencies) s = record {
    installed = (s.made, dependencies) ∷ s.installed;
    made = s.made + 1;
  }
  apply_call (restores id) s =
      if ltb id s.made then record s { installed = without id s.installed } else s

  unfoldable pub apply_calls : List (InstallationCall D) → InForce → InForce
  apply_calls [] s = s
  apply_calls (call ∷ calls) s = apply_calls calls (apply_call call s)

  abbrev pub head : List (ℕ × D) → Option D
  head [] = none
  head (d ∷ installed) = some d.1

  live : List (InstallationRecord D) → List (ℕ × D)
  live [] = []
  live (r ∷ records) = if r.active then (r.id, r.dependencies) ∷ live records else live records

  live-compact :
      (records : List (InstallationRecord D))
      → live (compact_inactive_installations D records) ≡ live records
  unfolding live compact_inactive_installations
  live-compact [] = refl
  live-compact (r ∷ records) = ground (arith, live-compact records)

  live-deactivate :
      (id : ℕ) (records : List (InstallationRecord D))
      → live (deactivate D id records) ≡ without id (live records)
  unfolding live deactivate
  live-deactivate id [] = refl
  live-deactivate id (r ∷ records) = ground (arith, live-deactivate id records)

  first_active-live :
      (records : List (InstallationRecord D)) → first_active D records ≡ head (live records)
  unfolding live first_active
  first_active-live [] = refl
  first_active-live (r ∷ records) = ground (arith, first_active-live records)

  without-twice :
      (id : ℕ) (installed : List (ℕ × D)) → without id (without id installed) ≡ without id installed
  without-twice id [] = refl
  without-twice id (d ∷ installed) = ground (arith, without-twice id installed)

  without-commutes :
      (j k : ℕ) (installed : List (ℕ × D))
      → without j (without k installed) ≡ without k (without j installed)
  without-commutes j k [] = refl
  without-commutes j k (d ∷ installed) = ground (arith, without-commutes j k installed)

  -- The states match, and a restored installation was made and is not in force.
  record IsImplemented (s : Installations D) (a : InForce) : Type ℓ where
    matches : live s.records ≡ a.installed
    counted : s.next ≡ a.made
    gone :
        (id : ℕ)
        → has_restored D id s.restored ≡ true
        → (id < s.next) × (without id (live s.records) ≡ live s.records)

  install-IsImplemented :
      (dependencies : D) (s : Installations D) (a : InForce)
      → IsImplemented s a
      → IsImplemented (install D dependencies s) (apply_call (installs dependencies) a)
  unfolding live
  install-IsImplemented dependencies s a h = record {
    matches = ground (arith, h.matches, h.counted);
    counted = ground (arith, h.counted);
    gone = λ id e. (ground (arith, h.gone id e), ground (arith, h.gone id e));
  }

  restore-IsImplemented :
      (id : ℕ) (s : Installations D) (a : InForce)
      → IsImplemented s a
      → id < s.next
      → IsImplemented (restore D id s) (record a { installed = without id a.installed })
  restore-IsImplemented id s a h made = elim (Bool-cases (has_restored D id s.restored)) [
    | inl e ↦ rw e (record {
      matches = ground (arith, (h.gone id e).1, h.matches);
      counted = h.counted;
      gone = h.gone;
    })
    | inr e ↦
        let now = live-compact (deactivate D id s.records) ∙ live-deactivate id s.records in
        rw e (record {
          matches = now ∙ ap (without id) h.matches;
          counted = h.counted;
          gone = λ k restored. elim (Bool-cases (id == k)) [
            | inl same ↦ (ground arith, ground (arith, now, without-twice id (live s.records)))
            | inr other ↦ (
              ground (arith, h.gone k),
              ground (arith, now, h.gone k, without-commutes k id (live s.records)),
            )
          ];
        })
  ]

  after_call-IsImplemented :
      (call : InstallationCall D) (s : Installations D) (a : InForce)
      → IsImplemented s a
      → IsImplemented (after_call D call s) (apply_call call a)
  after_call-IsImplemented (installs dependencies) s a h = install-IsImplemented dependencies s a h
  after_call-IsImplemented (restores id) s a h = elim (Bool-cases (ltb id s.next)) [
    | inl e ↦
        let same : ltb id a.made ≡ true = ground (arith, h.counted) in
        rw e (rw same (restore-IsImplemented id s a h (ground arith)))
    | inr e ↦ let same : ltb id a.made ≡ false = ground (arith, h.counted) in rw e (rw same h)
  ]

  after_calls-IsImplemented :
      (calls : List (InstallationCall D)) (s : Installations D) (a : InForce)
      → IsImplemented s a
      → IsImplemented (after_calls D calls s) (apply_calls calls a)
  unfolding after_calls apply_calls
  after_calls-IsImplemented [] s a h = h
  after_calls-IsImplemented (call ∷ calls) s a h =
      after_calls-IsImplemented calls (after_call D call s) (apply_call call a)
        (after_call-IsImplemented call s a h)

  none_installed-IsImplemented :
      IsImplemented (none_installed D) (record { installed = []; made = 0 })
  unfolding live
  none_installed-IsImplemented = record {
    matches = refl;
    counted = refl;
    gone = λ id e. (ground arith, refl);
  }

  -- Whatever sequence of installations and restorations is made, in any order and with repetitions,
  -- the active dependencies are those of the latest installation that was not restored, and none if
  -- all were: the array with its inactive records implements the list of installations in force.
  pub after_calls-head :
      (calls : List (InstallationCall D))
      → get_active_production_room_dependencies D (after_calls D calls (none_installed D))
        ≡ head (apply_calls calls (record { installed = []; made = 0 })).installed
  unfolding get_active_production_room_dependencies
  after_calls-head calls =
      let none_made : InForce = record { installed = []; made = 0 } in
      let h =
        after_calls-IsImplemented calls (none_installed D) none_made none_installed-IsImplemented in
      first_active-live (after_calls D calls (none_installed D)).records ∙ ap head h.matches
