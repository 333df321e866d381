-- ===== src/Game/Room/Generations/Handlers.antt =====
-- What the handlers of BattleRoom.ts do to the generations of a session's connection.
use burning_space.Base.{
  ◌||◌, ℕ, Bool, true, false, not, Option, none, some, List, ◌≡◌, ◌==◌, inl, inr, arith, refl,
  subst, sym, Bool-cases, Option-cases,
}
use burning_space.Persistence.Authority.{
  ProfileTransactionResult, spectator_accepted, player_accepted, faction_conflict, identity_taken,
  credential_invalid, writer_authority_lost,
}
use burning_space.Persistence.SessionBinding
use burning_space.Persistence.SessionBinding.{
  SessionBinding, Bindings, change, next_generation, BindFreshSessionAuth, set_control_allowed,
  active, recovering, is_current_generation, set_lease, clear_lease,
}
use burning_space.Game.Numbers.{Numbers}
use burning_space.Game.Schema.{ParticipantState}
use burning_space.Game.Messages.{JsValue}
use burning_space.Game.Room.{BattleRoom, is_process_authority_safe}
use burning_space.Game.Room.Ships.{neutralize_input}
use burning_space.Game.Room.Inputs.{handle_player_input}
use burning_space.Game.Room.Profiles.{PendingProfile, settle, begin_profile, complete_profile}
use burning_space.Game.Room.Sessions.{
  set_active, still_active, holds, clear_if, PendingReconnect, on_join, begin_leave, leave_marked,
  begin_reconnect, complete_reconnect, heartbeat_settled, lease_of,
}
use burning_space.Game.Room.Events.{RoomSetting}
use burning_space.Game.Room.Generations.{
  remove_ship-bindings, upsert_ship-bindings, set_lease-HasPassed, clear_lease-HasPassed,
}
use burning_space.Persistence.SessionBinding.Passed.{
  HasPassed, change-HasPassed, bind_fresh_session-HasPassed,
}

module _ (F : Numbers) (setting : RoomSetting F) where
  module _ (session bound : ℕ) where
    grown-HasPassed :
        (bindings : Bindings)
        → (other : ℕ) → HasPassed session bound bindings
        → HasPassed session bound (change other next_generation bindings)
    grown-HasPassed bindings other =
        change-HasPassed session bound other next_generation bindings (λ b. refl) (λ b. omega arith)

    pub control-HasPassed :
        (other : ℕ) (allowed : Bool) (bindings : Bindings)
        → HasPassed session bound bindings
        → HasPassed session bound (set_control_allowed other allowed bindings)
    control-HasPassed other allowed bindings =
        change-HasPassed session bound other (λ b. record b { control_allowed = allowed }) bindings
          (λ b. refl) (λ b. omega arith)

    settle-HasPassed :
        (pending : PendingProfile) (participant : ParticipantState) (joined spawns : Bool)
        (result : ProfileTransactionResult) (room : BattleRoom F)
        → HasPassed session bound room.bindings
        → HasPassed session bound
            (settle F setting.codes_of pending participant joined spawns result room).0.bindings
    settle-HasPassed pending participant joined spawns spectator_accepted room h =
        subst (HasPassed session bound) (sym (remove_ship-bindings F pending.session_id room)) h
    settle-HasPassed pending participant joined true (player_accepted faction lease) room h =
        set_lease-HasPassed F session bound pending.session_id lease _ (
          subst (HasPassed session bound)
            (sym (
              upsert_ship-bindings F setting.codes_of pending.session_id pending.profile.nickname
                faction room))
            h)
    settle-HasPassed pending participant true false (player_accepted faction lease) room h =
        clear_lease-HasPassed F session bound pending.session_id room.bindings h
    settle-HasPassed pending participant false false (player_accepted faction lease) room h =
        clear_lease-HasPassed F session bound pending.session_id room.bindings h
    settle-HasPassed pending participant true spawns faction_conflict room h = h
    settle-HasPassed pending participant false spawns faction_conflict room h = h
    settle-HasPassed pending participant true spawns identity_taken room h = h
    settle-HasPassed pending participant false spawns identity_taken room h = h
    settle-HasPassed pending participant true spawns credential_invalid room h = h
    settle-HasPassed pending participant false spawns credential_invalid room h = h
    settle-HasPassed pending participant true spawns writer_authority_lost room h = h
    settle-HasPassed pending participant false spawns writer_authority_lost room h = h

    pub complete_profile-HasPassed :
        (pending : PendingProfile) (participant : ParticipantState) (joined spawns safe : Bool)
        (result : Option ProfileTransactionResult) (room : BattleRoom F)
        → HasPassed session bound room.bindings
        → HasPassed session bound
            (complete_profile F setting.codes_of pending participant joined spawns safe result
              room).0.bindings
    unfolding complete_profile
    complete_profile-HasPassed pending participant true spawns safe none room h = h
    complete_profile-HasPassed pending participant false spawns safe none room h = h
    complete_profile-HasPassed pending participant joined spawns safe (some result) room h =
        let checked = is_process_authority_safe F safe room in
        let bindings : checked.1.bindings ≡ room.bindings = ground arith in
        let kept = subst (HasPassed session bound) (sym bindings) h in
        elim (Bool-cases
          (is_current_generation pending.session_id pending.generation room.bindings)) [
            | inr g ↦ rw g h
            | inl g ↦ elim (Bool-cases checked.0) [
              | inr c ↦ rw g (rw c kept)
              | inl c ↦
                  rw g (
                    rw c (settle-HasPassed pending participant joined spawns result checked.1 kept))
            ]
          ]

    pub begin_profile-bindings :
        (joined : Bool) (other now : ℕ) (message : JsValue F) (room : BattleRoom F)
        → (begin_profile F setting.classes setting.profile_limit joined other now message
            room).0.bindings
          ≡ room.bindings
    unfolding begin_profile
    begin_profile-bindings joined other now message room = ground arith

    pub handle_player_input-bindings :
        (safe : Bool) (other monotonic_now now : ℕ) (message : JsValue F)
        (room after : BattleRoom F)
        → handle_player_input F setting.input_limit setting.fuel safe other monotonic_now now
            message room
          ≡ some after
        → after.bindings ≡ room.bindings
    unfolding handle_player_input
    handle_player_input-bindings safe other monotonic_now now message room after e = ground arith

    pub on_join-HasPassed :
        (world : Option ℕ) (other : ℕ) (codes : List ℕ) (auth : Option BindFreshSessionAuth)
        (now : ℕ) (room : BattleRoom F)
        → (other == session) ≡ false
        → HasPassed session bound room.bindings
        → HasPassed session bound (on_join F world other codes auth now room).1.bindings
    unfolding on_join
    on_join-HasPassed none other codes auth now room different h = h
    on_join-HasPassed (some world) other codes none now room different h = h
    on_join-HasPassed (some world) other codes (some auth) now room different h =
        elim (Bool-cases (auth.world_id == world)) [
          | inl e ↦
              rw e (bind_fresh_session-HasPassed session bound other auth room.bindings different h)
          | inr e ↦ rw e h
        ]

    pub begin_reconnect-HasPassed :
        (world : ℕ) (safe : Bool) (other : ℕ) (room : BattleRoom F)
        → HasPassed session bound room.bindings
        → HasPassed session bound (begin_reconnect F world safe other room).0.bindings
    unfolding begin_reconnect
    begin_reconnect-HasPassed world safe other room h =
        elim (Option-cases (SessionBinding.get other room.bindings)) [
          | inl e ↦ rw (e, begin_reconnect) h
          | inr (binding, e) ↦ elim (Bool-cases (not (binding.world_id == world) || not safe)) [
            | inl c ↦ rw (e, begin_reconnect) (rw c h)
            | inr c ↦ rw (e, begin_reconnect) (rw c (grown-HasPassed room.bindings other h))
          ]
        ]

    set_active-HasPassed :
        (other : ℕ) (lease : Option ℕ) (room : BattleRoom F)
        → HasPassed session bound room.bindings
        → HasPassed session bound (set_active F other lease room).bindings
    set_active-HasPassed other none room h = h
    set_active-HasPassed other (some lease) room h =
        set_lease-HasPassed F session bound other lease room.bindings h

    clear_if-HasPassed :
        (other : ℕ) (lease : Option ℕ) (room : BattleRoom F)
        → HasPassed session bound room.bindings
        → HasPassed session bound (clear_if F other lease room).bindings
    clear_if-HasPassed other none room h = h
    clear_if-HasPassed other (some lease) room h =
        clear_lease-HasPassed F session bound other room.bindings h

    pub complete_reconnect-HasPassed :
        (pending : PendingReconnect) (answer safe : Bool) (room : BattleRoom F)
        → HasPassed session bound room.bindings
        → HasPassed session bound (complete_reconnect F pending answer safe room).room.bindings
    unfolding complete_reconnect
    complete_reconnect-HasPassed pending answer safe room h =
        let lease = lease_of pending.query in
        elim (Bool-cases
          (not (is_current_generation pending.session_id pending.generation room.bindings))) [
            | inl g ↦ rw g h
            | inr g ↦ elim (Bool-cases (not (still_active pending.query answer) || not safe)) [
              | inl c ↦ rw g (rw c (clear_if-HasPassed pending.session_id lease room h))
              | inr c ↦ rw g (
                  rw c (
                    control-HasPassed pending.session_id true
                      (set_active F pending.session_id lease room).bindings
                      (set_active-HasPassed pending.session_id lease room h)))
            ]
          ]

    pub heartbeat_settled-HasPassed :
        (other lease : ℕ) (renewed : Bool) (room : BattleRoom F)
        → HasPassed session bound room.bindings
        → HasPassed session bound (heartbeat_settled F other lease renewed room).bindings
    unfolding heartbeat_settled neutralize_input
    heartbeat_settled-HasPassed other lease true room h = h
    heartbeat_settled-HasPassed other lease false room h =
        elim (Bool-cases (holds F other lease room)) [
          | inr e ↦ rw e h
          | inl e ↦ rw e (
              clear_lease-HasPassed F session bound other _
                (control-HasPassed other false room.bindings h))
        ]

    pub leave_marked-HasPassed :
        (other lease : ℕ) (found : Bool) (room : BattleRoom F)
        → HasPassed session bound room.bindings
        → HasPassed session bound (leave_marked F other lease found room).bindings
    unfolding leave_marked
    leave_marked-HasPassed other lease true room h =
        change-HasPassed session bound other
          (λ b. record b { lease_id = some lease; lease_status = some recovering }) room.bindings
          (λ b. refl) (λ b. omega arith) h
    leave_marked-HasPassed other lease false room h =
        clear_lease-HasPassed F session bound other room.bindings h

    pub begin_leave-HasPassed :
        (other : ℕ) (room : BattleRoom F)
        → HasPassed session bound room.bindings
        → HasPassed session bound (begin_leave F other room).bindings
    unfolding begin_leave neutralize_input
    begin_leave-HasPassed other room h =
        grown-HasPassed (set_control_allowed other false room.bindings) other
          (control-HasPassed other false room.bindings h)
