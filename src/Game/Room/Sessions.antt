-- ===== src/Game/Room/Sessions.antt =====
-- BattleRoom.ts: onJoin, onLeave, revalidateReconnectedSession and the heartbeat of the leases, split
-- at their awaits.
use burning_space.Base.{
  suc, ◌+◌, ℕ, Bool, true, false, not, ◌&&◌, ◌||◌, Option, none, some, List, [], ◌∷◌, ◌==◌,
  is_some_eq, if◌then◌else◌, zero,
}
use burning_space.Base.Maps.{get, put}
use burning_space.Persistence.SessionBinding
use burning_space.Persistence.SessionBinding.{
  SessionBinding, HeldLeaseStatus, active, recovering, BindFreshSessionAuth, bind_fresh_session,
  begin_connection_generation, is_current_generation, set_control_allowed, set_lease, clear_lease,
}
use burning_space.Game.Numbers.{Numbers}
use burning_space.Game.Schema.{ParticipantState, spectator}
use burning_space.Game.Room.{BattleRoom, send_room_info}
use burning_space.Game.Room.Inputs.{is_player_in}
use burning_space.Game.Room.Ships.{neutralize_input, finalize_session}
use burning_space.Game.Room.Profiles.{RoomEffect, release_session_lease}

-- `Guest-${sessionId.slice(0, 4)}`.
abbrev pub take {ℓ} : {A : Type ℓ} → ℕ → List A → List A
take zero xs = []
take (suc n) [] = []
take (suc n) (x ∷ xs) = x ∷ take n xs

abbrev pub guest_name : List ℕ → List ℕ
guest_name codes = 71 ∷ 117 ∷ 101 ∷ 115 ∷ 116 ∷ 45 ∷ take 4 codes

abbrev pub guest : ℕ → List ℕ → ℕ → ParticipantState
guest session codes wall_now = record {
  session_id = session;
  nickname = guest_name codes;
  mode = spectator;
  faction = none;
  connected_at = wall_now;
  profile_ready = false;
}

-- What a reconnection has to ask the database before it gives control back.
pub data ReconnectQuery : Type 0 where
  -- resumeRecoveringSession, with leaseId and requireFaction.
  resume_lease : ℕ → Bool → ReconnectQuery
  -- A lease that is not recovering: nothing to ask, not active any more.
  lease_not_recovering : ℕ → ReconnectQuery
  -- revalidateCredential.
  revalidate_credential : ReconnectQuery

pub record PendingReconnect : Type 0 where
  pub session_id : ℕ
  pub player_id : ℕ
  pub credential_id : ℕ
  pub generation : ℕ
  pub query : ReconnectQuery

abbrev pub is_recovering : Option HeldLeaseStatus → Bool
is_recovering (some recovering) = true
is_recovering _ = false

abbrev pub is_active_lease : Option HeldLeaseStatus → Bool
is_active_lease (some active) = true
is_active_lease _ = false

abbrev pub query_of : SessionBinding → Option ParticipantState → ReconnectQuery
query_of binding participant = elim binding.lease_id [
  | none ↦ revalidate_credential
  | some lease ↦
      if is_recovering binding.lease_status
      then resume_lease lease (is_player_in participant)
      else lease_not_recovering lease
]

abbrev pub lease_of : ReconnectQuery → Option ℕ
lease_of (resume_lease lease faction) = some lease
lease_of (lease_not_recovering lease) = some lease
lease_of revalidate_credential = none

-- `stillActive`, from the answer to the query.
abbrev pub still_active : ReconnectQuery → Bool → Bool
still_active (lease_not_recovering lease) answer = false
still_active _ answer = answer

abbrev pub resumed_lease : ReconnectQuery → Bool → Bool
resumed_lease (resume_lease lease faction) answer = answer
resumed_lease _ answer = false

abbrev pub release_of : ℕ → Option ℕ → List RoomEffect
release_of player_id none = []
release_of player_id (some lease) = release_session_lease player_id lease ∷ []

module _ (F : Numbers) where
  -- `onJoin`, false when it makes the client leave. The room's world is that of the dependencies.
  unfoldable pub on_join :
      Option ℕ → ℕ → List ℕ → Option BindFreshSessionAuth → ℕ → BattleRoom F → Bool × BattleRoom F
  on_join (some world) session codes (some auth) wall_now room =
      if auth.world_id == world
      then (
        true,
        send_room_info F (record room {
          bindings = bind_fresh_session session auth room.bindings;
          participants = put session (guest session codes wall_now) room.participants;
        }),
      )
      else (false, room)
  on_join _ session codes auth wall_now room = (false, room)

  -- `onLeave` up to its first await.
  unfoldable pub begin_leave : ℕ → BattleRoom F → BattleRoom F
  begin_leave session room =
      let neutral = neutralize_input F session room in
      let closed = set_control_allowed session false neutral.bindings in
      record neutral { bindings = (begin_connection_generation session closed).1 }

  -- A consented leave: the lease that the binding names is released, and the session finalized.
  unfoldable pub leave_consented : ℕ → BattleRoom F → BattleRoom F × List RoomEffect
  leave_consented session room = (
    finalize_session F session room,
    elim (SessionBinding.get session room.bindings) [
      | none ↦ []
      | some binding ↦ release_of binding.player_id binding.lease_id
    ],
  )

  -- The answer to markSessionRecovering: whether it found the lease.
  unfoldable pub leave_marked : ℕ → ℕ → Bool → BattleRoom F → BattleRoom F
  leave_marked session lease found room = record room {
    bindings =
        if found
        then set_lease session lease recovering room.bindings
        else clear_lease session room.bindings;
  }

  -- The reconnection was not made in time. The binding and the lease are those that `onLeave` read.
  unfoldable pub leave_timed_out : ℕ → ℕ → Option ℕ → BattleRoom F → BattleRoom F × List RoomEffect
  leave_timed_out session player_id lease room =
      (finalize_session F session room, release_of player_id lease)

  abbrev pub pending_of : ℕ → SessionBinding → Option ParticipantState → PendingReconnect
  pending_of session binding participant = record {
    session_id = session;
    player_id = binding.player_id;
    credential_id = binding.credential_id;
    generation = binding.connection_generation + 1;
    query = query_of binding participant;
  }

  -- `revalidateReconnectedSession` up to its await, in the world of the dependencies.
  unfoldable pub begin_reconnect :
      ℕ → Bool → ℕ → BattleRoom F → BattleRoom F × Option PendingReconnect
  begin_reconnect world safe session room = elim (SessionBinding.get session room.bindings) [
    | none ↦ (room, none)
    | some binding ↦ if not (binding.world_id == world) || not safe then (room, none) else (
      record room { bindings = (begin_connection_generation session room.bindings).1 },
      some (pending_of session binding (get session room.participants)),
    )
  ]

  pub record Reconnected : Type 0 where
    pub reopened : Bool
    pub room : BattleRoom F
    pub effects : List RoomEffect

  abbrev pub set_active : ℕ → Option ℕ → BattleRoom F → BattleRoom F
  set_active session none room = room
  set_active session (some lease) room = record room {
    bindings = set_lease session lease active room.bindings;
  }

  abbrev pub clear_if : ℕ → Option ℕ → BattleRoom F → BattleRoom F
  clear_if session none room = room
  clear_if session (some lease) room = record room { bindings = clear_lease session room.bindings }

  abbrev pub reopen : ℕ → BattleRoom F → BattleRoom F
  reopen session room = record room { bindings = set_control_allowed session true room.bindings }

  -- `revalidateReconnectedSession` from its await on, with the database's answer.
  unfoldable pub complete_reconnect : PendingReconnect → Bool → Bool → BattleRoom F → Reconnected
  complete_reconnect pending answer safe room =
      let lease = lease_of pending.query in
      if not (is_current_generation pending.session_id pending.generation room.bindings)
      then record {
        reopened = false;
        room = room;
        effects =
            if resumed_lease pending.query answer then release_of pending.player_id lease else [];
      }
      else if not (still_active pending.query answer) || not safe
      then record {
        reopened = false;
        room = clear_if pending.session_id lease room;
        effects = release_of pending.player_id lease;
      }
      else record {
        reopened = true;
        room = reopen pending.session_id (set_active pending.session_id lease room);
        effects = [];
      }

  -- The heartbeat of one entry of the snapshot: whether it asks for the renewal, and what it does
  -- when it was not renewed.
  abbrev pub asks_for_renewal : ℕ → ℕ → BattleRoom F → Bool
  asks_for_renewal session lease room = elim (SessionBinding.get session room.bindings) [
    | none ↦ false
    | some binding ↦ is_some_eq binding.lease_id lease && is_active_lease binding.lease_status
  ]

  abbrev pub holds : ℕ → ℕ → BattleRoom F → Bool
  holds session lease room = elim (SessionBinding.get session room.bindings) [
    | none ↦ false
    | some binding ↦ is_some_eq binding.lease_id lease
  ]

  abbrev pub lose_lease : ℕ → BattleRoom F → BattleRoom F
  lose_lease session room = neutralize_input F session (record room {
    bindings = clear_lease session (set_control_allowed session false room.bindings);
  })

  unfoldable pub heartbeat_settled : ℕ → ℕ → Bool → BattleRoom F → BattleRoom F
  heartbeat_settled session lease renewed room =
      if renewed then room else if holds session lease room then lose_lease session room else room
