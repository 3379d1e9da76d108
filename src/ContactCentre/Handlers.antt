-- ===== src/ContactCentre/Handlers.antt =====
-- cmd/contact-centre/main.go and transfer_handlers.go: what the handlers of agents and supervisors
-- share. A handler goes over the registries in the order of the code, and lists what it asks of the
-- media server and tells the browsers. The answers of the media server are arguments. Each handler is
-- one function here, and runs of handlers are lists of them.
use example_applications.Base.{
  ℕ, String, concat, ◌==◌, string_eq, nat_eq, Bool, true, false, not, ◌&&◌, Option, none, some,
  List, [], ◌∷◌, ◌++◌, if◌then◌else◌,
}
use example_applications.ContactCentre.Registry
use example_applications.ContactCentre.Registry.{CallView, call_answered_by, set_hold}
use example_applications.ContactCentre.Transfers.{
  Transfer, TransferRegistry, target_supervisor, target_agent,
}
use example_applications.ContactCentre.Agents.{AgentRegistry}
use example_applications.ContactCentre.Intercoms.{IntercomRegistry}
pub mod Flow
pub mod Ends
pub mod Start
pub mod Calls
pub mod Settled
pub mod Answered
pub mod Progress
pub mod Runs
pub mod ConsultRooms

-- How a request about a leg ends: IsNotFound is told apart from other errors.
pub data Reply : Type 0 where
  done not_found refused : Reply

abbrev pub is_refused : Reply → Bool
is_refused refused = true
is_refused _ = false

abbrev pub is_done : Reply → Bool
is_done done = true
is_done _ = false

-- The answers of the media server, where a room that exists already counts as created, what
-- strings.CutPrefix finds after "supervisor:", and the agents that have a websocket.
pub record Env : Type 0 where
  pub create_room : String → Bool
  pub add_leg : String → String → Reply
  pub remove_leg : String → String → Reply
  pub play : String → Option String
  pub supervisor_of : String → Option String
  pub online : String → Bool

-- The texts of transferReasonRejected and so on, without the two that no handler gives.
pub data Reason : Type 0 where
  rejected cancelled target_disconnected customer_dropped timeout setup_failed : Reason

pub data Message : Type 0 where
  failed : Reason → Message
  cleared incoming ringing consulting active completed : Message
  error : String → Message

-- What a handler does outside the registries, and where it hands the call over among it.
pub data Act : Type 0 where
  creates_room deletes_room : (room : String) → Act
  adds_leg removes_leg : (room leg : String) → Act
  plays : (room : String) → Act
  stops_play : (room playback : String) → Act
  hangs_up : (leg : String) → Act
  hands_over : (call leg : String) → Act
  tells_supervisors tells_agent : (who : String) → Message → Act
  tells_session : ℕ → Message → Act
  replies : Message → Act

-- A supervisorPresence with its session.
pub record Session : Type 0 where
  pub id : ℕ
  pub username : String
  pub leg_id : String
  pub room_id : String

-- The fields of `app` that the handlers share; `active_calls` is supervisorActiveCalls.
pub record World : Type 0 where
  pub reg : Registry.Registry
  pub transfers : TransferRegistry
  pub agents : AgentRegistry
  pub intercoms : IntercomRegistry
  pub sessions : List Session
  pub active_calls : ℕ → Option String

-- NotifyChanged
abbrev pub notify_changed : World → World
notify_changed w = record w { reg = Registry.broadcast w.reg }

-- supervisorRegistry.Sessions
unfoldable pub sessions_of : String → List Session → List Session
sessions_of username [] = []
sessions_of username (s ∷ ss) =
    let rest = sessions_of username ss in
    if not (username == "") && s.username == username then s ∷ rest else rest

abbrev pub supervisor_id : String → String
supervisor_id username = concat "supervisor:" username

-- fanOutTransferTarget
unfoldable pub tell_target : Transfer → Message → List Act
tell_target t m =
    if t.target_kind == target_supervisor
    then tells_supervisors t.target m ∷ []
    else if t.target_kind == target_agent
    then tells_agent t.target m ∷ []
    else []

-- fanOutToOriginator
unfoldable pub tell_originator : Env → String → Message → List Act
tell_originator v from m = elim (v.supervisor_of from) [
  | none ↦ tells_agent from m ∷ []
  | some username ↦ tells_supervisors username m ∷ []
]

abbrev pub stop_music : String → String → List Act
stop_music room playback = if playback == "" then [] else stops_play room playback ∷ []

-- holdCaller, with the playback of the hold music unless it fails.
unfoldable pub hold_caller : Env → World → CallView → String → World × List Act × Option String
hold_caller v w call leg =
    if call.room_id == ""
    then (w, [], none)
    else if call.on_hold
    then (w, [], some call.hold_playback_id)
    else if leg == ""
    then (w, [], none)
    else if is_refused (v.remove_leg call.room_id leg)
    then (w, removes_leg call.room_id leg ∷ [], none)
    else elim (v.play call.room_id) [
      | none ↦ (
        w,
        removes_leg call.room_id leg ∷ plays call.room_id ∷ adds_leg call.room_id leg ∷ [],
        none,
      )
      | some playback ↦ (
        record w { reg = (set_hold w.reg call.leg_id true playback).0 },
        removes_leg call.room_id leg ∷ plays call.room_id ∷ [],
        some playback,
      )
    ]

-- restoreCaller, and whether it succeeds.
unfoldable pub restore_caller : Env → World → CallView → String → World × List Act × Bool
restore_caller v w call leg =
    let stopped = stop_music call.room_id call.hold_playback_id in
    let added = if leg == "" then [] else adds_leg call.room_id leg ∷ [] in
    if call.room_id == ""
    then (w, [], false)
    else if not (leg == "") && is_refused (v.add_leg call.room_id leg)
    then (w, stopped ++ added, false)
    else (record w { reg = (set_hold w.reg call.leg_id false "").0 }, stopped ++ added, true)

-- handleAgentCallHold, and handleSupervisorCallHold with the supervisor's id.
unfoldable pub call_hold : Env → World → String → World × List Act
unfolding hold_caller
call_hold v w who = elim (call_answered_by w.reg who) [
  | none ↦ (w, replies (error "not on a call") ∷ [])
  | some call ↦
      if call.on_hold
      then (w, [])
      else (let (w', acts, playback) = hold_caller v w call call.answered_agent_leg in
          (w', acts ++ elim playback [ none ↦ replies (error "hold failed") ∷ [] | some p ↦ [] ]))
]

-- handleAgentCallResume, and handleSupervisorCallResume with the supervisor's id.
unfoldable pub call_resume : Env → World → String → World × List Act
unfolding restore_caller
call_resume v w who = elim (call_answered_by w.reg who) [
  | none ↦ (w, replies (error "not on a call") ∷ [])
  | some call ↦
      if not call.on_hold
      then (w, [])
      else (let (w', acts, restored) = restore_caller v w call call.answered_agent_leg in
          (w', acts ++ (if restored then [] else replies (error "resume failed") ∷ [])))
]
