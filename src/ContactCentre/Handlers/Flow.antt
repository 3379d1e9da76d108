-- ===== src/ContactCentre/Handlers/Flow.antt =====
-- cmd/contact-centre/transfer_handlers.go: the answer to a transfer, its completion, and its end in
-- failure.
use example_applications.Base.{
  ℕ, String, ◌==◌, string_eq, nat_eq, Bool, true, false, not, ◌||◌, Option, none, some, List, [],
  ◌∷◌, ◌++◌, if◌then◌else◌,
}
use example_applications.ContactCentre.Registry.{CallView, lookup_call, transfer_to}
use example_applications.ContactCentre.Transfers
use example_applications.ContactCentre.Transfers.{
  Transfer, target_supervisor, target_agent, claim_answer, settle, by_from_agent, is_consulting,
  is_ringing,
}
use example_applications.ContactCentre.Agents.{webrtc_leg}
use example_applications.ContactCentre.Handlers.{
  is_done, Env, customer_dropped, setup_failed, failed, cleared, consulting, active, completed,
  error, Act, creates_room, deletes_room, adds_leg, removes_leg, hands_over, tells_supervisors,
  tells_session, replies, Session, World, notify_changed, sessions_of, supervisor_id, tell_target,
  tell_originator, stop_music, restore_caller,
}

-- `a.transfers.Fail` and `Settle`, one after the other.
abbrev pub fail_and_settle : World → String → World
fail_and_settle w id = record w { transfers = settle (Transfers.fail w.transfers id).0 id }

abbrev pub settled : World → String → World
settled w id = record w { transfers = settle w.transfers id }

-- The first of the user's sessions that has the leg.
unfoldable pub session_with : String → List Session → Option Session
session_with leg [] = none
session_with leg (s ∷ ss) = if s.leg_id == leg then some s else session_with leg ss

-- `p.Session.setRoom`
unfoldable pub set_room : ℕ → String → List Session → List Session
set_room id room [] = []
set_room id room (s ∷ ss) =
    (if s.id == id then record s { room_id = room } else s) ∷ set_room id room ss

abbrev pub set_active : (ℕ → Option String) → ℕ → Option String → ℕ → Option String
set_active f id call i = if i == id then call else f i

-- The session is on the customer's call, or no longer on any.
unfoldable pub joins_call : World → Session → String → Option String → World
unfolding set_room
joins_call w s room call = record w {
  sessions = set_room s.id room w.sessions;
  active_calls = set_active w.active_calls s.id call;
}

-- The session of a supervisor who takes the call over.
unfoldable pub enlist_target : World → Transfer → World
unfolding session_with joins_call sessions_of
enlist_target w t =
    if t.target_kind == target_supervisor
    then elim (session_with t.target_leg_id (sessions_of t.target w.sessions)) [
      | none ↦ w
      | some s ↦ joins_call w s t.room_id (some t.call_leg_id)
    ]
    else w

-- The session of a supervisor who hands the call on.
unfoldable pub release_originator : Env → World → Transfer → World
unfolding session_with joins_call sessions_of
release_originator v w t = elim (v.supervisor_of t.from_agent_id) [
  | none ↦ w
  | some username ↦ elim (session_with t.from_leg_id (sessions_of username w.sessions)) [
    | none ↦ w
    | some s ↦ joins_call w s "" none
  ]
]

abbrev pub close_consult : Transfer → List Act
close_consult t =
    if t.consult_room_id == ""
    then []
    else removes_leg t.consult_room_id t.target_leg_id
      ∷ removes_leg t.consult_room_id t.from_leg_id
      ∷ deletes_room t.consult_room_id
      ∷ []

abbrev pub handed_over : World → Transfer → String → String → World
handed_over w t who name = record w {
  reg =
      (transfer_to w.reg t.call_leg_id
        (record { new_agent_id = who; new_agent_name = name; new_agent_leg = t.target_leg_id })).0;
}

-- finalizeTransfer
unfoldable pub finalize :
    Env → World → Transfer → String → String → CallView → World × List Act × Bool
unfolding restore_caller tell_originator tell_target enlist_target release_originator
finalize v w t who name call =
    let before =
      stop_music t.room_id call.hold_playback_id ++ adds_leg t.room_id t.target_leg_id ∷ [] in
    let (back, restoring, ignored) = restore_caller v w call t.from_leg_id in
    let moved = handed_over (release_originator v (enlist_target w t) t) t who name in
    if not (is_done (v.add_leg t.room_id t.target_leg_id))
    then (
      settled back t.id,
      before
          ++ (restoring
              ++ (tell_originator v t.from_agent_id (failed setup_failed)
                  ++ tell_target t cleared)),
      false,
    )
    else (
      notify_changed (settled moved t.id),
      before
          ++ (hands_over t.call_leg_id t.target_leg_id
              ∷ (close_consult t
                  ++ (tell_originator v t.from_agent_id completed
                      ++ (if t.target_kind == target_supervisor
                          then tells_supervisors t.target active ∷ []
                          else [])))),
      true,
    )

-- bringUpConsultRoom
unfoldable pub bring_up_consult : Env → Transfer → List Act × Bool
bring_up_consult v t =
    let room = t.consult_room_id in
    let first = creates_room room ∷ adds_leg room t.from_leg_id ∷ [] in
    if not (v.create_room room)
    then (creates_room room ∷ [], false)
    else if not (is_done (v.add_leg room t.from_leg_id))
    then (first ++ deletes_room room ∷ [], false)
    else if not (is_done (v.add_leg room t.target_leg_id))
    then (first ++ (adds_leg room t.target_leg_id ∷ deletes_room room ∷ []), false)
    else (first ++ adds_leg room t.target_leg_id ∷ [], true)

-- The branch of answerTransfer for an attended transfer that is claimed.
unfoldable pub begin_consult : Env → World → Transfer → World × List Act × Option Transfer
unfolding bring_up_consult tell_originator tell_target
begin_consult v w t =
    let (acts, up) = bring_up_consult v t in
    if up
    then (
      notify_changed w,
      acts ++ (tell_originator v t.from_agent_id consulting ++ tell_target t consulting),
      some t,
    )
    else (
      fail_and_settle w t.id,
      acts ++ (tell_originator v t.from_agent_id (failed setup_failed) ++ tell_target t cleared),
      none,
    )

-- answerTransfer, after the claim.
unfoldable pub answer_claimed :
    Env → World → Transfer → String → String → World × List Act × Option Transfer
unfolding finalize begin_consult tell_originator
answer_claimed v w t who name = elim (lookup_call w.reg t.call_leg_id) [
  | none ↦
      (fail_and_settle w t.id, tell_originator v t.from_agent_id (failed customer_dropped), none)
  | some call ↦ elim t.attended [
    | true ↦ begin_consult v w t
    | false ↦
        let (w', acts, moved) = finalize v w t who name call in
        (w', acts, if moved then some t else none)
  ]
]

-- answerTransfer
unfoldable pub answer_transfer :
    Env → World → String → String → String → String → World × List Act × Option Transfer
unfolding answer_claimed
answer_transfer v w id who name leg =
    let (transfers, claimed) = claim_answer w.transfers id leg in
    elim claimed [
      | none ↦ (w, [], none)
      | some t ↦ answer_claimed v (record w { transfers = transfers }) t who name
    ]

-- The checks of a target that answers or rejects: the transfer is there and rings this target.
unfoldable pub rings_for : World → String → String → String → Option Transfer
rings_for w id kind target = elim (Transfers.get w.transfers id) [
  | none ↦ none
  | some t ↦ if not (t.target_kind == kind) || not (t.target == target) then none else some t
]

-- handleAgentTransferAnswer, for the agent's id and name.
unfoldable pub agent_answers : Env → World → String → String → String → World × List Act
unfolding rings_for answer_transfer webrtc_leg
agent_answers v w who name id =
    let leg = webrtc_leg w.agents who in
    if id == ""
    then (w, replies (error "transfer_id required") ∷ [])
    else if leg == ""
    then (w, replies (error "audio not ready") ∷ [])
    else elim (rings_for w id target_agent who) [
      | none ↦ (w, replies (error "no longer ringing") ∷ [])
      | some t ↦
          let (w', acts, claimed) = answer_transfer v w t.id who name leg in
          elim claimed [
            | none ↦ (w', acts ++ replies (error "no longer available") ∷ [])
            | some c ↦ (w', acts ++ (if c.attended then [] else replies active ∷ []))
          ]
    ]

abbrev clear_siblings : ℕ → List Session → List Act
clear_siblings id [] = []
clear_siblings id (s ∷ ss) =
    let rest = clear_siblings id ss in
    if s.id == id then rest else tells_session s.id cleared ∷ rest

-- handleSupervisorTransferAnswer
unfoldable pub supervisor_answers : Env → World → Session → String → World × List Act
unfolding rings_for answer_transfer joins_call set_room sessions_of
supervisor_answers v w s id =
    if s.leg_id == ""
    then (w, replies (error "audio not ready") ∷ [])
    else if id == ""
    then (w, replies (error "transfer_id required") ∷ [])
    else elim (rings_for w id target_supervisor s.username) [
      | none ↦ (w, replies (error "no longer ringing") ∷ [])
      | some t ↦
          let left =
            if s.room_id == "" || s.room_id == t.room_id
            then []
            else removes_leg s.room_id s.leg_id ∷ [] in
          let (w', acts, claimed) =
            answer_transfer v w t.id (supervisor_id s.username) s.username s.leg_id in
          elim claimed [
            | none ↦ (w', left ++ (acts ++ replies (error "no longer available") ∷ []))
            | some c ↦ (
              if c.attended
                  then record w' { sessions = set_room s.id c.consult_room_id w'.sessions }
                  else notify_changed (joins_call w' s c.room_id (some c.call_leg_id)),
              left ++ (acts ++ clear_siblings s.id (sessions_of s.username w'.sessions)),
            )
          ]
    ]
