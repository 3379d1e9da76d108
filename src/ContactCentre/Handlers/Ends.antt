-- ===== src/ContactCentre/Handlers/Ends.antt =====
-- cmd/contact-centre/transfer_handlers.go: the completion of a consulted transfer, and all the ways in
-- which a transfer fails.
use example_applications.Base.{
  String, ◌==◌, string_eq, nat_eq, not, ◌||◌, Option, none, some, List, [], ◌∷◌, ◌++◌,
  if◌then◌else◌,
}
use example_applications.ContactCentre.Registry.{lookup_call}
use example_applications.ContactCentre.Transfers
use example_applications.ContactCentre.Transfers.{
  Transfer, target_supervisor, target_agent, complete, cancel, settle, by_from_agent, by_target,
  is_consulting, is_ringing,
}
use example_applications.ContactCentre.Agents.{webrtc_leg}
use example_applications.ContactCentre.Handlers.{
  Env, Reason, rejected, timeout, cancelled, target_disconnected, customer_dropped, failed, cleared,
  Act, deletes_room, removes_leg, hangs_up, Session, World, notify_changed, sessions_of,
  supervisor_id, tell_target, tell_originator, restore_caller,
}
use example_applications.ContactCentre.Handlers.Flow.{
  finalize, settled, set_active, set_room, rings_for,
}

-- The consult room of a transfer that failed: both legs leave before the room is deleted.
abbrev pub evict : Transfer → List Act
evict t =
    if t.consult_room_id == ""
    then []
    else (if t.target_leg_id == "" then [] else removes_leg t.consult_room_id t.target_leg_id ∷ [])
      ++ ((if t.from_leg_id == "" then [] else removes_leg t.consult_room_id t.from_leg_id ∷ [])
          ++ deletes_room t.consult_room_id ∷ [])

-- The leg that is put back: an agent's present one.
unfoldable pub original_leg : Env → World → Transfer → String
unfolding webrtc_leg
original_leg v w t = elim (v.supervisor_of t.from_agent_id) [
  | none ↦ webrtc_leg w.agents t.from_agent_id
  | some username ↦ t.from_leg_id
]

-- The part of afterTransferFailed that puts the customer back.
unfoldable pub give_back : Env → World → Transfer → World × List Act
unfolding original_leg restore_caller
give_back v w t = elim (lookup_call w.reg t.call_leg_id) [
  | none ↦ (w, [])
  | some call ↦
      let (w', acts, restored) = restore_caller v w call (original_leg v w t) in (w', acts)
]

abbrev pub tell_failed : Env → Transfer → Reason → List Act
tell_failed v t reason = tell_originator v t.from_agent_id (failed reason) ++ tell_target t cleared

-- afterTransferFailed
unfoldable pub after_failed : Env → World → Transfer → Reason → World × List Act
unfolding give_back
after_failed v w t reason =
    let (w', restoring) = give_back v w t in
    (notify_changed (settled w' t.id), evict t ++ (restoring ++ tell_failed v t reason))

-- The registry of transfers after an attempt, with the transfer if it succeeded.
abbrev pub TransferStep : Type 0
TransferStep = Transfers.TransferRegistry × Option Transfer

-- What follows a Fail or a Cancel that a handler attempts.
unfoldable pub fails_with : Env → World → TransferStep → Reason → World × List Act
unfolding after_failed
fails_with v w (transfers, none) reason = (w, [])
fails_with v w (transfers, some t) reason =
    after_failed v (record w { transfers = transfers }) t reason

-- watchTransferTimeout, after its sleep.
unfoldable pub times_out : Env → World → String → World × List Act
unfolding fails_with
times_out v w id = elim (Transfers.get w.transfers id) [
  | none ↦ (w, [])
  | some t ↦
      if not (is_ringing t.state)
      then (w, [])
      else fails_with v w (Transfers.fail w.transfers id) timeout
]

-- The id that a handler is given, or that of the transfer that the agent or supervisor has started.
unfoldable pub own_id : World → String → String → String
own_id w from id =
    if not (id == "")
    then id
    else elim (by_from_agent w.transfers.by_id from) [ none ↦ "" | some t ↦ t.id ]

-- cancelOwnTransfer
unfoldable pub cancel_own : Env → World → String → String → World × List Act
unfolding own_id fails_with
cancel_own v w from given =
    let id = own_id w from given in
    if id == "" then (w, []) else elim (Transfers.get w.transfers id) [
      | none ↦ (w, [])
      | some t ↦
          if not (t.from_agent_id == from)
          then (w, [])
          else fails_with v w (cancel w.transfers id) cancelled
    ]

-- handleAgentTransferReject and handleSupervisorTransferReject, which differ in the kind.
unfoldable pub rejects : Env → World → String → String → String → World × List Act
unfolding rings_for fails_with
rejects v w kind target id = if id == "" then (w, []) else elim (rings_for w id kind target) [
  | none ↦ (w, [])
  | some t ↦ fails_with v w (Transfers.fail w.transfers id) rejected
]

-- completeAttendedTransfer. Where the call is gone, the transfer stays in the registry.
unfoldable pub complete_attended : Env → World → String → World × List Act
unfolding finalize
complete_attended v w id =
    let (transfers, claimed) = complete w.transfers id in
    let w' : World = record w { transfers = transfers } in
    elim claimed [
      | none ↦ (w, [])
      | some t ↦ elim (lookup_call w.reg t.call_leg_id) [
        | none ↦ (w', tell_failed v t customer_dropped)
        | some call ↦
            let supervises = t.target_kind == target_supervisor in
            let (w'', acts, moved) =
              finalize v w' t (if supervises then supervisor_id t.target else t.target)
                (if supervises then t.target else t.target_name) call in
            (w'', acts)
      ]
    ]

-- completeOwnTransfer
unfoldable pub complete_own : Env → World → String → String → World × List Act
unfolding own_id complete_attended
complete_own v w from given =
    let id = own_id w from given in
    if id == "" then (w, []) else elim (Transfers.get w.transfers id) [
      | none ↦ (w, [])
      | some t ↦
          if not (t.from_agent_id == from) || not (is_consulting t.state)
          then (w, [])
          else complete_attended v w t.id
    ]

-- failTransferOnCustomerHangup
unfoldable pub customer_hangs_up : Env → World → String → World × List Act
customer_hangs_up v w call = elim (Transfers.by_call w.transfers call) [
  | none ↦ (w, [])
  | some t ↦
      let (transfers, lost) = Transfers.fail w.transfers t.id in
      elim lost [
        | none ↦ (w, [])
        | some ended ↦ (
          settled (record w { transfers = transfers }) t.id,
          evict t ++ tell_failed v t customer_dropped,
        )
      ]
]

-- A ringing transfer is withdrawn; nobody is left to take the customer back.
unfoldable pub withdraw : World → TransferStep → World × List Act
withdraw w (transfers, none) = (w, [])
withdraw w (transfers, some t) =
    (notify_changed (settled (record w { transfers = transfers }) t.id), tell_target t cleared)

-- The first part of both clean-ups: the transfer that the lost agent or supervisor has started.
unfoldable pub originator_leaves : Env → World → String → World × List Act
unfolding complete_attended withdraw
originator_leaves v w from = elim (by_from_agent w.transfers.by_id from) [
  | none ↦ (w, [])
  | some t ↦ elim t.state [
    | Transfers.consulting ↦ complete_attended v w t.id
    | Transfers.ringing ↦ withdraw w (cancel w.transfers t.id)
    | _ ↦ (w, [])
  ]
]

-- The loop over the transfers that ring the lost target.
unfoldable pub fail_each : Env → World → List Transfer → World × List Act
unfolding fails_with
fail_each v w [] = (w, [])
fail_each v w (t ∷ ts) =
    let (w', acts) = fails_with v w (Transfers.fail w.transfers t.id) target_disconnected in
    let (w'', rest) = fail_each v w' ts in (w'', acts ++ rest)

-- cleanupTransfersOnAgentDisconnect
unfoldable pub agent_disconnects : Env → World → String → World × List Act
unfolding originator_leaves fail_each by_target
agent_disconnects v w agent =
    let (w', acts) = originator_leaves v w agent in
    let (w'', rest) = fail_each v w' (by_target w'.transfers.by_id target_agent agent) in
    (w'', acts ++ rest)

-- The customer of a call that the session took over is hung up.
unfoldable pub hang_up_active : World → Session → World × List Act
hang_up_active w s = elim (w.active_calls s.id) [
  | none ↦ (w, [])
  | some call ↦ (
    record w { active_calls = set_active w.active_calls s.id none },
    if call == "" then [] else hangs_up call ∷ [],
  )
]

-- cleanupTransfersOnSupervisorDisconnect, after the session is off the registry.
unfoldable pub supervisor_disconnects : Env → World → Session → World × List Act
unfolding originator_leaves fail_each by_target sessions_of hang_up_active
supervisor_disconnects v w s =
    let (w', acts) = originator_leaves v w (supervisor_id s.username) in
    let rung : List Transfer = elim (sessions_of s.username w'.sessions) [
      | [] ↦ by_target w'.transfers.by_id target_supervisor s.username
      | t ∷ ts ↦ []
    ] in
    let (w'', rest) = fail_each v w' rung in
    let (w''', last) = hang_up_active w'' s in
    if s.username == "" then (w, []) else (w''', acts ++ (rest ++ last))

-- handleSupervisorTransferEnd
unfoldable pub supervisor_ends : World → Session → World × List Act
unfolding set_room hang_up_active
supervisor_ends w s = elim (w.active_calls s.id) [
  | none ↦ (w, [])
  | some call ↦
      let (w', acts) = hang_up_active w s in
      (if s.room_id == "" then w' else record w' { sessions = set_room s.id "" w'.sessions }, acts)
]
