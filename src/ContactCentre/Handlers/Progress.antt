-- ===== src/ContactCentre/Handlers/Progress.antt =====
-- The handlers that end a transfer or move it on leave no transfer registered that has ended.
use example_applications.Base.{
  String, ◌==◌, string_eq, nat_eq, refl, inl, inr, List, [], ◌∷◌, arith, Bool-cases, Option-cases,
}
use example_applications.ContactCentre.Transfers
use example_applications.ContactCentre.Transfers.{
  Transfer, Request, create, by_target, cancel, target_agent, target_supervisor, is_ringing,
  is_consulting,
}
use example_applications.ContactCentre.Transfers.Pending.{
  fail-Attempt, cancel-Attempt, settle-AreOpen,
}
use example_applications.ContactCentre.Registry.Legs.{legs_of, broadcast-legs}
use example_applications.ContactCentre.Agents.{webrtc_leg}
use example_applications.ContactCentre.Handlers.{
  Env, Reason, rejected, timeout, cancelled, target_disconnected, World, Session, sessions_of,
  supervisor_id,
}
use example_applications.ContactCentre.Handlers.Flow.{
  joins_call, rings_for, agent_answers, supervisor_answers, answer_transfer,
}
use example_applications.ContactCentre.Handlers.Ends.{
  times_out, own_id, cancel_own, rejects, complete_own, customer_hangs_up, originator_leaves,
  fail_each, agent_disconnects, hang_up_active, supervisor_disconnects, supervisor_ends, fails_with,
}
use example_applications.ContactCentre.Handlers.Settled.{
  IsSound, Frames, sound, Frames-IsSound, fails_with-IsSound, withdraw-IsSound,
  complete_attended-IsSound,
}
use example_applications.ContactCentre.Handlers.Answered.{answer_transfer-IsSound}

-- A failure that a handler attempts.
attempted :
    (v : Env) (w : World) (id : String) (reason : Reason)
    → IsSound w
    → IsSound (fails_with v w (Transfers.fail w.transfers id) reason).0
attempted v w id reason h =
    fails_with-IsSound v w _ id _ reason (fail-Attempt (legs_of w.reg) w.transfers id h) h

pub times_out-IsSound :
    (v : Env) (w : World) (id : String) → IsSound w → IsSound (times_out v w id).0
unfolding times_out
times_out-IsSound v w id h = elim (Option-cases (Transfers.get w.transfers id)) [
  | inl p ↦ rw (p, times_out) h
  | inr (t, p) ↦ elim (Bool-cases (is_ringing t.state)) [
    | inl q ↦ rw (p, times_out, q) (attempted v w id timeout h)
    | inr q ↦ rw (p, times_out, q) h
  ]
]

pub cancel_own-IsSound :
    (v : Env) (w : World) (from given : String) → IsSound w → IsSound (cancel_own v w from given).0
unfolding cancel_own
cancel_own-IsSound v w from given h =
    let id = own_id w from given in
    let called_off =
      fails_with-IsSound v w _ id _ cancelled (cancel-Attempt (legs_of w.reg) w.transfers id h) h in
    ground arith

pub rejects-IsSound :
    (v : Env) (w : World) (kind target id : String)
    → IsSound w
    → IsSound (rejects v w kind target id).0
unfolding rejects
rejects-IsSound v w kind target id h = let refused = attempted v w id rejected h in ground arith

pub complete_own-IsSound :
    (v : Env) (w : World) (from given : String)
    → IsSound w
    → IsSound (complete_own v w from given).0
unfolding complete_own
complete_own-IsSound v w from given h =
    elim (Option-cases (Transfers.get w.transfers (own_id w from given))) [
      | inl p ↦ ground arith
      | inr (t, p) ↦ let completed = complete_attended-IsSound v w t.id h in ground arith
    ]

pub agent_answers-IsSound :
    (v : Env) (w : World) (who name id : String)
    → IsSound w
    → IsSound (agent_answers v w who name id).0
unfolding agent_answers
agent_answers-IsSound v w who name id h =
    let leg = webrtc_leg w.agents who in
    elim (Option-cases (rings_for w id target_agent who)) [
      | inl p ↦ ground arith
      | inr (t, p) ↦
          let kept = answer_transfer-IsSound v w t.id who name leg h in
          elim (Bool-cases (id == "")) [
            | inl q ↦ rw (q, agent_answers) h
            | inr q ↦ elim (Bool-cases (leg == "")) [
              | inl z ↦ rw (q, agent_answers, z) h
              | inr z ↦ elim (Option-cases (answer_transfer v w t.id who name leg).2) [
                | inl c ↦ rw (q, agent_answers, z, p, c) kept
                | inr (x, c) ↦ rw (q, agent_answers, z, p, c) kept
              ]
            ]
          ]
    ]

pub supervisor_answers-IsSound :
    (v : Env) (w : World) (s : Session) (id : String)
    → IsSound w
    → IsSound (supervisor_answers v w s id).0
unfolding supervisor_answers joins_call
supervisor_answers-IsSound v w s id h =
    elim (Option-cases (rings_for w id target_supervisor s.username)) [
      | inl p ↦ ground arith
      | inr (t, p) ↦
          let who = supervisor_id s.username in
          let kept = answer_transfer-IsSound v w t.id who s.username s.leg_id h in
          let heard = broadcast-legs (answer_transfer v w t.id who s.username s.leg_id).0.reg in
          elim (Bool-cases (s.leg_id == "")) [
            | inl q ↦ rw (q, supervisor_answers) h
            | inr q ↦ elim (Bool-cases (id == "")) [
              | inl z ↦ rw (q, supervisor_answers, z) h
              | inr z ↦ elim (Option-cases (answer_transfer v w t.id who s.username s.leg_id).2) [
                | inl c ↦ rw (q, supervisor_answers, z, p, c) kept
                | inr (x, c) ↦ elim (Bool-cases x.attended) [
                  | inl a ↦ rw (q, supervisor_answers, z, p, c, a) kept
                  | inr a ↦ rw (q, supervisor_answers, z, p, c, a) (sound refl heard kept)
                ]
              ]
            ]
          ]
    ]

hang_up_active-Frames : (w : World) (s : Session) → Frames w (hang_up_active w s).0
unfolding hang_up_active
hang_up_active-Frames w s = (ground arith, ground arith)

pub supervisor_ends-Frames : (w : World) (s : Session) → Frames w (supervisor_ends w s).0
unfolding supervisor_ends hang_up_active
supervisor_ends-Frames w s = (ground arith, ground arith)

originator_leaves-IsSound :
    (v : Env) (w : World) (from : String) → IsSound w → IsSound (originator_leaves v w from).0
unfolding originator_leaves
originator_leaves-IsSound v w from h =
    elim (Option-cases (Transfers.by_from_agent w.transfers.by_id from)) [
      | inl p ↦ rw (p, originator_leaves) h
      | inr (t, p) ↦
          let completed = complete_attended-IsSound v w t.id h in
          let dropped =
            withdraw-IsSound w _ t.id _ (cancel-Attempt (legs_of w.reg) w.transfers t.id h) h in
          ground arith
    ]

fail_each-IsSound :
    (v : Env) (ts : List Transfer) (w : World) → IsSound w → IsSound (fail_each v w ts).0
unfolding fail_each
fail_each-IsSound v [] w h = h
fail_each-IsSound v (t ∷ ts) w h =
    let w' = (fails_with v w (Transfers.fail w.transfers t.id) target_disconnected).0 in
    fail_each-IsSound v ts w' (attempted v w t.id target_disconnected h)

pub agent_disconnects-IsSound :
    (v : Env) (w : World) (agent : String) → IsSound w → IsSound (agent_disconnects v w agent).0
unfolding agent_disconnects
agent_disconnects-IsSound v w agent h =
    let w' = (originator_leaves v w agent).0 in
    fail_each-IsSound v (by_target w'.transfers.by_id target_agent agent) w'
      (originator_leaves-IsSound v w agent h)

pub supervisor_disconnects-IsSound :
    (v : Env) (w : World) (s : Session) → IsSound w → IsSound (supervisor_disconnects v w s).0
unfolding supervisor_disconnects
supervisor_disconnects-IsSound v w s h =
    let w' = (originator_leaves v w (supervisor_id s.username)).0 in
    let left = originator_leaves-IsSound v w (supervisor_id s.username) h in
    let rung : List Transfer = elim (sessions_of s.username w'.sessions) [
      | [] ↦ by_target w'.transfers.by_id target_supervisor s.username
      | x ∷ xs ↦ []
    ] in
    let w'' = (fail_each v w' rung).0 in
    elim (Bool-cases (s.username == "")) [
      | inl p ↦ rw (p, supervisor_disconnects) h
      | inr p ↦
          rw (p, supervisor_disconnects)
            (Frames-IsSound w'' (hang_up_active w'' s).0 (hang_up_active-Frames w'' s)
              (fail_each-IsSound v rung w' left))
    ]

pub customer_hangs_up-IsSound :
    (v : Env) (w : World) (call : String) → IsSound w → IsSound (customer_hangs_up v w call).0
unfolding customer_hangs_up
customer_hangs_up-IsSound v w call h = elim (Option-cases (Transfers.by_call w.transfers call)) [
  | inl p ↦ rw (p, customer_hangs_up) h
  | inr (t, p) ↦ elim (fail-Attempt (legs_of w.reg) w.transfers t.id h) [
    | inl (a, b) ↦ rw (p, customer_hangs_up, b) h
    | inr (u, old, a, b, same, here, rest) ↦
        rw (p, customer_hangs_up, a)
          (settle-AreOpen (legs_of w.reg) (Transfers.fail w.transfers t.id).0 t.id rest)
  ]
]
