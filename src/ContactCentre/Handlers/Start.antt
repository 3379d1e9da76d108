-- ===== src/ContactCentre/Handlers/Start.antt =====
-- cmd/contact-centre/transfer_handlers.go: the start of a transfer, and the runs of all its handlers.
use example_applications.Base.{
  ℕ, String, ◌==◌, string_eq, nat_eq, Bool, true, false, not, ◌||◌, Option, none, some, List, [],
  ◌∷◌, ◌++◌, Result, ok, err, if◌then◌else◌,
}
use example_applications.ContactCentre.Registry
use example_applications.ContactCentre.Registry.{CallView, call_answered_by}
use example_applications.ContactCentre.Transfers
use example_applications.ContactCentre.Transfers.{
  Transfer, Request, TransferError, missing_fields, unknown_target_kind, no_random_id,
  already_in_flight, target_supervisor, target_agent, create, cancel,
}
use example_applications.ContactCentre.Agents.{AgentRegistry, get_agent}
use example_applications.ContactCentre.Intercoms
use example_applications.ContactCentre.Intercoms.{IntercomRegistry}
use example_applications.ContactCentre.Handlers.{
  Env, incoming, ringing, error, Act, replies, Session, World, sessions_of, supervisor_id,
  tell_target, hold_caller,
}
use example_applications.ContactCentre.Handlers.Flow.{settled, agent_answers, supervisor_answers}
use example_applications.ContactCentre.Handlers.Ends.{
  times_out, cancel_own, rejects, complete_own, customer_hangs_up, agent_disconnects,
  supervisor_disconnects, supervisor_ends,
}

-- The name of a supervisor that can be rung, or what the originator is told.
unfoldable pub supervisor_target : Env → World → String → String → Result String String
unfolding sessions_of
supervisor_target v w from target =
    if elim (v.supervisor_of from) [ none ↦ false | some u ↦ u == target ]
    then err "cannot transfer to yourself"
    else elim (sessions_of target w.sessions) [
      | [] ↦ err "supervisor not available"
      | s ∷ ss ↦ ok target
    ]

abbrev is_some {ℓ} : {A : Type ℓ} → Option A → Bool
is_some none = false
is_some (some a) = true

-- The name of an agent that can be rung, or what the originator is told.
unfoldable pub agent_target : Env → World → String → String → Result String String
unfolding get_agent
agent_target v w from target =
    if target == from then err "cannot transfer to yourself" else elim (get_agent w.agents target) [
      | none ↦ err "agent not available"
      | some callee ↦
          if not (v.online target)
          then err "agent offline"
          else if is_some (call_answered_by w.reg target)
          then err "agent is on a call"
          else if is_some (Intercoms.by_agent w.intercoms target)
          then err "agent is busy"
          else if is_some (Transfers.by_call w.transfers target)
          then err "agent is busy"
          else ok callee.name
    ]

unfoldable pub target_name_of : Env → World → String → String → String → Result String String
unfolding supervisor_target agent_target
target_name_of v w from kind target =
    if kind == target_supervisor
    then supervisor_target v w from target
    else if kind == target_agent
    then agent_target v w from target
    else err "unknown target kind"

-- The texts of the errors of `Create`; that of the random generator is its own.
abbrev error_text : TransferError → String
error_text missing_fields = "missing fields"
error_text unknown_target_kind = "unknown target kind"
error_text no_random_id = "random"
error_text already_in_flight = "transfer already in flight for this call"

-- What the originator of a transfer gives, with its own identity and leg.
pub record Ask : Type 0 where
  pub from_id : String
  pub from_name : String
  pub from_leg : String
  pub kind : String
  pub target : String
  pub attended : Bool

abbrev pub kind_of : Ask → String
kind_of q = if q.kind == "" then target_supervisor else q.kind

abbrev pub request_of : CallView → Ask → String → Request
request_of call q name = record {
  call_leg_id = call.leg_id;
  room_id = call.room_id;
  from_id = q.from_id;
  from_name = q.from_name;
  kind = kind_of q;
  target = q.target;
  target_name = name;
  from_leg_id = q.from_leg;
  attended = q.attended;
}

-- The rest of startTransfer for a transfer that is created: the customer is put on hold.
unfoldable pub ring_target : Env → World → CallView → Transfer → String → World × List Act
unfolding hold_caller tell_target
ring_target v w call t leg =
    let (w', acts, held) = hold_caller v w call leg in
    elim held [
      | none ↦ (
        settled (record w' { transfers = (cancel w'.transfers t.id).0 }) t.id,
        acts ++ replies (error "hold failed") ∷ [],
      )
      | some playback ↦ (w', acts ++ (tell_target t incoming ++ replies ringing ∷ []))
    ]

-- The part of startTransfer after the lookup of the target, which gives its name or an error.
unfoldable pub ring_named :
    Env → World → CallView → Ask → Option String → ℕ → Result String String → World × List Act
unfolding ring_target
ring_named v w call q fresh now (err text) = (w, replies (error text) ∷ [])
ring_named v w call q fresh now (ok name) =
    let (transfers, created) = create w.transfers (request_of call q name) fresh now in
    elim created [
      | err e ↦ (record w { transfers = transfers }, replies (error (error_text e)) ∷ [])
      | ok t ↦ ring_target v (record w { transfers = transfers }) call t q.from_leg
    ]

-- startTransfer, with the random id and the time of the new transfer.
unfoldable pub start_transfer : Env → World → CallView → Ask → Option String → ℕ → World × List Act
unfolding target_name_of ring_named
start_transfer v w call q fresh now =
    if q.target == ""
    then (w, replies (error "target required") ∷ [])
    else if is_some (Transfers.by_call w.transfers call.leg_id)
    then (w, replies (error "transfer already in flight") ∷ [])
    else ring_named v w call q fresh now (target_name_of v w q.from_id (kind_of q) q.target)

-- handleAgentTransferStart, which takes the leg from the call.
unfoldable pub agent_starts : Env → World → Ask → Option String → ℕ → World × List Act
unfolding start_transfer
agent_starts v w q fresh now = elim (call_answered_by w.reg q.from_id) [
  | none ↦ (w, replies (error "not on a call") ∷ [])
  | some call ↦ start_transfer v w call (record q { from_leg = call.answered_agent_leg }) fresh now
]

-- handleSupervisorTransferStart
unfoldable pub supervisor_starts :
    Env → World → Session → Ask → Option String → ℕ → World × List Act
unfolding start_transfer
supervisor_starts v w s q fresh now =
    let from = supervisor_id s.username in
    elim (call_answered_by w.reg from) [
      | none ↦ (w, replies (error "not on a call") ∷ [])
      | some call ↦
          if s.leg_id == "" || not (s.leg_id == call.answered_agent_leg)
          then (w, replies (error "audio not ready") ∷ [])
          else start_transfer v w call
              (record q { from_id = from; from_name = s.username; from_leg = s.leg_id }) fresh now
    ]

-- The handlers of transfers; a call of the registry of calls by another handler; and whatever other
-- handlers do to the agents, the intercoms, the sessions and the calls that supervisors are in.
pub data Event : Type 0 where
  agent_asks : Ask → Option String → ℕ → Event
  supervisor_asks : Session → Ask → Option String → ℕ → Event
  agent_accepts : (who name id : String) → Event
  supervisor_accepts : Session → (id : String) → Event
  refuses : (kind target id : String) → Event
  calls_off completes : (from id : String) → Event
  expires : (id : String) → Event
  customer_leaves : (call : String) → Event
  agent_leaves : (agent : String) → Event
  supervisor_leaves supervisor_hangs_up : Session → Event
  calls_change : Registry.Call → Event
  others_change :
      AgentRegistry → IntercomRegistry → List Session → (active_calls : ℕ → Option String) → Event

unfoldable pub step : Env → World → Event → World × List Act
unfolding agent_starts supervisor_starts agent_answers supervisor_answers rejects cancel_own
    complete_own times_out customer_hangs_up agent_disconnects supervisor_disconnects
    supervisor_ends Registry.step
step v w (agent_asks q fresh now) = agent_starts v w q fresh now
step v w (supervisor_asks s q fresh now) = supervisor_starts v w s q fresh now
step v w (agent_accepts who name id) = agent_answers v w who name id
step v w (supervisor_accepts s id) = supervisor_answers v w s id
step v w (refuses kind target id) = rejects v w kind target id
step v w (calls_off from id) = cancel_own v w from id
step v w (completes from id) = complete_own v w from id
step v w (expires id) = times_out v w id
step v w (customer_leaves call) = customer_hangs_up v w call
step v w (agent_leaves agent) = agent_disconnects v w agent
step v w (supervisor_leaves s) = supervisor_disconnects v w s
step v w (supervisor_hangs_up s) = supervisor_ends w s
step v w (calls_change c) = (record w { reg = Registry.step w.reg c }, [])
step v w (others_change agents intercoms sessions active_calls) = (
  record w {
    agents = agents;
    intercoms = intercoms;
    sessions = sessions;
    active_calls = active_calls;
  },
  [],
)

-- Each event meets the answers that the media server gives then.
unfoldable pub run : World → List (Env × Event) → World
unfolding step
run w [] = w
run w ((v, e) ∷ es) = run (step v w e).0 es
