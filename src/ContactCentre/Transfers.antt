-- ===== src/ContactCentre/Transfers.antt =====
-- cmd/contact-centre/transfer.go: the registry of in-flight call transfers. Each method holds the
-- registry's mutex from its first access to the last, so a method is one atomic function on the
-- state, and a schedule of racing handlers is a list of calls (`run`).
-- The random id is an argument (`none` when the generator fails), and so is the time.
pub mod Consistency
pub mod Races
pub mod Pending
use example_applications.Base.{
  ℕ, String, concat, ◌==◌, string_eq, Bool, true, false, ◌&&◌, ◌||◌, not, Option, none, some, List,
  [], ◌∷◌, Table, lookup, insert, erase, Result, ok, err, if◌then◌else◌,
}

-- The constants transferRinging .. transferCancelled.
pub data TransferState : Type 0 where
  ringing consulting completed failed cancelled : TransferState

-- intercomTargetSupervisor and intercomTargetAgent.
abbrev pub target_supervisor : String
target_supervisor = "supervisor"

abbrev pub target_agent : String
target_agent = "agent"

pub record Transfer : Type 0 where
  pub id : String
  pub call_leg_id : String
  pub room_id : String
  pub consult_room_id : String
  pub from_agent_id : String
  pub from_name : String
  pub from_leg_id : String
  pub target_kind : String
  pub target : String
  pub target_name : String
  pub target_leg_id : String
  pub attended : Bool
  pub state : TransferState
  pub started_at : ℕ

pub record TransferRegistry : Type 0 where
  pub by_id : Table Transfer
  pub by_call : Table String

unfoldable pub new_transfer_registry : TransferRegistry
new_transfer_registry = record { by_id = []; by_call = [] }

-- The arguments of `Create`.
pub record Request : Type 0 where
  pub call_leg_id : String
  pub room_id : String
  pub from_id : String
  pub from_name : String
  pub kind : String
  pub target : String
  pub target_name : String
  pub from_leg_id : String
  pub attended : Bool

pub data TransferError : Type 0 where
  missing_fields unknown_target_kind no_random_id already_in_flight : TransferError

abbrev pub has_fields : Request → Bool
has_fields q = not (q.call_leg_id == "" || q.room_id == "" || q.from_id == "" || q.target == "")

abbrev pub has_kind : Request → Bool
has_kind q = q.kind == target_supervisor || q.kind == target_agent

-- The record that `Create` builds.
abbrev pub new_transfer : Request → String → ℕ → Transfer
new_transfer q id now = record {
  id = id;
  call_leg_id = q.call_leg_id;
  room_id = q.room_id;
  consult_room_id = if q.attended then concat "consult-" id else "";
  from_agent_id = q.from_id;
  from_name = q.from_name;
  from_leg_id = q.from_leg_id;
  target_kind = q.kind;
  target = q.target;
  target_name = q.target_name;
  target_leg_id = "";
  attended = q.attended;
  state = ringing;
  started_at = now;
}

-- The part of `Create` under the lock.
register : TransferRegistry → Transfer → TransferRegistry × Result TransferError Transfer
register r t = elim (lookup t.call_leg_id r.by_call) [
  | some busy ↦ (r, err already_in_flight)
  | none ↦ (
    record { by_id = insert t.id t r.by_id; by_call = insert t.call_leg_id t.id r.by_call },
    ok t,
  )
]

unfoldable pub create :
    TransferRegistry
    → Request
    → Option String
    → ℕ
    → TransferRegistry × Result TransferError Transfer
unfolding register
create r q fresh now =
    if not (has_fields q)
    then (r, err missing_fields)
    else if not (has_kind q)
    then (r, err unknown_target_kind)
    else elim fresh [ none ↦ (r, err no_random_id) | some id ↦ register r (new_transfer q id now) ]

-- `t.State = ...` through the pointer in the map, for the guard and the update of one transition.
unfoldable pub transition :
    (Transfer → Bool)
    → (Transfer → Transfer)
    → TransferRegistry
    → String
    → TransferRegistry × Option Transfer
transition guard update r id = elim (lookup id r.by_id) [
  | none ↦ (r, none)
  | some t ↦
      if guard t
      then (record r { by_id = insert id (update t) r.by_id }, some (update t))
      else (r, none)
]

abbrev pub is_ringing : TransferState → Bool
is_ringing ringing = true
is_ringing _ = false

abbrev pub is_consulting : TransferState → Bool
is_consulting consulting = true
is_consulting _ = false

abbrev pub is_pending : TransferState → Bool
is_pending s = is_ringing s || is_consulting s

abbrev pub answered : String → Transfer → Transfer
answered leg t = record t {
  target_leg_id = leg;
  state = if t.attended then consulting else completed;
}

unfoldable pub claim_answer :
    TransferRegistry → String → String → TransferRegistry × Option Transfer
unfolding transition
claim_answer r id leg = transition (λ t. is_ringing t.state) (answered leg) r id

unfoldable pub complete : TransferRegistry → String → TransferRegistry × Option Transfer
unfolding transition
complete r id = transition (λ t. is_consulting t.state) (λ t. record t { state = completed }) r id

unfoldable pub cancel : TransferRegistry → String → TransferRegistry × Option Transfer
unfolding transition
cancel r id = transition (λ t. is_pending t.state) (λ t. record t { state = cancelled }) r id

unfoldable pub fail : TransferRegistry → String → TransferRegistry × Option Transfer
unfolding transition
fail r id = transition (λ t. is_pending t.state) (λ t. record t { state = failed }) r id

unfoldable pub settle : TransferRegistry → String → TransferRegistry
settle r id = elim (lookup id r.by_id) [
  | none ↦ r
  | some t ↦ record { by_id = erase id r.by_id; by_call = erase t.call_leg_id r.by_call }
]

-- `Get`
unfoldable pub get : TransferRegistry → String → Option Transfer
get r id = lookup id r.by_id

unfoldable pub by_call : TransferRegistry → String → Option Transfer
by_call r call = elim (lookup call r.by_call) [ none ↦ none | some id ↦ lookup id r.by_id ]

-- `ByTarget`: the order of Go's map iteration is the table's.
unfoldable pub by_target : Table Transfer → String → String → List Transfer
by_target [] kind target = []
by_target ((_, t) ∷ m) kind target =
    let rest = by_target m kind target in
    if t.target_kind == kind && t.target == target then t ∷ rest else rest

-- `ByFromAgent`: the first match in the order of iteration.
unfoldable pub by_from_agent : Table Transfer → String → Option Transfer
by_from_agent [] agent = none
by_from_agent ((_, t) ∷ m) agent =
    if t.from_agent_id == agent then some t else by_from_agent m agent

-- The calls that racing handlers make.
pub data Call : Type 0 where
  creates : Request → Option String → ℕ → Call
  answers : String → String → Call
  completes cancels fails settles : String → Call

unfoldable pub step : TransferRegistry → Call → TransferRegistry
unfolding create claim_answer complete cancel fail settle
step r (creates q fresh now) = (create r q fresh now).0
step r (answers id leg) = (claim_answer r id leg).0
step r (completes id) = (complete r id).0
step r (cancels id) = (cancel r id).0
step r (fails id) = (fail r id).0
step r (settles id) = settle r id

unfoldable pub run : TransferRegistry → List Call → TransferRegistry
run r [] = r
run r (c ∷ cs) = run (step r c) cs
