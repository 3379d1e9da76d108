-- ===== src/ContactCentre/Intercoms.antt =====
-- cmd/contact-centre/intercom.go: calls from an agent to a supervisor or another agent. Each
-- method holds the mutex from its first access to the last, so it is one atomic function.
-- The random id is an argument (`none` when the generator fails), and so is the time.
pub mod Consistency
use example_applications.Base.{
  ℕ, String, concat, ◌==◌, string_eq, Bool, true, false, ◌&&◌, ◌||◌, not, Option, none, some, List,
  [], ◌∷◌, Table, lookup, insert, erase, Result, ok, err, if◌then◌else◌,
}
use example_applications.ContactCentre.Transfers.{target_supervisor, target_agent}

-- intercomRinging, intercomActive and intercomEnded.
pub data IntercomState : Type 0 where
  ringing active ended : IntercomState

pub record Intercom : Type 0 where
  pub id : String
  pub agent_id : String
  pub agent_name : String
  pub target_kind : String
  pub target : String
  pub target_name : String
  pub agent_leg : String
  pub callee_leg : String
  pub room_id : String
  pub state : IntercomState
  pub started_at : ℕ
  pub answered_at : Option ℕ

pub record IntercomRegistry : Type 0 where
  pub by_id : Table Intercom
  pub by_agent : Table String

unfoldable pub new_intercom_registry : IntercomRegistry
new_intercom_registry = record { by_id = []; by_agent = [] }

-- The fields of the calling agent that `Create` reads.
pub record Caller : Type 0 where
  pub id : String
  pub name : String

pub record Request : Type 0 where
  pub agent : Option Caller
  pub kind : String
  pub target : String
  pub target_name : String
  pub agent_leg : String

pub data IntercomError : Type 0 where
  no_agent unknown_target_kind target_required leg_required no_random_id already_in_intercom :
      IntercomError

abbrev pub new_intercom : Request → Caller → String → ℕ → Intercom
new_intercom q ag id now = record {
  id = id;
  agent_id = ag.id;
  agent_name = ag.name;
  target_kind = q.kind;
  target = q.target;
  target_name = q.target_name;
  agent_leg = q.agent_leg;
  callee_leg = "";
  room_id = concat "intercom-" id;
  state = ringing;
  started_at = now;
  answered_at = none;
}

-- The part of `Create` under the lock.
register : IntercomRegistry → Intercom → IntercomRegistry × Result IntercomError Intercom
register r ic = elim (lookup ic.agent_id r.by_agent) [
  | some busy ↦ (r, err already_in_intercom)
  | none ↦ (
    record { by_id = insert ic.id ic r.by_id; by_agent = insert ic.agent_id ic.id r.by_agent },
    ok ic,
  )
]

-- The checks of `Create` on a request with an agent.
create_for :
    IntercomRegistry
    → Request
    → Caller
    → Option String
    → ℕ
    → IntercomRegistry × Result IntercomError Intercom
unfolding register
create_for r q ag fresh now =
    if not (q.kind == target_supervisor || q.kind == target_agent)
    then (r, err unknown_target_kind)
    else if q.target == ""
    then (r, err target_required)
    else if q.agent_leg == ""
    then (r, err leg_required)
    else elim fresh [
      | none ↦ (r, err no_random_id)
      | some id ↦ register r (new_intercom q ag id now)
    ]

unfoldable pub create :
    IntercomRegistry
    → Request
    → Option String
    → ℕ
    → IntercomRegistry × Result IntercomError Intercom
unfolding create_for
create r q fresh now = elim q.agent [
  | none ↦ (r, err no_agent)
  | some ag ↦ create_for r q ag fresh now
]

abbrev pub is_ringing : IntercomState → Bool
is_ringing ringing = true
is_ringing _ = false

abbrev pub is_ended : IntercomState → Bool
is_ended ended = true
is_ended _ = false

unfoldable pub claim_answer :
    IntercomRegistry → String → String → ℕ → IntercomRegistry × Option Intercom
claim_answer r id leg now = elim (lookup id r.by_id) [
  | none ↦ (r, none)
  | some ic ↦
      if is_ringing ic.state
      then (let answered : Intercom = record ic {
        state = active;
        callee_leg = leg;
        answered_at = some now;
      } in
          (record r { by_id = insert id answered r.by_id }, some answered))
      else (r, none)
]

-- The part that `Reject` and `End` share: the intercom is ended and leaves both maps.
drop : IntercomRegistry → String → Intercom → IntercomRegistry × Option Intercom
drop r id ic = (
  record { by_id = erase id r.by_id; by_agent = erase ic.agent_id r.by_agent },
  some (record ic { state = ended }),
)

unfoldable pub reject : IntercomRegistry → String → IntercomRegistry × Option Intercom
unfolding drop
reject r id = elim (lookup id r.by_id) [
  | none ↦ (r, none)
  | some ic ↦ if is_ringing ic.state then drop r id ic else (r, none)
]

-- `End`
unfoldable pub end : IntercomRegistry → String → IntercomRegistry × Option Intercom
unfolding drop
end r id = elim (lookup id r.by_id) [
  | none ↦ (r, none)
  | some ic ↦ if is_ended ic.state then (r, none) else drop r id ic
]

-- `Get`
unfoldable pub get : IntercomRegistry → String → Option Intercom
get r id = lookup id r.by_id

unfoldable pub by_agent : IntercomRegistry → String → Option Intercom
by_agent r agent = elim (lookup agent r.by_agent) [ none ↦ none | some id ↦ lookup id r.by_id ]

pub data Call : Type 0 where
  creates : Request → Option String → ℕ → Call
  answers : String → String → ℕ → Call
  rejects ends : String → Call

unfoldable pub step : IntercomRegistry → Call → IntercomRegistry
unfolding create claim_answer reject end
step r (creates q fresh now) = (create r q fresh now).0
step r (answers id leg now) = (claim_answer r id leg now).0
step r (rejects id) = (reject r id).0
step r (ends id) = (end r id).0

unfoldable pub run : IntercomRegistry → List Call → IntercomRegistry
run r [] = r
run r (c ∷ cs) = run (step r c) cs
