-- ===== src/Pbx/Dialplan/Exec.antt =====
-- cmd/pbx/dialplan_engine.go: the state of one call on the dial plan, and what the walk asks of the
-- rest of the program.
use example_applications.Base.{
  ℕ, String, ◌==◌, string_eq, Bool, false, ◌||◌, Option, none, some, List, if◌then◌else◌,
}
use example_applications.Base.Int.{ℤ}
use example_applications.Pbx.Dialplan.Graph.{Graph}

-- `dpExec`. `registered` says whether the call is in `a.dpExecs` under its leg.
pub record Exec : Type 0 where
  pub leg_id : String
  pub trunk_id : String
  pub tenant_id : String
  pub did : String
  pub from : String
  pub registered : Bool
  pub answered : Bool
  pub resume_node : String
  pub pending_id : String
  pub next_node : String
  pub gathering : Bool
  pub gather_node : String
  pub gather_input : String
  pub gather_stt : Bool
  pub gather_digits : String
  pub gather_prompt_id : String
  pub gather_num : ℤ
  pub gather_gen : ℕ

-- `forkTarget`: the SIP address of a registered phone, or a live softphone.
pub record Target : Type 0 where
  pub number : String
  pub aor : String
  pub softphone : Bool

-- What a forward node reads of a trunk.
pub record Trunk : Type 0 where
  pub id : String
  pub tenant_id : String
  pub name : String
  pub registers : Bool
  pub dial_host : String
  pub username : String

-- What the walk takes from elsewhere: the stored plan, Go's text and number functions, the other
-- registries, and the answers of the media server (`none` and `false` are its errors).
pub record Env : Type 0 where
  pub graph : Graph
  pub atoi : String → Option ℤ
  pub has_prefix : String → String → Bool
  pub regex_match : String → String → Option Bool
  pub split_csv : String → List String
  pub extension_targets : String → List Target
  pub trunk_by_id : String → Option Trunk
  pub outbound_trunk : Option Trunk
  pub answer_leg : Bool
  pub play_start : String → Option String
  pub tts_start : String → Option String
  pub stt_start : Bool

-- What a walk ends in: the call is hung up or handed over, or waits for an event.
pub data Outcome : Type 0 where
  hung_up : String → Outcome
  ivr : Outcome
  answering : Outcome
  waiting : ℕ → String → Outcome
  ringing : List Target → ℤ → Bool → Outcome
  forwarding : String → String → Trunk → ℤ → Bool → Outcome
  prompting : String → Outcome
  gathering : ℤ → Outcome

-- `atoiDefault`
unfoldable pub atoi_default : Env → String → ℤ → ℤ
atoi_default v s def = elim (v.atoi s) [ none ↦ def | some n ↦ n ]

-- validHangupReasons
abbrev pub is_valid_reason : String → Bool
is_valid_reason r =
    r == "busy"
    || r == "declined"
    || r == "rejected"
    || r == "unavailable"
    || r == "not_found"
    || r == "forbidden"
    || r == "server_error"

unfoldable pub safe_hangup_reason : String → String
safe_hangup_reason r = if is_valid_reason r then r else ""

-- `dpReject`
unfoldable pub reject : Exec → String → Exec × Outcome
unfolding safe_hangup_reason
reject e reason = (record e { registered = false }, hung_up (safe_hangup_reason reason))

unfoldable pub suspend : Exec → String → String → Exec
suspend e pending next = record e { pending_id = pending; next_node = next }

-- `dpAnswer`
unfoldable pub answer : Env → Exec → String → Exec × Outcome
unfolding reject
answer v e resume =
    let waiting_here : Exec = record e { resume_node = resume } in
    if v.answer_leg then (waiting_here, answering) else reject waiting_here "declined"
