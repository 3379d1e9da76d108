-- ===== src/ContactCentre/Agents.antt =====
-- cmd/contact-centre/agents.go: the logged-in agents. Closing the browser arms a timer that removes
-- the agent after a grace period, and `expire` is the body of that timer. A timer is kept as its
-- deadline. The random id is an argument, `none` when the generator fails; `notified` counts the
-- calls of the callback.
pub mod Roster
use example_applications.Base.{
  ℕ, ◌+◌, String, ◌==◌, string_eq, nat_eq, ◌||◌, Option, none, some, List, [], ◌∷◌, Table, lookup,
  insert, erase, if◌then◌else◌,
}

pub record Agent : Type 0 where
  pub id : String
  pub name : String
  pub logged_in_at : ℕ
  pub webrtc_leg_id : String

pub record AgentRegistry : Type 0 where
  pub by : Table Agent
  pub pending_remove : Table ℕ
  pub remove_after : ℕ
  pub notified : ℕ

unfoldable pub new_agent_registry : AgentRegistry
new_agent_registry = record { by = []; pending_remove = []; remove_after = 60; notified = 0 }

-- fireNotify
abbrev pub fire_notify : AgentRegistry → AgentRegistry
fire_notify r = record r { notified = r.notified + 1 }

-- `login`, for a name from which white space is trimmed.
unfoldable pub login : AgentRegistry → String → Option String → ℕ → AgentRegistry × Option Agent
login r name fresh now = if name == "" then (r, none) else elim fresh [
  | none ↦ (r, none)
  | some id ↦
      (let a : Agent = record { id = id; name = name; logged_in_at = now; webrtc_leg_id = "" } in
        (fire_notify (record r { by = insert id a r.by }), some a))
]

-- The end that `logout` and the timer of scheduleRemove share: the agent and its timer are deleted,
-- and the subscribers hear of it if the agent was there.
unfoldable pub remove_agent : AgentRegistry → String → AgentRegistry
remove_agent r id =
    let gone : AgentRegistry = record r {
      by = erase id r.by;
      pending_remove = erase id r.pending_remove;
    } in
    elim (lookup id r.by) [ none ↦ gone | some a ↦ fire_notify gone ]

unfoldable pub logout : AgentRegistry → String → AgentRegistry
unfolding remove_agent
logout r id = remove_agent r id

-- scheduleRemove
unfoldable pub schedule_remove : AgentRegistry → String → ℕ → AgentRegistry
schedule_remove r id now =
    if id == "" || r.remove_after == 0
    then r
    else record r { pending_remove = insert id (now + r.remove_after) r.pending_remove }

-- The function that scheduleRemove passes to time.AfterFunc.
unfoldable pub expire : AgentRegistry → String → AgentRegistry
unfolding remove_agent
expire r id = remove_agent r id

unfoldable pub cancel_remove : AgentRegistry → String → AgentRegistry
cancel_remove r id = if id == "" then r else record r { pending_remove = erase id r.pending_remove }

unfoldable pub get_agent : AgentRegistry → String → Option Agent
get_agent r id = if id == "" then none else lookup id r.by

-- setWebRTCLeg, with the leg that the agent had before.
unfoldable pub set_webrtc_leg : AgentRegistry → String → String → AgentRegistry × String
set_webrtc_leg r id leg = elim (lookup id r.by) [
  | none ↦ (r, "")
  | some a ↦ (
    fire_notify (record r { by = insert id (record a { webrtc_leg_id = leg }) r.by }),
    a.webrtc_leg_id,
  )
]

unfoldable pub webrtc_leg : AgentRegistry → String → String
webrtc_leg r id = elim (lookup id r.by) [ none ↦ "" | some a ↦ a.webrtc_leg_id ]

pub data Call : Type 0 where
  logs_in : String → Option String → ℕ → Call
  logs_out expires reconnects : String → Call
  disconnects : String → ℕ → Call
  sets_leg : String → String → Call

unfoldable pub step : AgentRegistry → Call → AgentRegistry
unfolding login logout expire cancel_remove schedule_remove set_webrtc_leg
step r (logs_in name fresh now) = (login r name fresh now).0
step r (logs_out id) = logout r id
step r (expires id) = expire r id
step r (reconnects id) = cancel_remove r id
step r (disconnects id now) = schedule_remove r id now
step r (sets_leg id leg) = (set_webrtc_leg r id leg).0

unfoldable pub run : AgentRegistry → List Call → AgentRegistry
run r [] = r
run r (c ∷ cs) = run (step r c) cs
