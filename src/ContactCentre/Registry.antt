-- ===== src/ContactCentre/Registry.antt =====
-- cmd/contact-centre/registry.go: the live calls, in the order of arrival, and the subscribers that
-- redraw when they change. Each method holds the mutex, so it is one atomic function on the state.
-- A channel with a buffer of one is an `Option` (or a `Bool`): a non-blocking send to a full one is
-- dropped. Times are arguments. The pointer of a subscriber is a number that is not used again.
pub mod Loops
pub mod Legs
pub mod Positions
pub mod Claims
pub mod Signals
pub mod Snapshots
use example_applications.Base.{
  ℕ, suc, ◌+◌, String, ◌==◌, string_eq, nat_eq, Bool, true, false, not, ◌&&◌, Option, none, some,
  List, [], ◌∷◌, ◌++◌, map, length, if◌then◌else◌,
}
use mathlib.Core.Option

-- The strings "ringing", "queued" and "in_call".
pub data CallState : Type 0 where
  ringing queued in_call : CallState

abbrev pub is_queued : CallState → Bool
is_queued queued = true
is_queued _ = false

abbrev pub is_in_call : CallState → Bool
is_in_call in_call = true
is_in_call _ = false

-- The serialised fields and the unserialised text fields of `callView`.
pub record CallView : Type 0 where
  pub leg_id : String
  pub from : String
  pub to : String
  pub state : CallState
  pub position : ℕ
  pub started_at : ℕ
  pub room_id : String
  pub answered_by_agent_id : String
  pub answered_by_name : String
  pub answered_agent_leg : String
  pub answered_at : Option ℕ
  pub on_hold : Bool
  pub hold_playback_id : String
  pub transferred_from : String

pub record TransferOutcome : Type 0 where
  pub new_agent_id : String
  pub new_agent_name : String
  pub new_agent_leg : String

-- A registered call: its view, and the buffers of `answer` and `transferSignal`.
pub record LiveCall : Type 0 where
  pub view : CallView
  pub open view use *
  pub answer : Bool
  pub transfer_signal : Option TransferOutcome

pub record Subscriber : Type 0 where
  pub id : ℕ
  pub trigger : Bool

pub record Registry : Type 0 where
  pub calls : List LiveCall
  pub subs : List Subscriber
  pub next_sub : ℕ

unfoldable pub new_registry : Registry
new_registry = record { calls = []; subs = []; next_sub = 0 }

-- The loop of `assignPositionsLocked`.
unfoldable pub assign_from : ℕ → List LiveCall → List LiveCall
assign_from pos [] = []
assign_from pos (c ∷ cs) =
    let next : ℕ = if is_queued c.state then suc pos else pos in
    record c { view = record c.view { position = if is_queued c.state then suc pos else 0 } }
    ∷ assign_from next cs

unfoldable pub assign_positions : Registry → Registry
unfolding assign_from
assign_positions r = record r { calls = assign_from 0 r.calls }

unfoldable pub broadcast : Registry → Registry
broadcast r = record r { subs = map {A = Subscriber} (λ s. record s { trigger = true }) r.subs }

unfoldable pub add_ringing : Registry → String → String → String → ℕ → Registry
unfolding broadcast
add_ringing r leg from to now = broadcast (record r { calls = r.calls ++ call ∷ [] })
  where
    call : LiveCall
    call = record {
      view = record {
        leg_id = leg;
        from = from;
        to = to;
        state = ringing;
        position = 0;
        started_at = now;
        room_id = "";
        answered_by_agent_id = "";
        answered_by_name = "";
        answered_agent_leg = "";
        answered_at = none;
        on_hold = false;
        hold_playback_id = "";
        transferred_from = "";
      };
      answer = false;
      transfer_signal = none;
    }

-- The loop `for _, c := range r.calls { if c.LegID != legID { continue } ... }`: the body `f` sees
-- the first call with the leg, and changes it or refuses; `none` when it refuses or there is none.
unfoldable pub modify :
    String → (LiveCall → Option LiveCall) → List LiveCall → Option (List LiveCall)
modify leg f [] = none
modify leg f (c ∷ cs) =
    let rest = Option.map (◌∷◌ c) (modify leg f cs) in
    if c.leg_id == leg then Option.map (λ d. d ∷ cs) (f c) else rest

unfoldable pub enqueue : String → LiveCall → Option LiveCall
enqueue room c = some (record c { view = record c.view { state = queued; room_id = room } })

unfoldable pub mark_queued : Registry → String → String → Registry
unfolding enqueue assign_positions broadcast modify
mark_queued r leg room =
    let calls : List LiveCall = Option.get_or (modify leg (enqueue room) r.calls) r.calls in
    broadcast (assign_positions (record r { calls = calls }))

bool_eq : Bool → Bool → Bool
bool_eq true b = b
bool_eq false b = not b

unfoldable pub hold : Bool → String → LiveCall → Option LiveCall
unfolding bool_eq
hold on playback c =
    if bool_eq c.on_hold on
    then none
    else some (record c { view = record c.view { on_hold = on; hold_playback_id = playback } })

-- The registry after a loop that refused or changed a call, and the method's result.
committed : Registry → Option (List LiveCall) → Registry × Bool
unfolding broadcast
committed r none = (r, false)
committed r (some calls) = (broadcast (record r { calls = calls }), true)

unfoldable pub set_hold : Registry → String → Bool → String → Registry × Bool
unfolding committed hold modify
set_hold r leg on playback = committed r (modify leg (hold on playback) r.calls)

-- A non-blocking send.
abbrev send {ℓ} : {A : Type ℓ} → Option A → A → Option A
send (some old) a = some old
send none a = some a

unfoldable pub hand_to : TransferOutcome → LiveCall → Option LiveCall
hand_to o c = some (record c {
  view = record c.view {
    transferred_from =
        if not (c.answered_by_name == "") then c.answered_by_name else c.transferred_from;
    answered_by_agent_id = o.new_agent_id;
    answered_by_name = o.new_agent_name;
    answered_agent_leg = o.new_agent_leg;
    on_hold = false;
    hold_playback_id = "";
  };
  transfer_signal = send c.transfer_signal o;
})

unfoldable pub transfer_to : Registry → String → TransferOutcome → Registry × Bool
unfolding committed hand_to modify
transfer_to r leg o = committed r (modify leg (hand_to o) r.calls)

-- The agent who claims a call.
pub record Claimant : Type 0 where
  pub agent_id : String
  pub agent_name : String
  pub agent_leg : String

unfoldable pub take_call : Claimant → ℕ → LiveCall → Option LiveCall
take_call a now c =
    if is_queued c.state
    then some (record c {
      view = record c.view {
        state = in_call;
        answered_by_agent_id = a.agent_id;
        answered_by_name = a.agent_name;
        answered_agent_leg = a.agent_leg;
        answered_at = some now;
      };
      answer = true;
    })
    else none

unfoldable pub claim : Registry → String → Claimant → ℕ → Registry × Bool
unfolding take_call assign_positions broadcast modify
claim r leg a now = elim (modify leg (take_call a now) r.calls) [
  | none ↦ (r, false)
  | some calls ↦ (broadcast (assign_positions (record r { calls = calls })), true)
]

-- The first call that passes a test.
unfoldable pub first : (LiveCall → Bool) → List LiveCall → Option LiveCall
first p [] = none
first p (c ∷ cs) = if p c then some c else first p cs

-- `lookup`, `callByRoom` and `callAnsweredBy` return a copy without the channels.
unfoldable pub lookup_call : Registry → String → Option CallView
unfolding first
lookup_call r leg = Option.map (λ c. c.view) (first (λ c. c.leg_id == leg) r.calls)

unfoldable pub call_by_room : Registry → String → Option CallView
unfolding first
call_by_room r room =
    if room == "" then none else Option.map (λ c. c.view) (first (λ c. c.room_id == room) r.calls)

unfoldable pub call_answered_by : Registry → String → Option CallView
unfolding first
call_answered_by r agent =
    Option.map (λ c. c.view)
      (first (λ c. is_in_call c.state && c.answered_by_agent_id == agent) r.calls)

unfoldable pub drop_first : String → List LiveCall → List LiveCall
drop_first leg [] = []
drop_first leg (c ∷ cs) = if c.leg_id == leg then cs else c ∷ drop_first leg cs

unfoldable pub remove : Registry → String → Registry
unfolding drop_first assign_positions broadcast
remove r leg = broadcast (assign_positions (record r { calls = drop_first leg r.calls }))

unfoldable pub queue_position : Registry → String → ℕ
unfolding first
queue_position r leg = elim (first (λ c. c.leg_id == leg) r.calls) [
  | none ↦ 0
  | some c ↦ c.position
]

pub record Stats : Type 0 where
  pub active : ℕ
  pub ringing : ℕ
  pub queued : ℕ
  pub in_call : ℕ

unfoldable pub bump_stat : CallState → Stats → Stats
bump_stat CallState.ringing s = record s { ringing = s.ringing + 1 }
bump_stat CallState.queued s = record s { queued = s.queued + 1 }
bump_stat CallState.in_call s = record s { in_call = s.in_call + 1 }

unfoldable pub count_stats : Stats → List LiveCall → Stats
unfolding bump_stat
count_stats s [] = s
count_stats s (c ∷ cs) = count_stats (bump_stat c.state s) cs

pub record Snapshot : Type 0 where
  pub calls : List CallView
  pub stats : Stats

unfoldable pub stats_of : List LiveCall → Stats
unfolding count_stats
stats_of cs =
    let s : Stats = count_stats (record { active = 0; ringing = 0; queued = 0; in_call = 0 }) cs in
    record s { active = length cs }

unfoldable pub queued_views : List LiveCall → List CallView
queued_views [] = []
queued_views (c ∷ cs) =
    let rest = queued_views cs in if is_queued c.state then c.view ∷ rest else rest

-- `snapshot` and `queueSnapshot`, without the time of day.
unfoldable pub snapshot : Registry → Snapshot
unfolding stats_of
snapshot r = record { calls = map (λ c. c.view) r.calls; stats = stats_of r.calls }

unfoldable pub queue_snapshot : Registry → Snapshot
unfolding stats_of queued_views
queue_snapshot r = record { calls = queued_views r.calls; stats = stats_of r.calls }

unfoldable pub subscribe : Registry → Registry × ℕ
subscribe r = (
  record r {
    subs = record { id = r.next_sub; trigger = false } ∷ r.subs;
    next_sub = suc r.next_sub;
  },
  r.next_sub,
)

unfoldable pub drop_sub : ℕ → List Subscriber → List Subscriber
drop_sub id [] = []
drop_sub id (s ∷ ss) = let rest = drop_sub id ss in if s.id == id then rest else s ∷ rest

unfoldable pub unsubscribe : Registry → ℕ → Registry
unfolding drop_sub
unsubscribe r id = record r { subs = drop_sub id r.subs }

-- What the WebSocket handler does with its trigger: it receives the pending signal.
unfoldable pub drain : ℕ → List Subscriber → List Subscriber
drain id [] = []
drain id (s ∷ ss) = (if s.id == id then record s { trigger = false } else s) ∷ drain id ss

-- The calls that the handlers make.
pub data Call : Type 0 where
  adds : String → String → String → ℕ → Call
  queues : String → String → Call
  holds : String → Bool → String → Call
  transfers : String → TransferOutcome → Call
  claims : String → Claimant → ℕ → Call
  removes : String → Call
  notifies subscribes : Call
  unsubscribes receives : ℕ → Call

unfoldable pub step : Registry → Call → Registry
unfolding add_ringing mark_queued set_hold transfer_to claim remove subscribe unsubscribe drain
step r (adds leg from to now) = add_ringing r leg from to now
step r (queues leg room) = mark_queued r leg room
step r (holds leg on playback) = (set_hold r leg on playback).0
step r (transfers leg o) = (transfer_to r leg o).0
step r (claims leg a now) = (claim r leg a now).0
step r (removes leg) = remove r leg
step r notifies = broadcast r
step r subscribes = (subscribe r).0
step r (unsubscribes id) = unsubscribe r id
step r (receives id) = record r { subs = drain id r.subs }

unfoldable pub run : Registry → List Call → Registry
run r [] = r
run r (c ∷ cs) = run (step r c) cs
