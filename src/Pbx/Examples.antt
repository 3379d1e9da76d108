-- ===== src/Pbx/Examples.antt =====
-- The theorems of the dial plan, of forks and of calls at concrete data.
use example_applications.Base.{
  ◌+◌, String, string_eq, ◌≡◌, ◌≢◌, ◌⊎◌, refl, Bool, true, false, none, some, List, [], ◌∷◌, lookup,
  arith, inl, eq_iff,
}
use example_applications.Base.Int.{pos}
use example_applications.Pbx.Dialplan.Graph.{
  Graph, Node, play, default_dialplan, port_next, node, edge_to, param,
}
use example_applications.Pbx.Dialplan.Exec
use example_applications.Pbx.Dialplan.Exec.{Env, Outcome}
use example_applications.Pbx.Dialplan.Walk.{walk}
use example_applications.Pbx.Dialplan.Walk.Ends
use example_applications.Pbx.Dialplan.Walk.Media
use example_applications.Pbx.Calls.{Bridge, Group, CallMeta, stop_playback, hold_music}
use example_applications.Pbx.Forks
use example_applications.Pbx.Forks.Resolution
use example_applications.Pbx.Bridges
use example_applications.Pbx.Bridges.Teardown

abbrev caller : Exec.Exec
caller = record {
  leg_id = "leg-1";
  trunk_id = "trunk-1";
  tenant_id = "acme";
  did = "100";
  from = "200";
  registered = true;
  answered = false;
  resume_node = "";
  pending_id = "";
  next_node = "";
  gathering = false;
  gather_node = "";
  gather_input = "";
  gather_stt = false;
  gather_digits = "";
  gather_prompt_id = "";
  gather_num = pos 0;
  gather_gen = 0;
}

abbrev with_graph : Graph → Env
with_graph g = record {
  graph = g;
  atoi = λ s. none;
  has_prefix = λ s t. false;
  regex_match = λ s t. none;
  split_csv = λ s. [];
  extension_targets = λ s. [];
  trunk_by_id = λ s. none;
  outbound_trunk = none;
  answer_leg = true;
  play_start = λ s. some "playback-1";
  tts_start = λ s. none;
  stt_start = false;
}

-- No node restarts the step count in the plan that is seeded on the first run.
default-NeverRestarts : Ends.NeverRestarts (with_graph default_dialplan)
unfolding node default_dialplan
default-NeverRestarts id n h = ground arith

walk_ends_example :
    (o : Exec.Exec × Outcome) × (walk (with_graph default_dialplan) 52 caller "ivr" 0 ≡ some o)
walk_ends_example = Ends.walk_ends (with_graph default_dialplan) caller "ivr" default-NeverRestarts

-- One play node without a url, wired back to itself.
abbrev silent_node : Node
silent_node = record { id = "p"; type = play; params = [] }

abbrev silent_loop : Graph
silent_loop = record {
  nodes = silent_node ∷ [];
  edges = record { from = "p"; port = port_next; to = "p" } ∷ [];
}

abbrev IsSilent : String → Type 0
IsSilent id = id ≡ "p"

IsSilent-closed :
    (id : String)
    → IsSilent id
    → (n : Node) × (next : String) × (node (with_graph silent_loop).graph id ≡ some n)
      × (Ends.hands_on (with_graph silent_loop) n n.type ≡ some next)
      × IsSilent next
unfolding node edge_to param lookup
IsSilent-closed id h = (silent_node, "p", rw h, refl, refl)

walk_never_ends_example : walk (with_graph silent_loop) 1000 caller "p" 0 ≡ none
walk_never_ends_example =
    Ends.walk_never_ends (with_graph silent_loop) IsSilent IsSilent-closed 1000 caller "p" 0 refl
      (omega arith)

walk-Settled_example : Media.AllSettled (walk (with_graph silent_loop) 3 caller "p" 51)
walk-Settled_example = Media.walk-Settled (with_graph silent_loop) 3 caller "p" 51 refl

abbrev two_phones : Group
two_phones = record {
  room_id = "call-a";
  tenant_id = "acme";
  a_leg = "a";
  caller_answered = false;
  from = "200";
  to = "101,102";
  via = "";
  kind = "internal";
  ringback_pb = "";
  started_at = 0;
  caller_filters = [];
  resumes = false;
  candidates =
      ("b", record { number = "101"; sess = none })
      ∷ ("c", record { number = "102"; sess = some 7 })
      ∷ [];
  won = false;
  ring_timer = true;
}

-- One phone is busy, the other answers, and the first one's refusal comes again.
abbrev busy_then_answered : List Forks.Event
busy_then_answered =
    Forks.disconnects "b" "busy" ∷ Forks.answers "c" true 5 ∷ Forks.declines "c" "declined" ∷ []

run-resolutions_example :
    Resolution.resolutions "a" (Forks.run two_phones busy_then_answered).1
      + Resolution.open_forks (Forks.run two_phones busy_then_answered).0
    ≡ 1
run-resolutions_example =
    Resolution.run-resolutions two_phones busy_then_answered refl refl (refl, (tt, (tt, tt)))

begin_fork-resolutions_example :
    Resolution.resolutions "a" (Forks.begin_fork two_phones ("c" ∷ [])).1
      + Resolution.open_forks (Forks.begin_fork two_phones ("c" ∷ [])).0
    ≡ 1
begin_fork-resolutions_example = Resolution.begin_fork-resolutions two_phones ("c" ∷ []) refl

-- A caller that a menu has answered before the two phones are rung.
abbrev from_menu : Group
from_menu = record two_phones { caller_answered = true }

gone_caller_bridged_example :
    Resolution.bridges
      (Forks.run from_menu (Forks.disconnects "a" "" ∷ Forks.answers "b" true 5 ∷ [])).1
    ≡ Forks.bridge_of from_menu "b" (record { number = "101"; sess = none }) 5 ∷ []
unfolding lookup
gone_caller_bridged_example =
    Resolution.gone_caller_bridged from_menu "b" (record { number = "101"; sess = none }) true 5
      refl refl refl

abbrev talking : Bridge
talking = record {
  room_id = "call-a";
  tenant_id = "acme";
  a_leg = "a";
  b_leg = "b";
  from = "200";
  to = "101";
  kind = "internal";
  via = "";
  started_at = 0;
  caller_filters = [];
  callee_filters = [];
  resumes = false;
  caller_answered = true;
  ringback_pb = "";
  connected = true;
  connected_at = 3;
  moh = [];
}

abbrev one_call : Bridges.Switch
one_call = record {
  bridges = λ k. talking;
  by_leg = ("a", 0) ∷ ("b", 0) ∷ [];
  groups = λ k. two_phones;
  fork_by_leg = [];
}

hold-unhold_example :
    let held = (Bridges.on_leg_hold one_call "a" "http://music" (some "pb-1")).0 in
    ((Bridges.on_leg_hold one_call "a" "http://music" (some "pb-1")).1
      ≡ hold_music "b" "http://music" ∷ [])
    × ((Bridges.on_leg_unhold held "a").1 ≡ stop_playback "b" "pb-1" ∷ [])
    × ((Bridges.on_leg_unhold (Bridges.on_leg_unhold held "a").0 "a").1 ≡ [])
unfolding lookup
hold-unhold_example =
    Teardown.hold-unhold one_call 0 "a" "b" "http://music" "pb-1" refl (inl (refl, refl))
      (λ e. ground (arith, eq_iff "http://music" "")) (λ e. ground (arith, eq_iff "pb-1" ""))

abbrev to_bob : CallMeta
to_bob = record {
  tenant_id = "acme";
  from = "200";
  to = "101";
  kind = "internal";
  via = "";
  caller_filters = [];
  ring_time = pos 0;
  resumes = false;
}

start_bridge_settles_example :
    let r =
      Bridges.start_bridge one_call "x" "sip:101@pbx" true to_bob true "pb-1" (some "y") 9 1 in
    ((r.0 ≡ one_call) × (Teardown.hung_up r.1 ≡ "x" ∷ []))
    ⊎ ((l : String) × (◌≡◌ {A = Bool} true true)
        × (some "y" ≡ some l)
        × (l ≢ "")
        × Teardown.AreBridged r.0 1 "x" l
        × (Teardown.hung_up r.1 ≡ []))
start_bridge_settles_example =
    Teardown.start_bridge_settles one_call "x" "sip:101@pbx" true to_bob true "pb-1" (some "y") 9 1
