-- ===== src/Pbx/Dialplan/Walk.antt =====
-- cmd/pbx/dialplan_engine.go: dpWalk and the nodes it visits. The Go functions call one another
-- without bound where a node restarts the step count, so the walk has fuel: `none` is a walk that
-- has not come to an end in that many visits.
pub mod Ends
pub mod Media
use example_applications.Base.{
  ℕ, zero, suc, String, concat, ◌==◌, string_eq, Bool, true, false, not, ◌&&◌, ◌||◌, Option, none,
  some, List, [], ◌∷◌, ◌++◌, ltb, if◌then◌else◌,
}
use example_applications.Base.Int.{ℤ, pos, pos_part, ltb_ℤ}
use example_applications.Pbx.Dialplan.Graph.{
  Graph, Node, NodeType, start, match, ext, ivr, reject, forward, play, tts, answer, gather, wait,
  other, port_match, port_nomatch, port_next, port_noanswer, port_out, node, edge_to, start_node,
  param,
}
use example_applications.Pbx.Dialplan.Exec
use example_applications.Pbx.Dialplan.Exec.{
  Env, Target, Trunk, Outcome, hung_up, answering, waiting, ringing, forwarding, prompting,
  gathering, atoi_default, suspend,
}

-- dpMaxSteps
abbrev pub max_steps : ℕ
max_steps = 50

abbrev pub Visit : Type 0
Visit = Option (Exec.Exec × Outcome)

-- dpWalk, as the nodes call it: the state, the node to go to, and the step.
abbrev pub Walker : Type 0
Walker = Exec.Exec → String → ℕ → Visit

-- dpMatches
unfoldable pub matches : Env → Node → Exec.Exec → Bool
unfolding param
matches v n e =
    let trunk = param n "trunk" "" in
    let mode = param n "did_mode" "any" in
    let val = param n "did" "" in
    if not (trunk == "") && not (trunk == e.trunk_id)
    then false
    else if mode == "any"
    then true
    else if mode == "exact"
    then e.did == val
    else if mode == "prefix"
    then v.has_prefix e.did val
    else if mode == "regex"
    then elim (v.regex_match val e.did) [ none ↦ false | some hit ↦ hit ]
    else false

-- The seconds of a wait node, between 0 and 300.
unfoldable pub wait_seconds : Env → Node → ℕ
unfolding atoi_default param
wait_seconds v n =
    let secs = atoi_default v (param n "seconds" "1") (pos 1) in
    if ltb_ℤ secs (pos 0) then 0 else if ltb_ℤ (pos 300) secs then 300 else pos_part secs

-- The loop over the numbers of an ext node.
unfoldable pub targets_of : Env → List String → List Target
targets_of v [] = []
targets_of v (n ∷ ns) = v.extension_targets n ++ targets_of v ns

-- Nobody can be rung: the walk goes on at the noanswer port, if that is wired, at step 0.
unfoldable pub no_answer : Env → Walker → Exec.Exec → Node → Visit
unfolding edge_to
no_answer v walk_on e n =
    let next = edge_to v.graph n.id port_noanswer in
    elim (next == "") [
      | true ↦ some (e, hung_up "unavailable")
      | false ↦ walk_on (record e { registered = true }) next 0
    ]

-- dpRouteExtension
unfoldable pub route_extension : Env → Walker → Exec.Exec → Node → Visit
unfolding targets_of no_answer atoi_default param edge_to
route_extension v walk_on e n =
    let gone : Exec.Exec = record e { registered = false } in
    let wired = not (edge_to v.graph n.id port_noanswer == "") in
    elim (targets_of v (v.split_csv (param n "number" ""))) [
      | [] ↦ no_answer v walk_on gone n
      | t ∷ ts ↦
          some (gone, ringing (t ∷ ts) (atoi_default v (param n "ring_time" "30") (pos 30)) wired)
    ]

-- The trunk of a forward node: its own if that is the tenant's, and the tenant's outbound one if not.
unfoldable pub forward_trunk : Env → Exec.Exec → Node → Option Trunk
unfolding param
forward_trunk v e n = elim (v.trunk_by_id (param n "trunk" "")) [
  | none ↦ v.outbound_trunk
  | some t ↦ if t.tenant_id == e.tenant_id then some t else v.outbound_trunk
]

-- dpForward
unfoldable pub forward_call : Env → Walker → Exec.Exec → Node → Visit
unfolding forward_trunk no_answer atoi_default param edge_to
forward_call v walk_on e n =
    let gone : Exec.Exec = record e { registered = false } in
    let wired = not (edge_to v.graph n.id port_noanswer == "") in
    let number = param n "number" "" in
    elim (forward_trunk v e n) [
      | none ↦ no_answer v walk_on gone n
      | some t ↦ elim (number == "" || t.dial_host == "") [
        | true ↦ no_answer v walk_on gone n
        | false ↦ some (
          gone,
          forwarding (concat "sip:" (concat number (concat "@" t.dial_host)))
              (if t.registers && not (t.username == "") then t.username else e.from) t
              (atoi_default v (param n "ring_time" "30") (pos 30)) wired,
        )
      ]
    ]

-- dpPlay and dpTTS, which differ in the parameter and in the media call.
unfoldable pub prompt : String → (String → Option String) → Env → Walker → Exec.Exec → Node → Visit
unfolding param edge_to suspend Exec.reject Exec.answer
prompt key play_it v walk_on e n =
    let text = param n key "" in
    let next = edge_to v.graph n.id port_next in
    elim (text == "") [
      | true ↦ walk_on e next 0
      | false ↦ if not e.answered then some (Exec.answer v e n.id) else elim (play_it text) [
        | none ↦ some (Exec.reject e "declined")
        | some id ↦ some (suspend e id next, prompting id)
      ]
    ]

-- dpGather
unfoldable pub start_gather : Env → Exec.Exec → Node → Exec.Exec × Outcome
unfolding param atoi_default Exec.answer
start_gather v e n =
    let input = param n "input" "dtmf" in
    let asked = atoi_default v (param n "timeout" "7") (pos 7) in
    let timeout : ℤ = if ltb_ℤ (pos 0) asked then asked else pos 7 in
    let text = param n "text" "" in
    let url = param n "url" "" in
    let prompt_id : Option String =
      if not (text == "")
      then v.tts_start text
      else if not (url == "")
      then v.play_start url
      else none in
    let hears = input == "speech" || input == "both" in
    if not e.answered then Exec.answer v e n.id else (
      record e {
        gathering = true;
        gather_node = n.id;
        gather_input = input;
        gather_digits = "";
        gather_num = atoi_default v (param n "num_digits" "0") (pos 0);
        gather_gen = suc e.gather_gen;
        gather_prompt_id = elim prompt_id [ none ↦ e.gather_prompt_id | some id ↦ id ];
        gather_stt = if hears && v.stt_start then true else e.gather_stt;
      },
      gathering timeout,
    )

-- The `switch` of dpWalk.
unfoldable pub visit : Env → NodeType → Walker → Exec.Exec → Node → ℕ → Visit
unfolding matches route_extension forward_call prompt start_gather wait_seconds edge_to param
    Exec.answer Exec.reject
visit v match walk_on e n step =
    walk_on e (edge_to v.graph n.id (if matches v n e then port_match else port_nomatch)) (suc step)
visit v ext walk_on e n step = route_extension v walk_on e n
visit v ivr walk_on e n step = some (record e { registered = false }, Outcome.ivr)
visit v answer walk_on e n step = elim e.answered [
  | false ↦ some (Exec.answer v e n.id)
  | true ↦ walk_on e (edge_to v.graph n.id port_next) (suc step)
]
visit v gather walk_on e n step = some (start_gather v e n)
visit v wait walk_on e n step = elim (ltb 0 (wait_seconds v n)) [
  | false ↦ walk_on e (edge_to v.graph n.id port_next) (suc step)
  | true ↦ some (e, waiting (wait_seconds v n) n.id)
]
visit v reject walk_on e n step = some (Exec.reject e (param n "reason" "declined"))
visit v forward walk_on e n step = forward_call v walk_on e n
visit v play walk_on e n step = prompt "url" v.play_start v walk_on e n
visit v tts walk_on e n step = prompt "text" v.tts_start v walk_on e n
visit v start walk_on e n step = some (Exec.reject e "declined")
visit v other walk_on e n step = some (Exec.reject e "declined")

-- dpWalk
unfoldable pub walk : Env → ℕ → Walker
unfolding visit node
walk v zero e id step = none
walk v (suc fuel) e id step = elim (ltb max_steps step) [
  | true ↦ some (Exec.reject e "declined")
  | false ↦ elim (node v.graph id) [
    | none ↦ some (Exec.reject e "declined")
    | some n ↦ visit v n.type (walk v fuel) e n step
  ]
]

-- startDialplan, for the state of a fresh call.
unfoldable pub start_dialplan : Env → ℕ → Exec.Exec → Visit
unfolding walk start_node edge_to
start_dialplan v fuel e = elim (start_node v.graph) [
  | none ↦ some (e, hung_up "declined")
  | some s ↦ walk v fuel (record e { registered = true }) (edge_to v.graph s.id port_out) 0
]

-- dpOnConnected
unfoldable pub on_connected : Env → ℕ → Exec.Exec → Option (Exec.Exec × Option Outcome)
unfolding walk
on_connected v fuel e =
    let up : Exec.Exec = record e { answered = true; resume_node = "" } in
    elim (e.resume_node == "") [
      | true ↦ some (up, none)
      | false ↦ elim (walk v fuel up e.resume_node 0) [
        | none ↦ none
        | some (e', o) ↦ some (e', some o)
      ]
    ]

-- dpOnPromptFinished, for a call that is registered.
unfoldable pub on_prompt_finished :
    Env → ℕ → Exec.Exec → String → Option (Exec.Exec × Option Outcome)
unfolding walk
on_prompt_finished v fuel e id =
    if e.gathering
    then some (if e.gather_prompt_id == id then record e { gather_prompt_id = "" } else e, none)
    else elim (e.pending_id == "" || not (e.pending_id == id)) [
      | true ↦ some (e, none)
      | false ↦ elim (walk v fuel (record e { pending_id = ""; next_node = "" }) e.next_node 0) [
        | none ↦ none
        | some (e', o) ↦ some (e', some o)
      ]
    ]
