-- ===== src/Pbx/Dialplan/Gather.antt =====
-- cmd/pbx/dialplan_gather.go: the events of an open menu. A handler returns the call, what it asks of
-- the media server, what the walk that it starts ends in, and whether it took the event; `none` is a
-- walk that has not ended on the fuel.
use Prim.Native.String.{len}
use example_applications.Base.{
  ℕ, String, concat, ◌==◌, string_eq, nat_eq, Bool, true, false, not, ◌&&◌, ◌||◌, Option, none,
  some, List, [], ◌∷◌, ◌++◌, if◌then◌else◌,
}
use example_applications.Base.Int.{pos, ltb_ℤ}
use example_applications.Pbx.Dialplan.Graph.{Graph, Edge, port_default, edge_to}
use example_applications.Pbx.Dialplan.Exec
use example_applications.Pbx.Dialplan.Exec.{Env, Outcome}
use example_applications.Pbx.Dialplan.Walk.{walk, on_connected, on_prompt_finished}
use example_applications.Pbx.Dialplan.Speech.{Texts, match_speech}
pub mod Walks
pub mod Entries
pub mod Heard

pub data Request : Type 0 where
  stop_prompt : (id : String) → Request
  stop_stt : Request

abbrev pub Handled : Type 0
Handled = Option (Exec.Exec × List Request × Option Outcome × Bool)

options_in : String → List Edge → List String
options_in id [] = []
options_in id (e ∷ es) =
    let rest = options_in id es in
    if e.from == id && not (e.port == port_default) then e.port ∷ rest else rest

-- dpGatherOptions
unfoldable pub gather_options : Graph → String → List String
unfolding options_in
gather_options g id = options_in id g.edges

option_in : String → String → List Edge → Bool
option_in id value [] = false
option_in id value (e ∷ es) = e.from == id && e.port == value || option_in id value es

-- dpGatherHasOption
unfoldable pub gather_has_option : Graph → String → String → Bool
unfolding option_in
gather_has_option g id value = option_in id value g.edges

abbrev pub stop_if_playing : String → List Request
stop_if_playing id = if id == "" then [] else stop_prompt id ∷ []

-- The output port of the entered value, or the default one.
unfoldable pub target_of : Graph → String → String → String
unfolding edge_to
target_of g id value =
    let target = edge_to g id value in if target == "" then edge_to g id port_default else target

abbrev pub closed : Exec.Exec → Exec.Exec
closed e = record e {
  gathering = false;
  gather_node = "";
  gather_digits = "";
  gather_prompt_id = "";
  gather_stt = false;
}

-- The end of dpGatherSubmit, for a call whose menu is closed.
unfoldable pub leave_menu : Env → ℕ → Exec.Exec → String → List Request → Handled
unfolding walk Exec.reject
leave_menu v fuel e target asked = elim (target == "") [
  | true ↦ let (e', o) = Exec.reject e "declined" in some (e', asked, some o, true)
  | false ↦ elim (walk v fuel e target 0) [
    | none ↦ none
    | some (e', o) ↦ some (e', asked, some o, true)
  ]
]

-- dpGatherSubmit, after the requests that its caller has made.
unfoldable pub gather_submit : Env → ℕ → Exec.Exec → String → List Request → Handled
unfolding leave_menu target_of
gather_submit v fuel e value asked = elim e.gathering [
  | false ↦ some (e, asked, none, true)
  | true ↦ leave_menu v fuel (closed e) (target_of v.graph e.gather_node value) (
      asked ++ (stop_if_playing e.gather_prompt_id ++ (if e.gather_stt then stop_stt ∷ [] else [])))
]

-- What a key does to the entry, and the value that it submits.
unfoldable pub enter : Graph → Exec.Exec → String → Exec.Exec × Option String
unfolding gather_has_option
enter g e digit =
    let entry = concat e.gather_digits digit in
    let full = ltb_ℤ (pos 0) e.gather_num && not (ltb_ℤ (pos (len entry)) e.gather_num) in
    if digit == "#"
    then (record e { gather_prompt_id = "" }, some e.gather_digits)
    else if digit == "*"
    then (record e { gather_prompt_id = ""; gather_digits = "" }, none)
    else (
      record e { gather_prompt_id = ""; gather_digits = entry },
      if gather_has_option g e.gather_node entry || full then some entry else none,
    )

-- dpOnDTMF
unfoldable pub on_dtmf : Env → ℕ → Exec.Exec → String → Handled
unfolding enter gather_submit
on_dtmf v fuel e digit =
    let stop = stop_if_playing e.gather_prompt_id in
    let (pressed, value) = enter v.graph e digit in
    elim (e.registered && e.gathering) [
      | false ↦ some (e, [], none, false)
      | true ↦ elim (e.gather_input == "speech") [
        | true ↦ some (e, [], none, true)
        | false ↦ elim value [
          | none ↦ some (pressed, stop, none, true)
          | some entered ↦ gather_submit v fuel pressed entered stop
        ]
      ]
    ]

-- The first half of the timer's function: the test, under the lock.
unfoldable pub expired : Exec.Exec → ℕ → Option String
expired e gen = if e.gathering && e.gather_gen == gen then some e.gather_digits else none

-- The timer's function, for the menu of the generation.
unfoldable pub on_timeout : Env → ℕ → Exec.Exec → ℕ → Handled
unfolding expired gather_submit
on_timeout v fuel e gen = elim (expired e gen) [
  | none ↦ some (e, [], none, true)
  | some digits ↦ gather_submit v fuel e digits []
]

-- dpOnSTT
unfoldable pub on_stt : Env → Texts → ℕ → Exec.Exec → String → Bool → Handled
unfolding gather_options gather_submit match_speech
on_stt v x fuel e text is_final =
    let hears = e.gather_input == "speech" || e.gather_input == "both" in
    elim (e.registered && (e.gathering && hears)) [
      | false ↦ some (e, [], none, false)
      | true ↦ elim (not is_final || x.trim_space text == "") [
        | true ↦ some (e, [], none, true)
        | false ↦ elim (match_speech x text (gather_options v.graph e.gather_node)) [
          | none ↦ some (e, [], none, true)
          | some value ↦ gather_submit v fuel e value []
        ]
      ]
    ]

-- The events of a call on the dial plan.
pub data Event : Type 0 where
  presses : (digit : String) → Event
  times_out : (gen : ℕ) → Event
  says : Texts → (text : String) (is_final : Bool) → Event
  connects : Event
  prompt_ends : (id : String) → Event

abbrev pub after_walk : Option (Exec.Exec × Option Outcome) → Option Exec.Exec
after_walk none = none
after_walk (some (e, o)) = some e

abbrev pub after : Handled → Option Exec.Exec
after none = none
after (some (e, asked, o, took)) = some e

unfoldable pub step : Env → ℕ → Exec.Exec → Event → Option Exec.Exec
unfolding on_dtmf on_timeout on_stt on_connected on_prompt_finished
step v fuel e (presses digit) = after (on_dtmf v fuel e digit)
step v fuel e (times_out gen) = after (on_timeout v fuel e gen)
step v fuel e (says x text is_final) = after (on_stt v x fuel e text is_final)
step v fuel e connects = after_walk (on_connected v fuel e)
step v fuel e (prompt_ends id) = after_walk (on_prompt_finished v fuel e id)

-- The events of a call one after another, as long as its walks end.
unfoldable pub run : Env → ℕ → Exec.Exec → List Event → Option Exec.Exec
unfolding step
run v fuel e [] = some e
run v fuel e (x ∷ xs) = elim (step v fuel e x) [ none ↦ none | some e' ↦ run v fuel e' xs ]
