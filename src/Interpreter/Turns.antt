-- ===== src/Interpreter/Turns.antt =====
-- cmd/interpreter/interpret.go, and the part of session.go that it keeps its books in: the words of one
-- speaker on their way to the one listener. A speaker's turn is translated and synthesized before it
-- ends, and played when it ends. Turn indexes are natural numbers. The answers of the translator and
-- of the media server are arguments (`none` and `false` are errors), as is what waiting for a channel
-- comes to. Logging is left out.
pub mod Hearing
pub mod Quiet
pub mod Voices
pub mod Words
use example_applications.Base.{
  ℕ, ◌+◌, ◌-◌, String, ◌==◌, string_eq, nat_eq, Bool, true, false, not, ◌&&◌, ◌||◌, Option, none,
  some, List, [], ◌∷◌, ◌++◌, Table, lookup, insert, erase, length, ltb, leb, if◌then◌else◌,
}
use example_applications.Base.Int.{ℤ, pos, negsuc, ltb_ℤ}

-- `staged`, without the flag that its synthesis is finished, which the table `ready` keeps.
pub record Staged : Type 0 where
  pub tts_id : String
  pub src : String
  pub text : String
  pub at : ℕ

-- What interpret.go knows of a speaker and of their listener. `ready` is stagedByID.
pub record Side : Type 0 where
  pub staged : List (ℕ × Staged)
  pub ready : Table Bool
  pub pending : List ℕ
  pub max_done : ℤ
  pub warned_turn : ℕ
  pub stt_provider : String
  pub has_listener : Bool
  pub listener_leg : String
  pub inflight : String

-- The requests to the media server, and what is pushed to the browsers.
pub data Effect : Type 0 where
  preflight : (leg text tts_id : String) → Effect
  tts : (leg text tts_id : String) → Effect
  commit : (leg tts_id : String) (accepted : Bool) → Effect
  discard play_stop : (leg tts_id : String) → Effect
  caption : (original translated : String) (final : Bool) → Effect
  speaking : Bool → Effect
  warning : String → Effect

abbrev pub stuck_turn_ms : ℕ
stuck_turn_ms = 60000

abbrev pub staged_max : ℕ
staged_max = 3

-- Maps from turn indexes.
unfoldable pub staged_at : ℕ → List (ℕ × Staged) → Option Staged
staged_at i [] = none
staged_at i ((j, st) ∷ m) = if j == i then some st else staged_at i m

unfoldable pub without : ℕ → List (ℕ × Staged) → List (ℕ × Staged)
without i [] = []
without i ((j, st) ∷ m) = let rest = without i m in if j == i then rest else (j, st) ∷ rest

-- putStaged
unfoldable pub put_staged : Side → ℕ → Staged → Side
unfolding without
put_staged s i st = record s {
  staged = (i, st) ∷ without i s.staged;
  ready = insert st.tts_id false s.ready;
}

-- takeStaged
unfoldable pub take_staged : Side → ℕ → Side × Option Staged
unfolding staged_at without
take_staged s i = (record s { staged = without i s.staged }, staged_at i s.staged)

-- releaseStaged
unfoldable pub release_staged : Side → Staged → Side
release_staged s st = record s { ready = erase st.tts_id s.ready }

-- dropAllStaged
unfoldable pub forget_all : List (ℕ × Staged) → Table Bool → Table Bool
forget_all [] r = r
forget_all ((i, st) ∷ m) r = forget_all m (erase st.tts_id r)

unfoldable pub drop_all_staged : Side → Side × List (ℕ × Staged)
unfolding forget_all
drop_all_staged s = (record s { staged = []; ready = forget_all s.staged s.ready }, s.staged)

-- markStagedReady
unfoldable pub mark_staged_ready : Side → String → Side × Bool
mark_staged_ready s id = elim (lookup id s.ready) [
  | none ↦ (s, false)
  | some done ↦ if done then (s, false) else (record s { ready = insert id true s.ready }, true)
]

-- warnTurnOnce
unfoldable pub warn_turn_once : Side → ℕ → Side × Bool
warn_turn_once s i =
    if s.warned_turn == (i + 1) then (s, false) else (record s { warned_turn = i + 1 }, true)

-- resetTurnWarning
unfoldable pub reset_turn_warning : Side → Side
reset_turn_warning s = record s { warned_turn = 0 }

-- usesTurnEvents
abbrev pub uses_turn_events : Side → Bool
uses_turn_events s = s.stt_provider == "deepgram_flux"

-- turnIsDone
abbrev pub turn_is_done : Side → ℕ → Bool
turn_is_done s i = not (ltb_ℤ s.max_done (pos i))

-- discardID
unfoldable pub discard_id : String → String → List Effect
discard_id leg id = if leg == "" || id == "" then [] else discard leg id ∷ []

-- stopInflight
unfoldable pub stop_inflight : Side → Side × List Effect
stop_inflight s = (
  record s { inflight = "" },
  if s.inflight == "" || s.listener_leg == "" then [] else play_stop s.listener_leg s.inflight ∷ [],
)

-- evictOldestStaged: `oldest i m` is the least of `i` and the indexes of `m`.
abbrev pub oldest : ℕ → List (ℕ × Staged) → ℕ
oldest i [] = i
oldest i ((j, st) ∷ m) = oldest (if ltb j i then j else i) m

unfoldable pub evict : Side → ℕ → Side × List Effect
unfolding staged_at without release_staged discard_id
evict s i =
    let rest : Side = record s { staged = without i s.staged } in
    elim (staged_at i s.staged) [
      | none ↦ (rest, [])
      | some st ↦ (release_staged rest st, discard_id s.listener_leg st.tts_id)
    ]

unfoldable pub evict_from : Side → List (ℕ × Staged) → Side × List Effect
unfolding evict
evict_from s [] = (s, [])
evict_from s ((i, st) ∷ m) =
    if ltb (length ((i, st) ∷ m)) staged_max then (s, []) else evict s (oldest i m)

unfoldable pub evict_oldest_staged : Side → Side × List Effect
unfolding evict_from
evict_oldest_staged s = evict_from s s.staged

-- discardStaged
unfoldable pub discard_staged : Side → ℕ → Side × List Effect
unfolding take_staged release_staged discard_id
discard_staged s i =
    let (s', taken) = take_staged s i in
    elim taken [
      | none ↦ (s', [])
      | some st ↦
          (release_staged s' st, if s.has_listener then discard_id s.listener_leg st.tts_id else [])
    ]

-- discardAllStaged
unfoldable pub discard_ids : String → List (ℕ × Staged) → List Effect
unfolding discard_id
discard_ids leg [] = []
discard_ids leg ((i, st) ∷ m) = discard_id leg st.tts_id ++ discard_ids leg m

unfoldable pub discard_all_staged : Side → Side × List Effect
unfolding drop_all_staged discard_ids
discard_all_staged s =
    let (s', all) = drop_all_staged s in
    (s', if s.has_listener then discard_ids s.listener_leg all else [])

-- One speaker's part of a tick of sweepStaged.
unfoldable pub sweep : Side → ℕ → List (ℕ × Staged) → Side × List Effect
unfolding without discard_id
sweep s cutoff [] = (s, [])
sweep s cutoff ((i, st) ∷ m) =
    let gone : Side = record s { staged = without i s.staged; ready = erase st.tts_id s.ready } in
    let expired = ltb st.at cutoff in
    let (s', es) = sweep (if expired then gone else s) cutoff m in
    (s', if expired then discard_id s.listener_leg st.tts_id ++ es else es)

unfoldable pub sweep_staged : Side → ℕ → Side × List Effect
unfolding sweep
sweep_staged s cutoff = if s.has_listener then sweep s cutoff s.staged else (s, [])

-- The parts of `preflight`. It publishes its barrier (`none` where it does nothing), translates, and
-- stages the audio unless the turn has ended in the meantime.
abbrev pub mem : ℕ → List ℕ → Bool
mem i [] = false
mem i (j ∷ js) = j == i || mem i js

unfoldable pub drop_pending : ℕ → List ℕ → List ℕ
drop_pending i [] = []
drop_pending i (j ∷ js) = let rest = drop_pending i js in if j == i then rest else j ∷ rest

unfoldable pub preflight_begin : Side → ℕ → String → Option Side
preflight_begin s i text =
    if text == "" || (s.listener_leg == "" || mem i s.pending)
    then none
    else some (record s { pending = i ∷ s.pending })

-- After the translation: room is made for the audio, unless the turn has ended.
unfoldable pub preflight_ask : Side → ℕ → Side × List Effect
unfolding evict_oldest_staged
preflight_ask s i = if turn_is_done s i then (s, []) else evict_oldest_staged s

-- After the synthesis was asked for: the audio `id` is staged, or dropped if the turn has ended.
unfoldable pub preflight_store : Side → ℕ → Staged → Side × List Effect
unfolding put_staged discard_id
preflight_store s i st =
    if turn_is_done s i
    then (s, discard_id s.listener_leg st.tts_id)
    else (put_staged s i st, caption st.src st.text false ∷ [])

unfoldable pub preflight_end :
    Side → ℕ → String → Option String → Option String → ℕ → Side × List Effect
unfolding preflight_ask preflight_store
preflight_end s i text translated id now = elim translated [
  | none ↦ (s, [])
  | some words ↦
      let (s', es) = preflight_ask s i in
      if turn_is_done s i then (s', es) else elim id [
        | none ↦ (s', es)
        | some n ↦
            let st : Staged = record { tts_id = n; src = text; text = words; at = now } in
            let (s'', es') = preflight_store s' i st in
            (s'', es ++ preflight s.listener_leg words n ∷ es')
      ]
]

unfoldable pub preflight_turn :
    Side → ℕ → String → Option String → Option String → ℕ → Side × List Effect
unfolding preflight_begin preflight_end drop_pending
preflight_turn s i text translated id now = elim (preflight_begin s i text) [
  | none ↦ (s, [])
  | some s' ↦
      let (s'', es) = preflight_end s' i text translated id now in
      (record s'' { pending = drop_pending i s''.pending }, es)
]

-- commitStaged, with what waitReady comes to and the answer to LegTTSCommit.
unfoldable pub commit_staged : Side → Staged → Bool → Bool → Side × List Effect × Bool
unfolding discard_id stop_inflight
commit_staged s st ready committed =
    let (s', stopped) = stop_inflight s in
    let asked : List Effect = stopped ++ commit s.listener_leg st.tts_id committed ∷ [] in
    if not ready
    then (s, discard_id s.listener_leg st.tts_id, false)
    else if committed
    then (record s' { inflight = st.tts_id }, asked ++ caption st.src st.text true ∷ [], true)
    else (s', asked, false)

-- The rest of translateAndSpeak after the listener's leg has fallen silent.
unfoldable pub speak : Side → String → String → Option String → Side × List Effect
speak s text words id = elim id [
  | none ↦ (s, [])
  | some n ↦ (record s { inflight = n }, tts s.listener_leg words n ∷ caption text words true ∷ [])
]

-- translateAndSpeak
unfoldable pub translate_and_speak :
    Side → String → Option String → Option String → Side × List Effect
unfolding stop_inflight speak
translate_and_speak s text translated id = elim translated [
  | none ↦ (s, warning "translation failed" ∷ [])
  | some words ↦
      if s.listener_leg == ""
      then (s, [])
      else (let (s', stopped) = stop_inflight s in
          let (s'', said) = speak s' text words id in (s'', stopped ++ said))
]

-- The answers that a turn's end may need.
pub record Services : Type 0 where
  pub ready : Bool
  pub committed : Bool
  pub translated : Option String
  pub tts_id : Option String

-- The end of finishTurn: the final text is translated and spoken, if there is any.
unfoldable pub say_late : Side → List Effect → String → Services → Side × List Effect
unfolding translate_and_speak
say_late s es final v =
    let (s', es') = translate_and_speak s final v.translated v.tts_id in
    if final == "" then (s, es) else (s', es ++ es')

-- The part of finishTurn for audio that was staged: it is played if it is of the final words.
unfoldable pub say_staged : Side → Staged → String → Services → Side × List Effect
unfolding commit_staged say_late discard_id
say_staged s st final v =
    let (s', es, done) = commit_staged s st v.ready v.committed in
    if s.listener_leg == ""
    then (s, [])
    else if st.src == final
    then (if done then (s', es) else say_late s' es final v)
    else say_late s (discard_id s.listener_leg st.tts_id) final v

-- finishTurn, after its wait for a translation that is still pending.
unfoldable pub finish_turn : Side → ℕ → String → Services → Side × List Effect
unfolding take_staged release_staged say_staged say_late
finish_turn s i final v =
    let s0 : Side = record s {
      max_done = if ltb_ℤ s.max_done (pos i) then pos i else s.max_done;
    } in
    let (s1, taken) = take_staged s0 i in
    elim taken [
      | none ↦ if s.listener_leg == "" then (s1, []) else say_late s1 [] final v
      | some st ↦ let (s2, es) = say_staged s1 st final v in (release_staged s2 st, es)
    ]

-- The books of onFinished and onTTSError.
unfoldable pub playback_ended : Side → String → Side
playback_ended s id = if s.inflight == id then record s { inflight = "" } else s

-- checkStuckTurn
unfoldable pub check_stuck_turn : Side → ℕ → ℕ → Side × List Effect
unfolding warn_turn_once
check_stuck_turn s i span =
    let (s', first) = warn_turn_once s i in
    if ltb span stuck_turn_ms
    then (s, [])
    else if first
    then (s', warning "your microphone has been picking up sound continuously" ∷ [])
    else (s, [])

pub data TurnEvent : Type 0 where
  start_of_turn : TurnEvent
  update : (span : ℕ) → TurnEvent
  eager_end_of_turn : String → TurnEvent
  turn_resumed : TurnEvent
  end_of_turn : String → TurnEvent

-- onTurn, with text from which white space is trimmed, and the cases of its `switch`.
unfoldable pub heard : Side → ℕ → TurnEvent → Services → ℕ → Side × List Effect
unfolding check_stuck_turn preflight_turn discard_staged finish_turn reset_turn_warning
heard s i start_of_turn v now = (reset_turn_warning s, speaking true ∷ [])
heard s i (update span) v now = check_stuck_turn s i span
heard s i (eager_end_of_turn text) v now = preflight_turn s i text v.translated v.tts_id now
heard s i turn_resumed v now = discard_staged s i
heard s i (end_of_turn text) v now =
    let (s', es) = finish_turn (reset_turn_warning s) i text v in (s', speaking false ∷ es)

unfoldable pub on_turn : Side → ℕ → TurnEvent → Services → ℕ → Side × List Effect
unfolding heard
on_turn s i e v now = if s.has_listener then heard s i e v now else (s, [])

-- onText, with text from which white space is trimmed.
unfoldable pub on_text : Side → String → Bool → Services → Side × List Effect
unfolding translate_and_speak
on_text s text final v =
    let shown = caption text "" final in
    let (s', es) = translate_and_speak s text v.translated v.tts_id in
    if text == ""
    then (s, [])
    else if uses_turn_events s || (not final || not s.has_listener)
    then (s, shown ∷ [])
    else (s', shown ∷ es)
