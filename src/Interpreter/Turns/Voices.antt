-- ===== src/Interpreter/Turns/Voices.antt =====
-- Whether the listener hears one voice at a time.
use example_applications.Base.{
  ℕ, ◌≤◌, String, ◌==◌, string_eq, nat_eq, ◌≡◌, ◌≢◌, All, refl, ◌∙◌, Bool, true, false, not, ◌||◌,
  Option, some, List, [], ◌∷◌, ◌++◌, arith, length, if◌then◌else◌, Bool-cases, inl, inr,
}
use example_applications.Interpreter.Turns.{
  uses_turn_events, reset_turn_warning, start_of_turn, update, eager_end_of_turn, turn_resumed,
  end_of_turn, Side, Effect, caption, stop_inflight, speak, translate_and_speak, Services,
  playback_ended, TurnEvent, heard, on_turn, on_text,
}
use example_applications.Interpreter.Turns.Hearing.{
  silence, hear_all, Voice, after_stop, translate_and_speak-Voice, IsTidy, Tidy, finish_turn-Tidy,
}
use example_applications.Interpreter.Turns.Quiet.{
  Quiet-Tidy, discard_staged-Quiet, check_stuck_turn-Quiet, preflight_turn-Quiet,
}

-- The events of one speaker: a turn boundary, a transcript, and the end or failure of an utterance.
pub data Event : Type 0 where
  turns : (index : ℕ) → TurnEvent → Services → (now : ℕ) → Event
  texts : String → (final : Bool) → Services → Event
  ends : (tts_id : String) → Event

abbrev AreNamed : Event → Type 0
AreNamed (turns i e v now) = v.tts_id ≢ some ""
AreNamed (texts text final v) = v.tts_id ≢ some ""
AreNamed (ends id) = Unit

-- One handler, run to its end, and what the listener hears then.
unfoldable pub step : Side × List String → Event → Side × List String
unfolding on_turn on_text playback_ended
step (s, on) (turns i e v now) = let (s', es) = on_turn s i e v now in (s', hear_all on es)
step (s, on) (texts text final v) = let (s', es) = on_text s text final v in (s', hear_all on es)
step (s, on) (ends id) = (playback_ended s id, silence id on)

unfoldable pub run : Side × List String → List Event → Side × List String
unfolding step
run w [] = w
run w (e ∷ es) = run (step w e) es

playback_ended-Tidy :
    (s : Side) (id : String) (on : List String)
    → IsTidy s on
    → IsTidy (playback_ended s id) (silence id on)
unfolding playback_ended
playback_ended-Tidy s id on t = elim (Bool-cases (s.inflight == id)) [
  | inl e ↦ rw e (record {
    voice = elim t.voice [
      | inl none_on ↦ inl (rw none_on refl)
      | inr (one, _, _) ↦ inl (rw one (rw e refl))
    ];
    named = t.named;
  })
  | inr e ↦ rw e (record {
    voice = elim t.voice [
      | inl none_on ↦ inl (rw none_on refl)
      | inr (one, some_id, leg) ↦ inr (rw one (rw e refl), some_id, leg)
    ];
    named = t.named;
  })
]

heard-Tidy :
    (s : Side) (i : ℕ) (e : TurnEvent) (v : Services) (now : ℕ) (on : List String)
    → IsTidy s on
    → v.tts_id ≢ some ""
    → Tidy on (heard s i e v now)
unfolding heard reset_turn_warning
heard-Tidy s i start_of_turn v now on t named = record { voice = t.voice; named = t.named }
heard-Tidy s i (update span) v now on t named =
    Quiet-Tidy s on _ (check_stuck_turn-Quiet s i span on) t
heard-Tidy s i (eager_end_of_turn text) v now on t named =
    Quiet-Tidy s on _ (preflight_turn-Quiet s i text v.translated v.tts_id now on named) t
heard-Tidy s i turn_resumed v now on t named = Quiet-Tidy s on _ (discard_staged-Quiet s i on) t
heard-Tidy s i (end_of_turn text) v now on t named =
    finish_turn-Tidy (record s { warned_turn = 0 }) i text v on
      (record { voice = t.voice; named = t.named }) named

translate_and_speak-staged :
    (s : Side) (text : String) (words id : Option String)
    → (translate_and_speak s text words id).0.staged ≡ s.staged
unfolding translate_and_speak stop_inflight speak
translate_and_speak-staged s text words id = ground arith

if-Tidy :
    (on : List String) (b : Bool) (x y : Side × List Effect)
    → Tidy on x
    → Tidy on y
    → Tidy on (if b then x else y)
if-Tidy on true x y f g = f
if-Tidy on false x y f g = g

step-Tidy :
    (s : Side) (on : List String) (e : Event)
    → IsTidy s on
    → AreNamed e
    → IsTidy (step (s, on) e).0 (step (s, on) e).1
unfolding step on_turn on_text
step-Tidy s on (turns i e v now) t named =
    if-Tidy on s.has_listener (heard s i e v now) (s, []) (heard-Tidy s i e v now on t named) t
step-Tidy s on (texts text final v) t named =
    let (s', es) = translate_and_speak s text v.translated v.tts_id in
    let shown = caption text "" final in
    if-Tidy on (text == "") (s, []) _ t
      (if-Tidy on (uses_turn_events s || (not final || not s.has_listener)) (s, shown ∷ [])
        (s', shown ∷ es) t
        (record {
          voice = translate_and_speak-Voice s text v.translated v.tts_id on t.voice named;
          named = rw (translate_and_speak-staged s text v.translated v.tts_id) t.named;
        }))
step-Tidy s on (ends id) t named = playback_ended-Tidy s id on t

run-Tidy :
    (s : Side) (on : List String) (es : List Event)
    → IsTidy s on
    → All AreNamed es
    → IsTidy (run (s, on) es).0 (run (s, on) es).1
unfolding run
run-Tidy s on [] t named = t
run-Tidy s on (e ∷ es) t (here, later) =
    run-Tidy (step (s, on) e).0 (step (s, on) e).1 es (step-Tidy s on e t here) later

-- One voice at a time. Where the handlers of a speaker's events run one after another, from a state
-- in which nothing plays and nothing is staged, the listener never hears more than one utterance at
-- once: no translation overlaps another. The ids that the media server gives are not empty, and it
-- stops what it is asked to stop.
pub one_voice :
    (s : Side) (es : List Event) → s.staged ≡ [] → All AreNamed es → length (run (s, []) es).1 ≤ 1
one_voice s es fresh named =
    let t = run-Tidy s [] es (record { voice = inl refl; named = rw fresh tt }) named in
    elim t.voice [ inl e ↦ rw e (omega arith) | inr (e, _, _) ↦ rw e (omega arith) ]

-- Handlers that overlap break it: if two turns have ended and both handlers silence the listener
-- before either speaks, then both translations are heard at once, while the books name one.
pub overlapping_voices :
    (s : Side) (on : List String) (t1 t2 w1 w2 a b : String)
    → Voice s on
    → let (s1, es1) = stop_inflight s in
      let (s2, es2) = stop_inflight s1 in
      let (s3, es3) = speak s2 t1 w1 (some a) in
      let (s4, es4) = speak s3 t2 w2 (some b) in
      (hear_all on (es1 ++ (es2 ++ (es3 ++ es4))) ≡ b ∷ a ∷ []) × (s4.inflight ≡ b)
unfolding speak
overlapping_voices s on t1 t2 w1 w2 a b one =
    (after_stop s on _ one ∙ unfold stop_inflight in refl, refl)
