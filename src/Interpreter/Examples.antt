-- ===== src/Interpreter/Examples.antt =====
-- The theorems of the interpreter at a concrete speaker.
use example_applications.Base.{
  none, lookup, insert, erase, ◌↔◌, ◌⊎◌, String, ◌≤◌, ◌≡◌, ◌≢◌, refl, inl, true, false, some, List,
  [], ◌∷◌, arith, eq_iff, length,
}
use example_applications.Base.Int.{negsuc}
use example_applications.Interpreter.Langs
use example_applications.Interpreter.Langs.Providers
use example_applications.Interpreter.Sessions
use example_applications.Interpreter.Sessions.Legs
use example_applications.Interpreter.Sessions.Limits
use example_applications.Interpreter.Turns.{
  Side, Staged, staged_at, Services, tts, caption, eager_end_of_turn, end_of_turn, finish_turn,
  stop_inflight, speak,
}
use example_applications.Interpreter.Turns.Hearing
use example_applications.Interpreter.Turns.Voices
use example_applications.Interpreter.Turns.Words

abbrev alice : Side
alice = record {
  staged = [];
  ready = [];
  pending = [];
  max_done = negsuc 0;
  warned_turn = 0;
  stt_provider = "deepgram_flux";
  has_listener = true;
  listener_leg = "leg-bob";
  inflight = "";
}

abbrev answers : Services
answers = record { ready = true; committed = true; translated = some "hallo"; tts_id = some "u1" }

abbrev second_answers : Services
second_answers = record {
  ready = false;
  committed = false;
  translated = some "welt";
  tts_id = some "u2";
}

abbrev two_turns : List Voices.Event
two_turns =
    Voices.turns 0 (eager_end_of_turn "hello") answers 5
    ∷ Voices.turns 0 (end_of_turn "hello") answers 6
    ∷ Voices.turns 1 (end_of_turn "world") second_answers 7
    ∷ []

some_u1 : answers.tts_id ≢ some ""
some_u1 = λ e. ground (arith, eq_iff "u1" "")

some_u2 : second_answers.tts_id ≢ some ""
some_u2 = λ e. ground (arith, eq_iff "u2" "")

one_voice_example : length (Voices.run (alice, []) two_turns).1 ≤ 1
one_voice_example = Voices.one_voice alice two_turns refl (some_u1, (some_u1, (some_u2, tt)))

overlapping_voices_example :
    (Hearing.hear_all [] (
        tts "leg-bob" "hallo" "u1"
        ∷ caption "hello" "hallo" true
        ∷ tts "leg-bob" "welt" "u2"
        ∷ caption "world" "welt" true
        ∷ [])
      ≡ "u2" ∷ "u1" ∷ [])
    × (◌≡◌ {A = String} "u2" "u2")
unfolding stop_inflight speak
overlapping_voices_example =
    Voices.overlapping_voices alice [] "hello" "world" "hallo" "welt" "u1" "u2" (inl refl)

-- The eager guess was revised before the turn ended.
abbrev revised : Side
revised = record alice {
  staged = (0, record { tts_id = "u0"; src = "hell"; text = "hölle"; at = 4 }) ∷ [];
  ready = ("u0", true) ∷ [];
}

finish_turn-said_example :
    ((st : Staged) × (staged_at 0 revised.staged ≡ some st)
      × Words.SaysStaged "leg-bob" "hello" answers st (finish_turn revised 0 "hello" answers).1)
    ⊎ Words.SaysLate "leg-bob" "hello" "hallo" "u1" (finish_turn revised 0 "hello" answers).1
finish_turn-said_example =
    Words.finish_turn-said "hello" "hallo" "u1" answers (ground (arith, eq_iff "hello" "")) refl
      refl revised 0 (ground (arith, eq_iff "leg-bob" ""))

abbrev nobody : Sessions.Part
nobody = record {
  id = "";
  name = "";
  slot = 0;
  lang = "";
  gender = "";
  leg_id = "";
  live = false;
  stt_on = false;
}

abbrev talk : Sessions.Session
talk = record {
  id = "s1";
  invite = "key";
  first = none;
  second = none;
  started_at = some 10;
  last_activity = some 40;
  empty_since = none;
  closed = false;
}

abbrev start : Sessions.World
start = record {
  sessions = λ k. talk;
  parts = λ k. nobody;
  by_id = ("s1", 0) ∷ [];
  by_leg = [];
  leg_ses = [];
}

abbrev meeting : List Legs.Call
meeting =
    Legs.binds 0 0 "leg-1" ∷ Legs.binds 0 1 "leg-2" ∷ Legs.unbinds 0 ∷ Legs.binds 0 1 "leg-3" ∷ []

for_leg_finds_example :
    (((Legs.run start meeting).parts 1).leg_id ≡ "leg-3")
    × (Sessions.for_leg (Legs.run start meeting) "leg-2" ≡ some 1
        → ◌≡◌ {A = String} "leg-2" "leg-3")
unfolding Legs.run Sessions.for_leg lookup insert erase
for_leg_finds_example =
    Legs.for_leg_finds start meeting "leg-3" "leg-2" 1 refl
      (
        ground (arith, eq_iff "leg-1" ""),
        (ground (arith, eq_iff "leg-2" ""), (tt, (ground (arith, eq_iff "leg-3" ""), tt))),
      )
      refl

overtaken_bind_misroutes_example :
    let w' =
      Sessions.bind_index
        (Sessions.unbind_leg (Sessions.bind_part start 1 "leg-2") 1).0
        0
        1
        "leg-2"
        "" in
    (Sessions.for_leg w' "leg-2" ≡ some 1)
    × ((w'.parts 1).leg_id ≡ "")
    × (Sessions.for_leg (Sessions.unbind_leg w' 1).0 "leg-2" ≡ some 1)
overtaken_bind_misroutes_example = Legs.overtaken_bind_misroutes start 0 1 "leg-2"

abbrev limits : Sessions.Config
limits = record { empty_timeout = 5; max_duration = 0; idle_timeout = 30 }

expiry_iff_example : (Sessions.expiry talk 70 limits ≡ "") ↔ (
    (talk.closed ≡ true)
    ⊎ (Limits.Within 70 5 talk.empty_since
        × Limits.Within 70 0 talk.started_at
        × Limits.Within 70 30 talk.last_activity))
expiry_iff_example = Limits.expiry_iff talk 70 limits

abbrev both_engines : Langs.Config
both_engines = record {
  stt_provider = "deepgram_flux";
  stt_fallback = "speechmatics";
  stt_keys = ("deepgram_flux", "key-1") ∷ ("speechmatics", "key-2") ∷ [];
  tts_voices = [];
}

-- Nobody transcribes Klingon.
settle_lang-Hears_example :
    (l : Langs.Language) × (p : String) × (Langs.lang_by_code (Langs.settle_lang both_engines "tlh")
      ≡ some l)
    × (Langs.provider_for_lang both_engines (Langs.settle_lang both_engines "tlh") ≡ (p, true))
    × Providers.Hears both_engines l p
unfolding Langs.lang_supported Langs.lang_by_code Langs.stt_code lookup
settle_lang-Hears_example = Providers.settle_lang-Hears both_engines "tlh" refl
