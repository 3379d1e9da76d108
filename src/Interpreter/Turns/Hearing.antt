-- ===== src/Interpreter/Turns/Hearing.antt =====
-- What the listener hears of each handler that can play something.
use example_applications.Base.{
  ℕ, String, ◌==◌, string_eq, nat_eq, ◌≡◌, ◌≢◌, All, ◌⊎◌, refl, ◌∙◌, ap, Bool, true, false, Option,
  none, some, List, [], ◌∷◌, ◌++◌, arith, if◌then◌else◌, Bool-cases, Option-cases, inl, inr, eq_iff,
}
use example_applications.Base.Int.{pos, ltb_ℤ}
use example_applications.Interpreter.Turns.{
  without, staged_at, take_staged, release_staged, say_late, say_staged, Staged, Side, Effect, tts,
  commit, play_stop, caption, discard_id, stop_inflight, commit_staged, speak, translate_and_speak,
  Services, finish_turn,
}

-- What a listener hears, by the documented behaviour of the media server: utterances that are played
-- on one leg are mixed, and each is heard until it ends or is stopped. A LegPlayStop that fails, which
-- the program only logs, is not considered: a request to stop silences.
abbrev pub silence : String → List String → List String
silence id [] = []
silence id (x ∷ xs) = let rest = silence id xs in if x == id then rest else x ∷ rest

abbrev pub hear : List String → Effect → List String
hear on (tts leg text id) = id ∷ on
hear on (commit leg id true) = id ∷ on
hear on (play_stop leg id) = silence id on
hear on _ = on

abbrev pub hear_all : List String → List Effect → List String
hear_all on [] = on
hear_all on (e ∷ es) = hear_all (hear on e) es

pub hear_all-append :
    (on : List String) (xs ys : List Effect) → hear_all on (xs ++ ys) ≡ hear_all (hear_all on xs) ys
hear_all-append on [] ys = refl
hear_all-append on (x ∷ xs) ys = hear_all-append (hear on x) xs ys

-- The listener hears nothing, or the one utterance that is on the books.
abbrev pub Voice : Side → List String → Type 0
Voice s on = (on ≡ []) ⊎ ((on ≡ s.inflight ∷ []) × (s.inflight ≢ "") × (s.listener_leg ≢ ""))

abbrev pub IsNamed : Staged → Type 0
IsNamed st = st.tts_id ≢ ""

pub discard_id_silent : (on : List String) (leg id : String) → hear_all on (discard_id leg id) ≡ on
unfolding discard_id
discard_id_silent on leg id = ground arith

stop_silences : (s : Side) (on : List String) → Voice s on → hear_all on (stop_inflight s).1 ≡ []
unfolding stop_inflight
stop_silences s on (inl e) = rw e (ground arith)
stop_silences s on (inr (e, some_id, leg)) =
    rw e
      (ground (arith, eq_iff s.inflight "", eq_iff s.listener_leg "", eq_iff s.inflight s.inflight))

pub after_stop :
    (s : Side) (on : List String) (es : List Effect)
    → Voice s on
    → hear_all on ((stop_inflight s).1 ++ es) ≡ hear_all [] es
after_stop s on es one =
    hear_all-append on (stop_inflight s).1 es ∙ ap (λ l. hear_all l es) (stop_silences s on one)

commit_staged-Voice :
    (s : Side) (st : Staged) (ready ok : Bool) (on : List String)
    → Voice s on
    → IsNamed st
    → s.listener_leg ≢ ""
    → Voice (commit_staged s st ready ok).0 (hear_all on (commit_staged s st ready ok).1)
unfolding commit_staged
commit_staged-Voice s st false ok on one named leg =
    rw (discard_id_silent on s.listener_leg st.tts_id) one
commit_staged-Voice s st true true on one named leg =
    let asked : List Effect = commit s.listener_leg st.tts_id true ∷ [] in
    let shown : List Effect = caption st.src st.text true ∷ [] in
    inr (
      hear_all-append on ((stop_inflight s).1 ++ asked) shown
          ∙ ap (λ l. hear_all l shown) (after_stop s on asked one),
      named,
      leg,
    )
commit_staged-Voice s st true false on one named leg = inl (after_stop s on _ one)

speak-Voice :
    (s : Side) (text words : String) (id : Option String) (on : List String)
    → Voice s on
    → id ≢ some ""
    → s.listener_leg ≢ ""
    → Voice
        (speak (stop_inflight s).0 text words id).0
        (hear_all on ((stop_inflight s).1 ++ (speak (stop_inflight s).0 text words id).1))
unfolding speak
speak-Voice s text words none on one named leg = inl (after_stop s on [] one)
speak-Voice s text words (some n) on one named leg =
    inr (after_stop s on _ one, λ e. named (ap some e), unfold stop_inflight in leg)

translate_speaks :
    (s : Side) (text words : String) (id : Option String)
    → (s.listener_leg == "") ≡ false
    → translate_and_speak s text (some words) id ≡ (
      (speak (stop_inflight s).0 text words id).0,
      (stop_inflight s).1 ++ (speak (stop_inflight s).0 text words id).1,
    )
unfolding translate_and_speak
translate_speaks s text words id leg = rw leg refl

pub translate_and_speak-Voice :
    (s : Side) (text : String) (words id : Option String) (on : List String)
    → Voice s on
    → id ≢ some ""
    → Voice
        (translate_and_speak s text words id).0
        (hear_all on (translate_and_speak s text words id).1)
unfolding translate_and_speak
translate_and_speak-Voice s text none id on one named = one
translate_and_speak-Voice s text (some w) id on one named =
    elim (Bool-cases (s.listener_leg == "")) [
      | inl e ↦ rw e one
      | inr e ↦
          rw (translate_speaks s text w id e)
            (speak-Voice s text w id on one named (ground (arith, eq_iff s.listener_leg "")))
    ]

say_late-Voice :
    (s : Side) (es : List Effect) (final : String) (v : Services) (on : List String)
    → Voice s (hear_all on es)
    → v.tts_id ≢ some ""
    → Voice (say_late s es final v).0 (hear_all on (say_late s es final v).1)
unfolding say_late
say_late-Voice s es final v on one named = elim (Bool-cases (final == "")) [
  | inl e ↦ rw e one
  | inr e ↦
      let out = (translate_and_speak s final v.translated v.tts_id).1 in
      rw (e, hear_all-append on es out)
        (translate_and_speak-Voice s final v.translated v.tts_id (hear_all on es) one named)
]

-- The voice after a handler, and through its branches.
abbrev Sounds : List String → Side × List Effect → Type 0
Sounds on (s, es) = Voice s (hear_all on es)

if-Sounds :
    (on : List String) (b : Bool) (x y : Side × List Effect)
    → (b ≡ true → Sounds on x)
    → (b ≡ false → Sounds on y)
    → Sounds on (if b then x else y)
if-Sounds on true x y f g = f refl
if-Sounds on false x y f g = g refl

say_staged-Sounds :
    (s : Side) (st : Staged) (final : String) (v : Services) (on : List String)
    → Voice s on
    → IsNamed st
    → v.tts_id ≢ some ""
    → Sounds on (say_staged s st final v)
unfolding say_staged
say_staged-Sounds s st final v on one named some_id =
    let (s', es, done) = commit_staged s st v.ready v.committed in
    let dropped = discard_id s.listener_leg st.tts_id in
    if-Sounds on (s.listener_leg == "") (s, []) _ (λ _. one)
      (λ no_leg.
        let leg : s.listener_leg ≢ "" = ground (arith, eq_iff s.listener_leg "") in
        let now = commit_staged-Voice s st v.ready v.committed on one named leg in
        if-Sounds on (st.src == final) (if done then (s', es) else say_late s' es final v)
          (say_late s dropped final v)
          (λ _.
            if-Sounds on done (s', es) (say_late s' es final v) (λ _. now)
              (λ _. say_late-Voice s' es final v on now some_id))
          (λ _.
            say_late-Voice s dropped final v on
              (rw (discard_id_silent on s.listener_leg st.tts_id) one) some_id))

-- All that is staged has an id.
abbrev pub AllNamed : List (ℕ × Staged) → Type 0
AllNamed = All (λ (p : ℕ × Staged). IsNamed p.1)

pub without-AllNamed : (i : ℕ) (m : List (ℕ × Staged)) → AllNamed m → AllNamed (without i m)
unfolding without
without-AllNamed i [] h = tt
without-AllNamed i ((j, st) ∷ m) (here, later) =
    let rest = without-AllNamed i m later in
    elim (Bool-cases (j == i)) [ inl e ↦ rw e rest | inr e ↦ rw e (here, rest) ]

staged_at-IsNamed :
    (i : ℕ) (m : List (ℕ × Staged)) (st : Staged)
    → AllNamed m
    → staged_at i m ≡ some st
    → IsNamed st
unfolding staged_at
staged_at-IsNamed i [] st h e = cc
staged_at-IsNamed i ((j, x) ∷ m) st (here, later) e =
    ground (arith, here, staged_at-IsNamed i m st later)

-- One voice, and the books that keep it.
pub record IsTidy (s : Side) (on : List String) : Type 0 where
  pub voice : Voice s on
  pub named : AllNamed s.staged

abbrev pub Tidy : List String → Side × List Effect → Type 0
Tidy on (s, es) = IsTidy s (hear_all on es)

say_late-staged :
    (s : Side) (es : List Effect) (final : String) (v : Services)
    → (say_late s es final v).0.staged ≡ s.staged
unfolding say_late translate_and_speak stop_inflight speak
say_late-staged s es final v = ground arith

commit_staged-staged :
    (s : Side) (st : Staged) (ready ok : Bool) → (commit_staged s st ready ok).0.staged ≡ s.staged
unfolding commit_staged stop_inflight
commit_staged-staged s st ready ok = ground arith

say_staged-staged :
    (s : Side) (st : Staged) (final : String) (v : Services)
    → (say_staged s st final v).0.staged ≡ s.staged
unfolding say_staged
say_staged-staged s st final v =
    let said = commit_staged s st v.ready v.committed in
    ground (
      arith,
      commit_staged-staged s st v.ready v.committed,
      say_late-staged said.0 said.1 final v,
      say_late-staged s (discard_id s.listener_leg st.tts_id) final v,
    )

-- The books when the turn `i` has ended, and what was staged for it is taken.
abbrev pub ended : Side → ℕ → Side
ended s i = record s {
  max_done = if ltb_ℤ s.max_done (pos i) then pos i else s.max_done;
  staged = without i s.staged;
}

finish_turn-staged :
    (s : Side) (i : ℕ) (final : String) (v : Services)
    → (finish_turn s i final v).0.staged ≡ without i s.staged
unfolding finish_turn take_staged release_staged
finish_turn-staged s i final v = elim (Option-cases (staged_at i s.staged)) [
  | inl e ↦ ground (arith, say_late-staged (ended s i) [] final v)
  | inr (st, e) ↦ ground (arith, say_staged-staged (ended s i) st final v)
]

finish_turn-Voice :
    (s : Side) (i : ℕ) (final : String) (v : Services) (on : List String)
    → IsTidy s on
    → v.tts_id ≢ some ""
    → Sounds on (finish_turn s i final v)
unfolding finish_turn take_staged release_staged
finish_turn-Voice s i final v on t some_id = elim (Option-cases (staged_at i s.staged)) [
  | inl e ↦
      rw (e, finish_turn)
        (if-Sounds on (s.listener_leg == "") (ended s i, []) (say_late (ended s i) [] final v)
          (λ _. t.voice) (λ _. say_late-Voice (ended s i) [] final v on t.voice some_id))
  | inr (st, e) ↦
      rw (e, finish_turn)
        (say_staged-Sounds (ended s i) st final v on t.voice
          (staged_at-IsNamed i s.staged st t.named e) some_id)
]

pub finish_turn-Tidy :
    (s : Side) (i : ℕ) (final : String) (v : Services) (on : List String)
    → IsTidy s on
    → v.tts_id ≢ some ""
    → Tidy on (finish_turn s i final v)
finish_turn-Tidy s i final v on t some_id = record {
  voice = finish_turn-Voice s i final v on t some_id;
  named = rw (finish_turn-staged s i final v) (without-AllNamed i s.staged t.named);
}
