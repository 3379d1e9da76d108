-- ===== src/Interpreter/Turns/Words.antt =====
-- What is said of a turn.
use example_applications.Base.{
  ℕ, String, string_eq, nat_eq, ◌==◌, ◌≡◌, ◌≢◌, ◌⊎◌, refl, true, false, ◌&&◌, some, List, [], ◌∷◌,
  ◌++◌, arith, if◌then◌else◌, Bool-cases, Option-cases, inl, inr, eq_iff,
}
use example_applications.Base.Int.{pos, ltb_ℤ}
use example_applications.Interpreter.Turns.{
  without, say_late, say_staged, Staged, Side, Effect, caption, discard_id, stop_inflight,
  staged_at, commit_staged, take_staged, speak, translate_and_speak, Services, finish_turn, tts,
  commit,
}

-- The texts of the speaker that are played as final, in order.
abbrev pub said : List Effect → List String
said [] = []
said (caption original translated true ∷ es) = original ∷ said es
said (_ ∷ es) = said es

said-append : (xs ys : List Effect) → said (xs ++ ys) ≡ said xs ++ said ys
said-append [] ys = refl
said-append (x ∷ xs) ys = ground (arith, said-append xs ys)

-- What sounds at a leg: words that are synthesized then, or staged audio that is committed.
pub data Sound : Type 0 where
  spoken : (leg words id : String) → Sound
  staged_audio : (leg id : String) → Sound

abbrev pub sounds : List Effect → List Sound
sounds [] = []
sounds (tts leg words id ∷ es) = spoken leg words id ∷ sounds es
sounds (commit leg id true ∷ es) = staged_audio leg id ∷ sounds es
sounds (_ ∷ es) = sounds es

sounds-append : (xs ys : List Effect) → sounds (xs ++ ys) ≡ sounds xs ++ sounds ys
sounds-append [] ys = refl
sounds-append (commit leg id true ∷ xs) ys = ground (arith, sounds-append xs ys)
sounds-append (commit leg id false ∷ xs) ys = ground (arith, sounds-append xs ys)
sounds-append (x ∷ xs) ys = ground (arith, sounds-append xs ys)

discard_id_silent :
    (leg id : String) → (said (discard_id leg id) ≡ []) × (sounds (discard_id leg id) ≡ [])
unfolding discard_id
discard_id_silent leg id = ground arith

-- The speaker's books when the turn `i` has ended, and what was staged for it is taken.
abbrev ended : Side → ℕ → Side
ended s i = record s {
  max_done = if ltb_ℤ s.max_done (pos i) then pos i else s.max_done;
  staged = without i s.staged;
}

-- The final text is captioned once, and the translation `words` sounds at the leg, and nothing else.
abbrev pub SaysLate : (leg final words id : String) → List Effect → Type 0
SaysLate leg final words id es = (said es ≡ final ∷ []) × (sounds es ≡ spoken leg words id ∷ [])

-- The final text is captioned once, and the staged audio, which is of that text, ready and not refused,
-- sounds at the leg, and nothing else.
abbrev pub SaysStaged : String → String → Services → Staged → List Effect → Type 0
SaysStaged leg final v st es =
    (st.src ≡ final)
    × (v.ready ≡ true)
    × (v.committed ≡ true)
    × (said es ≡ final ∷ [])
    × (sounds es ≡ staged_audio leg st.tts_id ∷ [])

module _ (final words id : String) (v : Services) (text : final ≢ "")
    (translated : v.translated ≡ some words) (synthesized : v.tts_id ≡ some id) where
  say_late-SaysLate :
      (s : Side) (es : List Effect)
      → s.listener_leg ≢ ""
      → said es ≡ []
      → sounds es ≡ []
      → SaysLate s.listener_leg final words id (say_late s es final v).1
  unfolding say_late translate_and_speak stop_inflight speak
  say_late-SaysLate s es leg quiet silent = ground (
    arith,
    eq_iff final "",
    eq_iff s.listener_leg "",
    said-append es (translate_and_speak s final v.translated v.tts_id).1,
    sounds-append es (translate_and_speak s final v.translated v.tts_id).1,
  )

  -- Audio of other words is discarded.
  revised-SaysLate :
      (s : Side) (st : Staged)
      → s.listener_leg ≢ ""
      → st.src ≢ final
      → SaysLate s.listener_leg final words id (say_staged s st final v).1
  unfolding say_staged
  revised-SaysLate s st leg other =
      let dropped = discard_id s.listener_leg st.tts_id in
      let silent = discard_id_silent s.listener_leg st.tts_id in
      let late = say_late-SaysLate s dropped leg silent.0 silent.1 in
      ground (arith, eq_iff st.src final, eq_iff s.listener_leg "")

  -- So is audio that is not ready, and audio whose commit is refused is not heard.
  refused-SaysLate :
      (s : Side) (st : Staged)
      → s.listener_leg ≢ ""
      → st.src ≡ final
      → v.ready && v.committed ≡ false
      → SaysLate s.listener_leg final words id (say_staged s st final v).1
  unfolding say_staged commit_staged stop_inflight
  refused-SaysLate s st leg same refused =
      let (s', es, done) = commit_staged s st v.ready v.committed in
      let silent = discard_id_silent s.listener_leg st.tts_id in
      ground (arith, eq_iff st.src final, eq_iff s.listener_leg "", say_late-SaysLate s' es)

  accepted-SaysStaged :
      (s : Side) (st : Staged)
      → s.listener_leg ≢ ""
      → st.src ≡ final
      → v.ready && v.committed ≡ true
      → SaysStaged s.listener_leg final v st (say_staged s st final v).1
  unfolding say_staged commit_staged stop_inflight
  accepted-SaysStaged s st leg same accepted =
      ground (arith, eq_iff st.src final, eq_iff s.listener_leg "")

  -- A turn that ends is said once, in the words that were final. If the translator and the synthesis
  -- answer, then the end of a turn with text, for a listener who has a leg, captions the final text
  -- once and no other, and one thing sounds at the listener's leg: either the audio that was staged
  -- for the turn, which then is of the final text, is ready, and was not refused at its commit; or the
  -- synthesis of the translation.
  pub finish_turn-said :
      (s : Side) (i : ℕ)
      → s.listener_leg ≢ ""
      → ((st : Staged) × (staged_at i s.staged ≡ some st)
          × SaysStaged s.listener_leg final v st (finish_turn s i final v).1)
        ⊎ SaysLate s.listener_leg final words id (finish_turn s i final v).1
  unfolding finish_turn take_staged
  finish_turn-said s i leg = elim (Option-cases (staged_at i s.staged)) [
    | inl e ↦ inr (
        rw (e, finish_turn)
          (ground
            (arith, eq_iff s.listener_leg "", say_late-SaysLate (ended s i) [] leg refl refl)))
    | inr (st, e) ↦ elim (Bool-cases (st.src == final)) [
      | inr p ↦ inr (
          rw (e, finish_turn)
            (revised-SaysLate (ended s i) st leg (λ q. ground (arith, eq_iff st.src final))))
      | inl p ↦ elim (Bool-cases (v.ready && v.committed)) [
        | inr r ↦ inr (
            rw (e, finish_turn) (refused-SaysLate (ended s i) st leg ((eq_iff st.src final).0 p) r))
        | inl r ↦ inl (
          st,
          e,
          rw (e, finish_turn)
              (accepted-SaysStaged (ended s i) st leg ((eq_iff st.src final).0 p) r),
        )
      ]
    ]
  ]
