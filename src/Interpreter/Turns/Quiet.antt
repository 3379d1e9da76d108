-- ===== src/Interpreter/Turns/Quiet.antt =====
-- The handlers that play and stop nothing.
use example_applications.Base.{
  ℕ, String, ◌==◌, string_eq, nat_eq, ◌≡◌, ◌≢◌, ◌⊎◌, refl, sym, ◌∙◌, ap, Bool, true, false, ◌||◌,
  Option, none, some, List, [], ◌∷◌, ◌++◌, arith, if◌then◌else◌, Bool-cases, Option-cases, inl, inr,
}
use mathlib.Core.Path.{subst}
use example_applications.Interpreter.Turns.{
  staged_at, take_staged, release_staged, evict, evict_from, put_staged, preflight_ask,
  preflight_store, preflight_begin, preflight_end, check_stuck_turn, warn_turn_once, turn_is_done,
  drop_pending, mem, Staged, Side, Effect, preflight, discard_id, evict_oldest_staged,
  discard_staged, preflight_turn,
}
use example_applications.Interpreter.Turns.Hearing.{
  hear_all, hear_all-append, IsNamed, discard_id_silent, AllNamed, without-AllNamed, IsTidy, Tidy,
}

-- A handler that plays and stops nothing.
pub record Quiet (s : Side) (on : List String) (r : Side × List Effect) : Type 0 where
  pub silent : hear_all on r.1 ≡ on
  pub inflight : r.0.inflight ≡ s.inflight
  pub leg : r.0.listener_leg ≡ s.listener_leg
  pub named : AllNamed s.staged → AllNamed r.0.staged

pub Quiet-Tidy :
    (s : Side) (on : List String) (r : Side × List Effect) → Quiet s on r → IsTidy s on → Tidy on r
Quiet-Tidy s on r q t = record {
  voice = rw (q.silent, q.inflight, q.leg) t.voice;
  named = q.named t.named;
}

evict-Quiet : (s : Side) (i : ℕ) (on : List String) → Quiet s on (evict s i)
unfolding evict release_staged
evict-Quiet s i on = elim (Option-cases (staged_at i s.staged)) [
  | inl e ↦
      rw (e, evict)
        (record { silent = refl; inflight = refl; leg = refl; named = without-AllNamed i s.staged })
  | inr (st, e) ↦
      rw (e, evict)
        (record {
          silent = discard_id_silent on s.listener_leg st.tts_id;
          inflight = refl;
          leg = refl;
          named = without-AllNamed i s.staged;
        })
]

still : (s : Side) (on : List String) → Quiet s on (s, [])
still s on = record { silent = refl; inflight = refl; leg = refl; named = λ h. h }

if-Quiet :
    (s : Side) (on : List String) (b : Bool) (x y : Side × List Effect)
    → Quiet s on x
    → Quiet s on y
    → Quiet s on (if b then x else y)
if-Quiet s on true x y f g = f
if-Quiet s on false x y f g = g

evict_from-Quiet :
    (s : Side) (m : List (ℕ × Staged)) (on : List String) → Quiet s on (evict_from s m)
unfolding evict_from
evict_from-Quiet s [] on = still s on
evict_from-Quiet s ((i, st) ∷ m) on = if-Quiet s on _ (s, []) _ (still s on) (evict-Quiet s _ on)

Quiet-then :
    (s : Side) (on : List String) (r q : Side × List Effect)
    → Quiet s on r
    → Quiet r.0 on q
    → Quiet s on (q.0, r.1 ++ q.1)
Quiet-then s on r q f g = record {
  silent = hear_all-append on r.1 q.1 ∙ ap (λ l. hear_all l q.1) f.silent ∙ g.silent;
  inflight = g.inflight ∙ f.inflight;
  leg = g.leg ∙ f.leg;
  named = λ h. g.named (f.named h);
}

pub discard_staged-Quiet : (s : Side) (i : ℕ) (on : List String) → Quiet s on (discard_staged s i)
unfolding discard_staged take_staged release_staged
discard_staged-Quiet s i on = elim (Option-cases (staged_at i s.staged)) [
  | inl e ↦
      rw (e, discard_staged)
        (record { silent = refl; inflight = refl; leg = refl; named = without-AllNamed i s.staged })
  | inr (st, e) ↦
      rw (e, discard_staged)
        (record {
          silent = ground (arith, discard_id_silent on s.listener_leg st.tts_id);
          inflight = refl;
          leg = refl;
          named = without-AllNamed i s.staged;
        })
]

pub check_stuck_turn-Quiet :
    (s : Side) (i span : ℕ) (on : List String) → Quiet s on (check_stuck_turn s i span)
unfolding check_stuck_turn warn_turn_once
check_stuck_turn-Quiet s i span on = record {
  silent = ground arith;
  inflight = ground arith;
  leg = ground arith;
  named = λ h. let e : (check_stuck_turn s i span).0.staged ≡ s.staged = ground arith in rw e h;
}

preflight_store-Quiet :
    (s : Side) (i : ℕ) (st : Staged) (on : List String)
    → IsNamed st
    → Quiet s on (preflight_store s i st)
unfolding preflight_store put_staged
preflight_store-Quiet s i st on named =
    if-Quiet s on (turn_is_done s i) (s, discard_id s.listener_leg st.tts_id) _
      (record {
        silent = discard_id_silent on s.listener_leg st.tts_id;
        inflight = refl;
        leg = refl;
        named = λ h. h;
      })
      (record {
        silent = refl;
        inflight = refl;
        leg = refl;
        named = λ h. (named, without-AllNamed i s.staged h);
      })

preflight_ask-Quiet : (s : Side) (i : ℕ) (on : List String) → Quiet s on (preflight_ask s i)
unfolding preflight_ask evict_oldest_staged
preflight_ask-Quiet s i on =
    if-Quiet s on (turn_is_done s i) (s, []) _ (still s on) (evict_from-Quiet s s.staged on)

preflight_end-Quiet :
    (s : Side) (i : ℕ) (text : String) (words id : Option String) (now : ℕ) (on : List String)
    → id ≢ some ""
    → Quiet s on (preflight_end s i text words id now)
unfolding preflight_end
preflight_end-Quiet s i text none id now on named = still s on
preflight_end-Quiet s i text (some w) none now on named =
    if-Quiet s on (turn_is_done s i) (preflight_ask s i) (preflight_ask s i)
      (preflight_ask-Quiet s i on) (preflight_ask-Quiet s i on)
preflight_end-Quiet s i text (some w) (some n) now on named =
    let st : Staged = record { tts_id = n; src = text; text = w; at = now } in
    let (s', es) = preflight_ask s i in
    let (s'', es') = preflight_store s' i st in
    let asked = preflight_ask-Quiet s i on in
    let stored = preflight_store-Quiet s' i st on (λ e. named (ap some e)) in
    if-Quiet s on (turn_is_done s i) (s', es) (s'', es ++ preflight s.listener_leg w n ∷ es') asked
      (Quiet-then s on (s', es) (s'', preflight s.listener_leg w n ∷ es') asked
        (record {
          silent = stored.silent;
          inflight = stored.inflight;
          leg = stored.leg;
          named = stored.named;
        }))

begin_cases :
    (s : Side) (i : ℕ) (text : String)
    → (preflight_begin s i text ≡ none)
      ⊎ (preflight_begin s i text ≡ some (record s { pending = i ∷ s.pending }))
unfolding preflight_begin
begin_cases s i text = elim (Bool-cases (text == "" || (s.listener_leg == "" || mem i s.pending))) [
  | inl e ↦ inl (rw e refl)
  | inr e ↦ inr (rw e refl)
]

preflight_idle :
    (s : Side) (i : ℕ) (text : String) (words id : Option String) (now : ℕ)
    → preflight_begin s i text ≡ none
    → preflight_turn s i text words id now ≡ (s, [])
unfolding preflight_turn
preflight_idle s i text words id now e = ground arith

preflight_works :
    (s : Side) (i : ℕ) (text : String) (words id : Option String) (now : ℕ)
    → preflight_begin s i text ≡ some (record s { pending = i ∷ s.pending })
    → let (s', es) = preflight_end (record s { pending = i ∷ s.pending }) i text words id now in
      preflight_turn s i text words id now ≡ (record s' { pending = drop_pending i s'.pending }, es)
unfolding preflight_turn
preflight_works s i text words id now e = ground arith

pub preflight_turn-Quiet :
    (s : Side) (i : ℕ) (text : String) (words id : Option String) (now : ℕ) (on : List String)
    → id ≢ some ""
    → Quiet s on (preflight_turn s i text words id now)
unfolding preflight_turn
preflight_turn-Quiet s i text words id now on named = elim (begin_cases s i text) [
  | inl e ↦ subst (Quiet s on) (sym (preflight_idle s i text words id now e)) (still s on)
  | inr e ↦
      let began : Side = record s { pending = i ∷ s.pending } in
      let q = preflight_end-Quiet began i text words id now on named in
      subst (Quiet s on) (sym (preflight_works s i text words id now e))
        (record { silent = q.silent; inflight = q.inflight; leg = q.leg; named = q.named })
]
