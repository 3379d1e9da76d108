-- ===== src/Pbx/Forks/Resolution.antt =====
-- The caller of a fork that stays on the line is taken care of once: it is connected, hung up, or sent
-- on along its plan. A caller that gives up is not: see the end.
use example_applications.Base.{
  ℕ, ◌+◌, String, ◌==◌, string_eq, nat_eq, ◌≡◌, refl, ◌∙◌, ap, Bool, true, false, some, List, [],
  ◌∷◌, ◌++◌, All, arith, Table, lookup, if◌then◌else◌, Bool-cases, Option-cases, inl, inr, eq_iff,
}
use mathlib.Core.List.{append-nil}
use example_applications.Pbx.Calls.{
  Bridge, Cand, Group, Effect, detach_or_hang_up, add_bridge, resume_plan,
}
use example_applications.Pbx.Forks.{
  is_empty, stop_ringback, drop_cand, drop_cands, connect_winner, on_fork_connected, no_answer,
  bridge_of, fork_candidate_gone, candidates_gone, on_fork_ring_timeout, web_legs,
  fork_caller_gave_up, on_fork_disconnected, begin_fork, Event, answers, disconnects, declines,
  times_out, handle, run,
}

-- 1 for what takes care of the caller `a`: a bridge from its leg, its hang-up, or its return to the
-- plan, and 0 for all else.
abbrev pub settles : String → Effect → ℕ
settles a (add_bridge b) = if b.a_leg == a then 1 else 0
settles a resume_plan = 1
settles a (detach_or_hang_up room leg reason) = if leg == a then 1 else 0
settles a _ = 0

abbrev pub resolutions : String → List Effect → ℕ
resolutions a [] = 0
resolutions a (e ∷ es) = settles a e + resolutions a es

-- 1 for a fork that still rings, and 0 for one that has ended.
abbrev pub open_forks : Group → ℕ
open_forks g = if g.won then 0 else if is_empty g.candidates then 0 else 1

resolutions-append :
    (a : String) (xs ys : List Effect)
    → resolutions a (xs ++ ys) ≡ resolutions a xs + resolutions a ys
resolutions-append a [] ys = ground arith
resolutions-append a (x ∷ xs) ys = omega (arith, resolutions-append a xs ys)

resolutions-stop_ringback :
    (a : String) (g : Group) (ys : List Effect)
    → resolutions a (stop_ringback g ++ ys) ≡ resolutions a ys
resolutions-stop_ringback a g ys = ground arith

drop_cand_silent : (a why leg : String) (c : Cand) → settles a (drop_cand why leg c) ≡ 0
unfolding drop_cand
drop_cand_silent a why leg c = ground arith

resolutions-drop_cands :
    (a why : String) (cs : Table Cand) (ys : List Effect)
    → resolutions a (drop_cands why cs ++ ys) ≡ resolutions a ys
unfolding drop_cands
resolutions-drop_cands a why [] ys = refl
resolutions-drop_cands a why ((leg, c) ∷ cs) ys =
    ground (arith, drop_cand_silent a why leg c, resolutions-drop_cands a why cs ys)

same_text : (a : String) → (a == a) ≡ true
same_text a = (eq_iff a a).1 refl

ruleset silent = (arith, resolutions-stop_ringback, resolutions-drop_cands, drop_cand_silent)

no_answer_settles : (g : Group) (reason : String) → resolutions g.a_leg (no_answer g reason) ≡ 1
unfolding no_answer
no_answer_settles g reason = let same = same_text g.a_leg in grind silent

connect_winner_settles :
    (g : Group) (leg : String) (c : Cand) (ok : Bool) (now : ℕ)
    → resolutions g.a_leg (connect_winner g leg c ok now) ≡ 1
unfolding connect_winner bridge_of
connect_winner_settles g leg c ok now = let same = same_text g.a_leg in grind silent

lookup-nonempty :
    {A : Type 0} (leg : String) (m : Table A) (c : A) → lookup leg m ≡ some c → is_empty m ≡ false
unfolding lookup
lookup-nonempty leg [] c h = ground arith
lookup-nonempty leg (x ∷ m) c h = refl

-- What a handler settles is no longer open, nothing else ends a fork, and its caller stays the same.
abbrev Conserves : Group → Group × List Effect → Type 0
Conserves g (g', es) =
    (g'.a_leg ≡ g.a_leg) × (resolutions g.a_leg es + open_forks g' ≡ open_forks g)

on_fork_connected-Conserves :
    (g : Group) (leg : String) (ok : Bool) (now : ℕ) → Conserves g (on_fork_connected g leg ok now)
unfolding on_fork_connected
on_fork_connected-Conserves g leg ok now = elim (Option-cases (lookup leg g.candidates)) [
  | inl e ↦ rw (e, on_fork_connected) (refl, omega arith)
  | inr (c, e) ↦ ground (
    arith,
    lookup-nonempty leg g.candidates c e,
    connect_winner_settles g leg c ok now,
    drop_cand_silent g.a_leg "taken" leg c,
  )
]

fork_candidate_gone-Conserves :
    (g : Group) (leg reason : String) → Conserves g (fork_candidate_gone g leg reason)
unfolding fork_candidate_gone
fork_candidate_gone-Conserves g leg reason = elim (Option-cases (lookup leg g.candidates)) [
  | inl e ↦ rw (e, fork_candidate_gone) (refl, omega arith)
  | inr (c, e) ↦ ground (arith, lookup-nonempty leg g.candidates c e, no_answer_settles g reason)
]

-- Two steps, one after the other.
Conserves-append :
    (g g' g'' : Group) (es es' : List Effect)
    → Conserves g (g', es)
    → Conserves g' (g'', es')
    → Conserves g (g'', es ++ es')
Conserves-append g g' g'' es es' (same, first) (same', later) =
    let later' : resolutions g.a_leg es' + open_forks g'' ≡ open_forks g' = rw (← same) later in
    (same' ∙ same, omega (arith, resolutions-append g.a_leg es es'))

candidates_gone-Conserves :
    (g : Group) (legs : List String) (reason : String) → Conserves g (candidates_gone g legs reason)
unfolding candidates_gone
candidates_gone-Conserves g [] reason = (refl, omega arith)
candidates_gone-Conserves g (leg ∷ legs) reason =
    let (g', es) = fork_candidate_gone g leg reason in
    let (g'', es') = candidates_gone g' legs reason in
    Conserves-append g g' g'' es es' (fork_candidate_gone-Conserves g leg reason)
      (candidates_gone-Conserves g' legs reason)

-- The event is not the disconnect of the leg.
abbrev pub Spares : String → Event → Type 0
Spares a (disconnects leg reason) = (leg == a) ≡ false
Spares a _ = Unit

handle-Conserves : (g : Group) (e : Event) → Spares g.a_leg e → Conserves g (handle g e)
unfolding handle on_fork_ring_timeout on_fork_disconnected
handle-Conserves g (answers leg ok now) h = on_fork_connected-Conserves g leg ok now
handle-Conserves g (disconnects leg reason) h = rw h (fork_candidate_gone-Conserves g leg reason)
handle-Conserves g (declines leg reason) h = fork_candidate_gone-Conserves g leg reason
handle-Conserves g times_out h =
    ground (arith, candidates_gone-Conserves g (web_legs g.candidates) "timeout")

run-Conserves : (g : Group) (es : List Event) → All (Spares g.a_leg) es → Conserves g (run g es)
unfolding run
run-Conserves g [] h = (refl, omega arith)
run-Conserves g (e ∷ es) (h, hs) =
    let (g', out) = handle g e in
    let (g'', out') = run g' es in
    let first = handle-Conserves g e h in
    Conserves-append g g' g'' out out' first (run-Conserves g' es (rw first.0 hs))

-- A fork takes care of its caller exactly once. Over any sequence of answers, disconnects of
-- devices, refusals and timeouts of a fork that rings, in which the caller stays: there is in all
-- one bridge from the caller's leg, or hang-up of that leg, or return of the caller to its plan if
-- the fork has ended by then (a device has won, or none is left), and none if it still rings.
pub run-resolutions :
    (g : Group) (es : List Event)
    → g.won ≡ false
    → is_empty g.candidates ≡ false
    → All (Spares g.a_leg) es
    → resolutions g.a_leg (run g es).1 + open_forks (run g es).0 ≡ 1
run-resolutions g es rings some_left stays = ground (arith, run-Conserves g es stays)

-- Setting a fork up that no device has won takes care of its caller at once (a bridge from its leg, a
-- hang-up of its leg, or its return to the plan) or leaves the fork ringing: not neither, not both
-- and not twice, not even where no device could be rung or all of them decline at once.
pub begin_fork-resolutions :
    (g : Group) (dnd : List String)
    → g.won ≡ false
    → resolutions g.a_leg (begin_fork g dnd).1 + open_forks (begin_fork g dnd).0 ≡ 1
unfolding begin_fork
begin_fork-resolutions g dnd fresh = elim (Bool-cases (is_empty g.candidates)) [
  | inl e ↦ let same = same_text g.a_leg in rw e (grind silent)
  | inr e ↦ rw e (ground (arith, candidates_gone-Conserves g dnd "declined"))
]

-- The bridges that a handler adds.
abbrev pub bridges : List Effect → List Bridge
bridges [] = []
bridges (add_bridge b ∷ es) = b ∷ bridges es
bridges (_ ∷ es) = bridges es

bridges-append : (xs ys : List Effect) → bridges (xs ++ ys) ≡ bridges xs ++ bridges ys
bridges-append [] ys = refl
bridges-append (x ∷ xs) ys = ground (arith, bridges-append xs ys)

bridges-drop_cands :
    (why : String) (cs : Table Cand) (ys : List Effect)
    → bridges (drop_cands why cs ++ ys) ≡ bridges ys
unfolding drop_cands drop_cand
bridges-drop_cands why [] ys = refl
bridges-drop_cands why ((leg, c) ∷ cs) ys = ground (arith, bridges-drop_cands why cs ys)

bridges-stop_ringback :
    (g : Group) (ys : List Effect) → bridges (stop_ringback g ++ ys) ≡ bridges ys
bridges-stop_ringback g ys = ground arith

connect_winner-bridges :
    (g : Group) (leg : String) (c : Cand) (ok : Bool) (now : ℕ)
    → g.caller_answered ≡ true
    → bridges (connect_winner g leg c ok now) ≡ bridge_of g leg c now ∷ []
unfolding connect_winner
connect_winner-bridges g leg c ok now up = grind (arith, bridges-stop_ringback, bridges-drop_cands)

fork_caller_gave_up-bridges : (g : Group) → bridges (fork_caller_gave_up g).1 ≡ []
unfolding fork_caller_gave_up
fork_caller_gave_up-bridges g = grind (arith, bridges-stop_ringback, bridges-drop_cands)

on_fork_connected-bridges :
    (g : Group) (leg : String) (c : Cand) (ok : Bool) (now : ℕ)
    → g.caller_answered ≡ true
    → lookup leg g.candidates ≡ some c
    → g.won ≡ false
    → bridges (on_fork_connected g leg ok now).1 ≡ bridge_of g leg c now ∷ []
unfolding on_fork_connected
on_fork_connected-bridges g leg c ok now up rings fresh =
    ground (arith, connect_winner-bridges g leg c ok now)

-- The caller that gives up is not remembered: if it had been answered before its devices were rung, so
-- that AnswerLeg is not asked again, then an answer whose handler has the group in hand by the time
-- it gives up still wins, and the fork makes a bridge from the leg of the caller that is gone.
pub gone_caller_bridged :
    (g : Group) (leg : String) (c : Cand) (ok : Bool) (now : ℕ)
    → g.caller_answered ≡ true
    → lookup leg g.candidates ≡ some c
    → g.won ≡ false
    → bridges (run g (disconnects g.a_leg "" ∷ answers leg ok now ∷ [])).1
      ≡ bridge_of g leg c now ∷ []
unfolding run handle on_fork_disconnected fork_caller_gave_up bridge_of
gone_caller_bridged g leg c ok now up rings fresh =
    let after = fork_caller_gave_up g in
    let out = (on_fork_connected after.0 leg ok now).1 in
    rw (same_text g.a_leg) (
      bridges-append after.1 (out ++ [])
      ∙ ap (λ l. l ++ bridges (out ++ [])) (fork_caller_gave_up-bridges g)
      ∙ ap bridges (append-nil out)
      ∙ on_fork_connected-bridges after.0 leg c ok now up rings fresh)
