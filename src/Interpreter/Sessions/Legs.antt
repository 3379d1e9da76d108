-- ===== src/Interpreter/Sessions/Legs.antt =====
-- The index of the media legs.
use example_applications.Base.{
  ℕ, String, string_eq, nat_eq, ◌≡◌, ◌≢◌, refl, sym, ◌∙◌, Table, some, List, [], ◌∷◌, arith, lookup,
  erase, lookup-erase, lookup-insert, lookup-nil, eq_iff,
}
use example_applications.Interpreter.Langs
use example_applications.Interpreter.Sessions.{
  World, touch, mark_started, close, create, join, seat, leave, bind_leg, bind_part, bind_index,
  unbind_leg, for_leg, drop,
}

pub data Call : Type 0 where
  creates : (session : ℕ) (id invite : String) (now : ℕ) → Call
  joins :
      Langs.Config → (id : String) (part : ℕ) (part_id name lang gender : String) (now : ℕ) → Call
  leaves : (session part now : ℕ) → Call
  binds : (session part : ℕ) (leg : String) → Call
  unbinds : (part : ℕ) → Call
  touches starts : (session now : ℕ) → Call
  closes : (session : ℕ) → Call
  drops : (id : String) → Call

unfoldable pub step : World → Call → World
unfolding create join leave bind_leg unbind_leg touch mark_started close drop
step w (creates s id invite now) = create w s id invite now
step w (joins cfg id p part_id name lang gender now) =
    (join cfg w id p part_id name lang gender now).0
step w (leaves s p now) = (leave w s p now).0
step w (binds s p leg) = bind_leg w s p leg
step w (unbinds p) = (unbind_leg w p).0
step w (touches s now) = touch w s now
step w (starts s now) = mark_started w s now
step w (closes s) = (close w s).0
step w (drops id) = drop w id

unfoldable pub run : World → List Call → World
unfolding step
run w [] = w
run w (c ∷ cs) = run (step w c) cs

-- A leg that is indexed has an id, and leads to the participant whose leg it is.
abbrev pub IsRouted : World → Type 0
IsRouted w =
    (leg : String) (p : ℕ) → lookup leg w.by_leg ≡ some p → ((w.parts p).leg_id ≡ leg) × (leg ≢ "")

-- A new participant has no leg yet, and the legs of the media server have ids.
abbrev pub IsFresh : World → Call → Type 0
IsFresh w (joins cfg id p part_id name lang gender now) =
    (leg : String) → lookup leg w.by_leg ≢ some p
IsFresh w (binds s p leg) = leg ≢ ""
IsFresh w _ = Unit {0}

abbrev pub AreFresh : World → List Call → Type 0
AreFresh w [] = Unit {0}
AreFresh w (c ∷ cs) = IsFresh w c × AreFresh (step w c) cs

seat-IsRouted :
    (w : World) (id : String) (p : ℕ) (part_id name lang gender : String) (now : ℕ)
    → IsRouted w
    → ((leg : String) → lookup leg w.by_leg ≢ some p)
    → IsRouted (seat w id p part_id name lang gender now).0
unfolding seat
seat-IsRouted w id p part_id name lang gender now r fresh leg q = ground (arith, r leg q, fresh leg)

bind_leg-IsRouted :
    (w : World) (s p : ℕ) (leg : String) → IsRouted w → leg ≢ "" → IsRouted (bind_leg w s p leg)
unfolding bind_leg
bind_leg-IsRouted w s p leg r named other q =
    let old = (w.parts p).leg_id in
    ground (
      arith,
      r other q,
      eq_iff leg other,
      eq_iff old other,
      eq_iff old "",
      lookup-insert leg other p w.by_leg,
      lookup-insert leg other p (erase old w.by_leg),
      lookup-erase old other w.by_leg,
    )

unbind_leg-IsRouted : (w : World) (p : ℕ) → IsRouted w → IsRouted (unbind_leg w p).0
unfolding unbind_leg
unbind_leg-IsRouted w p r other q =
    let old = (w.parts p).leg_id in
    ground (arith, r other q, eq_iff old other, eq_iff old "", lookup-erase old other w.by_leg)

step-IsRouted : (w : World) (c : Call) → IsRouted w → IsFresh w c → IsRouted (step w c)
unfolding step join create touch mark_started close leave drop
step-IsRouted w (creates s id invite now) r fresh = r
step-IsRouted w (joins cfg id p part_id name lang gender now) r fresh =
    seat-IsRouted w id p part_id name (Langs.settle_lang cfg lang) (Langs.settle_gender gender) now
      r fresh
step-IsRouted w (leaves s p now) r fresh = λ leg q. ground (arith, r leg q)
step-IsRouted w (binds s p leg) r fresh = bind_leg-IsRouted w s p leg r fresh
step-IsRouted w (unbinds p) r fresh = unbind_leg-IsRouted w p r
step-IsRouted w (touches s now) r fresh = r
step-IsRouted w (starts s now) r fresh = λ leg q. ground (arith, r leg q)
step-IsRouted w (closes s) r fresh = λ leg q. ground (arith, r leg q)
step-IsRouted w (drops id) r fresh = r

run-IsRouted : (w : World) (cs : List Call) → IsRouted w → AreFresh w cs → IsRouted (run w cs)
unfolding run
run-IsRouted w [] r fresh = r
run-IsRouted w (c ∷ cs) r (here, later) =
    run-IsRouted (step w c) cs (step-IsRouted w c r here) later

none_indexed : (w : World) (leg : String) (p : ℕ) → w.by_leg ≡ [] → lookup leg w.by_leg ≢ some p
none_indexed w leg p blank = λ h. ground (arith, lookup-nil {V = ℕ} leg)

-- An event of the media server reaches the right person. After any handlers, run one after another
-- with bindLeg and unbindLeg in one piece each, from a state in which no leg is indexed, with new
-- participants and legs that have ids: the participant that `forLeg` finds for a leg has that leg, and
-- no participant is found for two legs.
pub for_leg_finds :
    (w : World) (cs : List Call) (leg other : String) (p : ℕ)
    → w.by_leg ≡ []
    → AreFresh w cs
    → for_leg (run w cs) leg ≡ some p
    → (((run w cs).parts p).leg_id ≡ leg) × (for_leg (run w cs) other ≡ some p → other ≡ leg)
unfolding for_leg
for_leg_finds w cs leg other p blank fresh found =
    let start : IsRouted w = λ l q h. absurd (none_indexed w l q blank h) in
    let r = run-IsRouted w cs start fresh in
    let here = (r leg p found).0 in (here, λ again. sym (r other p again).0 ∙ here)

-- bindLeg overtaken by unbindLeg. If the participant is unbound after bindLeg has noted the leg with the
-- participant and before it has indexed it, then the index leads from the leg to a participant that
-- has no leg, and another unbindLeg of that participant does not take the leg off the index.
pub overtaken_bind_misroutes :
    (w : World) (s p : ℕ) (leg : String)
    → let old = (w.parts p).leg_id in
      let w' = bind_index (unbind_leg (bind_part w p leg) p).0 s p leg old in
      (for_leg w' leg ≡ some p)
      × ((w'.parts p).leg_id ≡ "")
      × (for_leg (unbind_leg w' p).0 leg ≡ some p)
unfolding bind_index unbind_leg bind_part for_leg
overtaken_bind_misroutes w s p leg =
    let found = λ (m : Table ℕ). lookup-insert leg leg p m in
    let same = (eq_iff leg leg).1 refl in
    let w' = bind_index (unbind_leg (bind_part w p leg) p).0 s p leg (w.parts p).leg_id in
    let free : (w'.parts p).leg_id ≡ "" = ground arith in
    let here : for_leg w' leg ≡ some p = found _ ∙ rw same refl in (here, free, rw free here)
