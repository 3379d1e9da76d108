-- ===== src/ContactCentre/Registry/Positions.antt =====
-- Queue positions: `assignPositionsLocked` runs after the methods that change who is queued.
use example_applications.Base.{
  ℕ, suc, String, ◌==◌, string_eq, ◌≡◌, refl, Bool, Option, some, List, [], ◌∷◌, ◌++◌, arith,
  if◌then◌else◌, Option-cases, inl, inr,
}
use example_applications.ContactCentre.Registry.Loops.{Modified, here, there, modify-Modified}
use example_applications.ContactCentre.Registry.{
  LiveCall, Registry, is_queued, new_registry, assign_from, modify, hold, committed,
  TransferOutcome, hand_to, Claimant, take_call, claim, queue_position, Call, adds, queues, holds,
  transfers, claims, removes, notifies, subscribes, unsubscribes, receives, step, run,
}

-- The number of calls queued so far, after one more call.
abbrev pub ahead : ℕ → LiveCall → ℕ
ahead n c = if is_queued c.state then suc n else n

-- Each queued call has its rank among the queued calls for its position, and the others have 0.
abbrev pub Ranked : ℕ → List LiveCall → Type 0
Ranked n [] = Unit
Ranked n (c ∷ cs) = (c.position ≡ (if is_queued c.state then suc n else 0)) × Ranked (ahead n c) cs

assign_from-Ranked : (n : ℕ) (cs : List LiveCall) → Ranked n (assign_from n cs)
unfolding assign_from
assign_from-Ranked n [] = tt
assign_from-Ranked n (c ∷ cs) = (refl, assign_from-Ranked (ahead n c) cs)

append-Ranked :
    (n : ℕ) (cs : List LiveCall) (c : LiveCall)
    → c.position ≡ 0
    → is_queued c.state ≡ Bool.false
    → Ranked n cs
    → Ranked n (cs ++ c ∷ [])
append-Ranked n [] c p q h = (rw q p, tt)
append-Ranked n (d ∷ cs) c p q h = (h.0, append-Ranked (ahead n d) cs c p q h.1)

-- A change that keeps a call's state and position.
abbrev pub Steady : (LiveCall → Option LiveCall) → Type 0
Steady f =
    (c d : LiveCall)
    → f c ≡ some d
    → (d.position ≡ c.position) × (is_queued d.state ≡ is_queued c.state)

Modified-Ranked :
    (leg : String) (f : LiveCall → Option LiveCall) (n : ℕ) {cs ds : List LiveCall}
    → Steady f
    → Modified leg f cs ds
    → Ranked n cs
    → Ranked n ds
Modified-Ranked leg f n st (here {c} {d} {cs} hit q) h =
    let (p, s) = st c d q in (rw (p, s) h.0, rw s h.1)
Modified-Ranked leg f n st (there {c} miss m) h = (h.0, Modified-Ranked leg f (ahead n c) st m h.1)

committed-Ranked :
    (r : Registry) (leg : String) (f : LiveCall → Option LiveCall)
    → Steady f
    → Ranked 0 r.calls
    → Ranked 0 (committed r (modify leg f r.calls)).0.calls
unfolding committed
committed-Ranked r leg f st h = elim (Option-cases (modify leg f r.calls)) [
  | inl e ↦ rw (e, committed) h
  | inr (ds, e) ↦ rw (e, committed) (Modified-Ranked leg f 0 st (modify-Modified leg f r.calls e) h)
]

hold-Steady : (on : Bool) (playback : String) → Steady (hold on playback)
unfolding hold
hold-Steady on playback c d e = ground arith

hand_to-Steady : (o : TransferOutcome) → Steady (hand_to o)
unfolding hand_to
hand_to-Steady o c d e = ground arith

claim-Ranked :
    (r : Registry) (leg : String) (a : Claimant) (now : ℕ)
    → Ranked 0 r.calls
    → Ranked 0 (claim r leg a now).0.calls
unfolding claim
claim-Ranked r leg a now h = elim (Option-cases (modify leg (take_call a now) r.calls)) [
  | inl e ↦ rw (e, claim) h
  | inr (ds, e) ↦ rw (e, claim) (assign_from-Ranked 0 ds)
]

step-Ranked : (r : Registry) (c : Call) → Ranked 0 r.calls → Ranked 0 (step r c).calls
unfolding step
step-Ranked r (adds leg from to now) h = append-Ranked 0 r.calls _ refl refl h
step-Ranked r (queues leg room) h = assign_from-Ranked 0 _
step-Ranked r (holds leg on playback) h = committed-Ranked r leg _ (hold-Steady on playback) h
step-Ranked r (transfers leg o) h = committed-Ranked r leg _ (hand_to-Steady o) h
step-Ranked r (claims leg a now) h = claim-Ranked r leg a now h
step-Ranked r (removes leg) h = assign_from-Ranked 0 _
step-Ranked r notifies h = h
step-Ranked r subscribes h = h
step-Ranked r (unsubscribes id) h = h
step-Ranked r (receives id) h = h

run_from-Ranked : (r : Registry) (cs : List Call) → Ranked 0 r.calls → Ranked 0 (run r cs).calls
unfolding run
run_from-Ranked r [] h = h
run_from-Ranked r (c ∷ cs) h = run_from-Ranked (step r c) cs (step-Ranked r c h)

-- From an empty registry, after any calls of the handlers, the position stored with each queued call
-- is its rank among the queued calls in the order of arrival, and with every other call 0.
pub run-Ranked : (cs : List Call) → Ranked 0 (run new_registry cs).calls
unfolding new_registry
run-Ranked cs = run_from-Ranked new_registry cs tt

-- What a caller is told, computed from the list alone: 1 and the number of queued calls before the
-- first call with the leg, if that is queued, and 0 if it is not, or if there is none.
abbrev pub rank : ℕ → String → List LiveCall → ℕ
rank n leg [] = 0
rank n leg (c ∷ cs) =
    let rest = rank (ahead n c) leg cs in
    if c.leg_id == leg then (if is_queued c.state then suc n else 0) else rest

position_rank :
    (n : ℕ) (leg : String) (r : Registry) (cs : List LiveCall)
    → Ranked n cs
    → queue_position (record r { calls = cs }) leg ≡ rank n leg cs
unfolding queue_position
position_rank n leg r [] h = refl
position_rank n leg r (c ∷ cs) h = ground (arith, position_rank (ahead n c) leg r cs h.1)

-- So `queuePosition` always answers 1 and the number of callers queued ahead, or 0 for a leg that
-- is not queued, whatever the handlers did before.
pub queue_position-rank :
    (cs : List Call) (leg : String)
    → queue_position (run new_registry cs) leg ≡ rank 0 leg (run new_registry cs).calls
queue_position-rank cs leg =
    let r = run new_registry cs in position_rank 0 leg r r.calls (run-Ranked cs)
