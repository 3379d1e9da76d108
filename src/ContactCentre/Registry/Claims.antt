-- ===== src/ContactCentre/Registry/Claims.antt =====
-- Agents race to claim a queued call: one wins, and keeps the call.
use example_applications.Base.{
  ℕ, suc, String, ◌==◌, string_eq, ◌≡◌, ◌≢◌, refl, ◌∙◌, Bool, true, false, Option, none, some, List,
  [], ◌∷◌, ◌++◌, arith, if◌then◌else◌, Option-cases, text_cases, inl, inr, eq_iff,
}
use mathlib.Core.Option
use example_applications.ContactCentre.Registry.Loops.{
  Modified, here, there, modify-Modified, modify-accepts, modify-refuses,
}
use example_applications.ContactCentre.Registry.{
  LiveCall, CallState, in_call, Registry, is_queued, assign_from, modify, mark_queued, enqueue,
  hold, committed, TransferOutcome, hand_to, Claimant, take_call, claim, drop_first, first, Call,
  adds, queues, holds, transfers, claims, removes, notifies, subscribes, unsubscribes, receives,
  step, run,
}

-- The state and the owner of the first call with the leg.
abbrev pub standing : String → List LiveCall → Option (CallState × String)
standing leg cs =
    Option.map (λ c. (c.state, c.answered_by_agent_id)) (first (λ c. c.leg_id == leg) cs)

standing-assign :
    (leg : String) (n : ℕ) (cs : List LiveCall) → standing leg (assign_from n cs) ≡ standing leg cs
unfolding first assign_from
standing-assign leg n [] = refl
standing-assign leg n (c ∷ cs) =
    ground (arith, standing-assign leg (if is_queued c.state then suc n else n) cs)

standing-append :
    (leg : String) (cs : List LiveCall) (c : LiveCall) {s : CallState × String}
    → standing leg cs ≡ some s
    → standing leg (cs ++ c ∷ []) ≡ some s
unfolding first
standing-append leg [] c e = cc
standing-append leg (d ∷ cs) c {s} e = ground (arith, standing-append leg cs c {s = s})

standing-drop_ne :
    (leg j : String) (cs : List LiveCall) → leg ≢ j → standing j (drop_first leg cs) ≡ standing j cs
unfolding first drop_first
standing-drop_ne leg j [] ne = refl
standing-drop_ne leg j (c ∷ cs) ne =
    ground (arith, standing-drop_ne leg j cs ne, eq_iff c.leg_id leg, eq_iff c.leg_id j)

-- A change of another leg's call, which keeps that leg.
standing-Modified_ne :
    (leg j : String) (f : LiveCall → Option LiveCall) {cs ds : List LiveCall}
    → leg ≢ j
    → ((c d : LiveCall) → f c ≡ some d → d.leg_id ≡ c.leg_id)
    → Modified leg f cs ds
    → standing j ds ≡ standing j cs
unfolding first
standing-Modified_ne leg j f ne keeps (here {c} {d} hit q) =
    ground (arith, keeps c d q, eq_iff d.leg_id j, eq_iff c.leg_id j)
standing-Modified_ne leg j f ne keeps (there miss m) =
    ground (arith, standing-Modified_ne leg j f ne keeps m)

-- A change that keeps the leg, the state and the owner.
standing-Modified :
    (leg j : String) (f : LiveCall → Option LiveCall) {cs ds : List LiveCall}
    → ((c d : LiveCall)
        → f c ≡ some d
        → (d.leg_id ≡ c.leg_id)
          × (d.state ≡ c.state)
          × (d.answered_by_agent_id ≡ c.answered_by_agent_id))
    → Modified leg f cs ds
    → standing j ds ≡ standing j cs
unfolding first
standing-Modified leg j f keeps (here {c} {d} hit q) = ground (arith, keeps c d q)
standing-Modified leg j f keeps (there miss m) = ground (arith, standing-Modified leg j f keeps m)

-- A call that leaves the call of `j` alone: it neither queues, transfers nor removes that leg.
abbrev pub Leaves : String → Call → Type 0
Leaves j (queues leg room) = leg ≢ j
Leaves j (transfers leg o) = leg ≢ j
Leaves j (removes leg) = leg ≢ j
Leaves j _ = Unit

-- The leg's first call is in a call with the agent.
abbrev pub IsOwned : String → String → Registry → Type 0
IsOwned j agent r = standing j r.calls ≡ some (in_call, agent)

committed-IsOwned :
    (j agent : String) (r : Registry) (leg : String) (f : LiveCall → Option LiveCall)
    → ((ds : List LiveCall) → Modified leg f r.calls ds → standing j ds ≡ standing j r.calls)
    → IsOwned j agent r
    → IsOwned j agent (committed r (modify leg f r.calls)).0
unfolding committed
committed-IsOwned j agent r leg f keeps h = elim (Option-cases (modify leg f r.calls)) [
  | inl e ↦ rw (e, committed) h
  | inr (ds, e) ↦ rw (e, committed) (keeps ds (modify-Modified leg f r.calls e) ∙ h)
]

hold_keeps :
    (on : Bool) (playback : String) (c d : LiveCall)
    → hold on playback c ≡ some d
    → (d.leg_id ≡ c.leg_id)
      × (d.state ≡ c.state)
      × (d.answered_by_agent_id ≡ c.answered_by_agent_id)
unfolding hold
hold_keeps on playback c d e = ground arith

hand_to_keeps : (o : TransferOutcome) (c d : LiveCall) → hand_to o c ≡ some d → d.leg_id ≡ c.leg_id
unfolding hand_to
hand_to_keeps o c d e = ground arith

take_call_keeps :
    (a : Claimant) (now : ℕ) (c d : LiveCall) → take_call a now c ≡ some d → d.leg_id ≡ c.leg_id
unfolding take_call
take_call_keeps a now c d e = ground arith

enqueue_keeps : (room : String) (c d : LiveCall) → enqueue room c ≡ some d → d.leg_id ≡ c.leg_id
unfolding enqueue
enqueue_keeps room c d e = ground arith

-- A call that is in a call cannot be claimed.
claim_owned :
    (j agent : String) (r : Registry) (a : Claimant) (now : ℕ)
    → IsOwned j agent r
    → claim r j a now ≡ (r, false)
unfolding claim
claim_owned j agent r a now h = rw (refused, claim)
  where
    refused : modify j (take_call a now) r.calls ≡ none
    refused = modify-refuses j (take_call a now) r.calls (λ c e. ground arith)

claim-IsOwned :
    (j agent : String) (r : Registry) (leg : String) (a : Claimant) (now : ℕ)
    → IsOwned j agent r
    → IsOwned j agent (claim r leg a now).0
unfolding claim
claim-IsOwned j agent r leg a now h = elim (text_cases leg j) [
  | inl same ↦ rw (same, claim_owned j agent r a now h) h
  | inr ne ↦ elim (Option-cases (modify leg (take_call a now) r.calls)) [
    | inl e ↦ rw (e, claim) h
    | inr (ds, e) ↦
        rw (e, claim)
          (standing-assign j 0 ds
            ∙ standing-Modified_ne leg j (take_call a now) ne (take_call_keeps a now)
                (modify-Modified leg (take_call a now) r.calls e)
            ∙ h)
  ]
]

mark_queued-IsOwned :
    (j agent : String) (r : Registry) (leg room : String)
    → leg ≢ j
    → IsOwned j agent r
    → IsOwned j agent (mark_queued r leg room)
unfolding mark_queued
mark_queued-IsOwned j agent r leg room ne h =
    elim (Option-cases (modify leg (enqueue room) r.calls)) [
      | inl e ↦ rw (e, mark_queued) (standing-assign j 0 r.calls ∙ h)
      | inr (ds, e) ↦
          rw (e, mark_queued)
            (standing-assign j 0 ds
              ∙ standing-Modified_ne leg j (enqueue room) ne (enqueue_keeps room)
                  (modify-Modified leg (enqueue room) r.calls e)
              ∙ h)
    ]

step-IsOwned :
    (j agent : String) (r : Registry) (c : Call)
    → Leaves j c
    → IsOwned j agent r
    → IsOwned j agent (step r c)
unfolding step
step-IsOwned j agent r (adds leg from to now) l h = standing-append j r.calls _ h
step-IsOwned j agent r (queues leg room) l h = mark_queued-IsOwned j agent r leg room l h
step-IsOwned j agent r (holds leg on playback) l h =
    committed-IsOwned j agent r leg (hold on playback)
      (λ ds m. standing-Modified leg j (hold on playback) (hold_keeps on playback) m) h
step-IsOwned j agent r (transfers leg o) l h =
    committed-IsOwned j agent r leg (hand_to o)
      (λ ds m. standing-Modified_ne leg j (hand_to o) l (hand_to_keeps o) m) h
step-IsOwned j agent r (claims leg a now) l h = claim-IsOwned j agent r leg a now h
step-IsOwned j agent r (removes leg) l h =
    standing-assign j 0 (drop_first leg r.calls) ∙ standing-drop_ne leg j r.calls l ∙ h
step-IsOwned j agent r notifies l h = h
step-IsOwned j agent r subscribes l h = h
step-IsOwned j agent r (unsubscribes id) l h = h
step-IsOwned j agent r (receives id) l h = h

abbrev pub AllLeave : String → List Call → Type 0
AllLeave j [] = Unit
AllLeave j (c ∷ cs) = Leaves j c × AllLeave j cs

run-IsOwned :
    (j agent : String) (r : Registry) (cs : List Call)
    → AllLeave j cs
    → IsOwned j agent r
    → IsOwned j agent (run r cs)
unfolding run
run-IsOwned j agent r [] l h = h
run-IsOwned j agent r (c ∷ cs) l h =
    run-IsOwned j agent (step r c) cs l.1 (step-IsOwned j agent r c l.0 h)

-- The call after it was taken is the first with its leg, and is in a call with the claimant.
standing-taken :
    (leg : String) (a : Claimant) (now : ℕ) {cs ds : List LiveCall}
    → Modified leg (take_call a now) cs ds
    → standing leg ds ≡ some (in_call, a.agent_id)
unfolding first take_call
standing-taken leg a now (here {c} {d} hit q) = ground (arith, eq_iff d.leg_id leg)
standing-taken leg a now (there {c} miss m) =
    ground (arith, standing-taken leg a now m, eq_iff c.leg_id leg)

claim-true-IsOwned :
    (r : Registry) (leg : String) (a : Claimant) (now : ℕ)
    → (claim r leg a now).1 ≡ true
    → IsOwned leg a.agent_id (claim r leg a now).0
unfolding claim
claim-true-IsOwned r leg a now h = elim (Option-cases (modify leg (take_call a now) r.calls)) [
  | inl e ↦ absurd (ground arith)
  | inr (ds, e) ↦
      rw (e, claim)
        (standing-assign leg 0 ds
          ∙ standing-taken leg a now (modify-Modified leg (take_call a now) r.calls e))
]

taken :
    (a : Claimant) (now : ℕ) (c : LiveCall)
    → is_queued c.state ≡ true
    → (d : LiveCall) × (take_call a now c ≡ some d)
unfolding take_call
taken a now c q = elim (Option-cases (take_call a now c)) [
  | inl e ↦ absurd (ground arith)
  | inr found ↦ found
]

-- One agent wins a queued call. If a claim succeeds, then after any further calls of the handlers
-- that neither queue, transfer nor remove this leg, the leg's call is still in a call with the
-- claimant, and a second claim, by whomever, is refused and changes nothing.
pub one_claim_wins :
    (r : Registry) (leg : String) (a b : Claimant) (now later : ℕ) (cs : List Call)
    → (claim r leg a now).1 ≡ true
    → AllLeave leg cs
    → let s = run (claim r leg a now).0 cs in
      (standing leg s.calls ≡ some (in_call, a.agent_id)) × (claim s leg b later ≡ (s, false))
one_claim_wins r leg a b now later cs won l =
    let owned = run-IsOwned leg a.agent_id _ cs l (claim-true-IsOwned r leg a now won) in
    (owned, claim_owned leg a.agent_id _ b later owned)

-- A claim succeeds if the first call with the leg is queued, and is refused, without a change, if
-- that call is ringing or in a call, or if there is none.
pub claim_decides :
    (r : Registry) (leg : String) (a : Claimant) (now : ℕ)
    → ((c : LiveCall)
        → first (λ x. x.leg_id == leg) r.calls ≡ some c
        → is_queued c.state ≡ true
        → (claim r leg a now).1 ≡ true)
      × (((c : LiveCall)
            → first (λ x. x.leg_id == leg) r.calls ≡ some c
            → is_queued c.state ≡ false)
          → claim r leg a now ≡ (r, false))
unfolding claim take_call
claim_decides r leg a now = (accepts, refuses)
  where
    accepts :
        (c : LiveCall)
        → first (λ x. x.leg_id == leg) r.calls ≡ some c
        → is_queued c.state ≡ true
        → (claim r leg a now).1 ≡ true
    accepts c e q =
        let (d, p) = taken a now c q in
        let (ds, m) = modify-accepts leg (take_call a now) r.calls c d e p in rw (m, claim)

    refuses :
        ((c : LiveCall) → first (λ x. x.leg_id == leg) r.calls ≡ some c → is_queued c.state ≡ false)
        → claim r leg a now ≡ (r, false)
    refuses h =
        rw (modify-refuses leg (take_call a now) r.calls (λ c e. ground (arith, h c e)), claim)
