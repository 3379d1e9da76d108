-- ===== src/ContactCentre/Handlers/Runs.antt =====
-- Every handler of transfers leaves no transfer registered that has ended, and so does any run of them.
use mathlib.Core.Path.{subst}
use example_applications.Base.{
  ℕ, String, ◌==◌, string_eq, nat_eq, ◌≡◌, ◌≢◌, refl, sym, ap, ◌∙◌, ◌⊎◌, inl, inr, true, false, not,
  ◌||◌, Option, none, some, List, [], ◌∷◌, lookup, arith, Bool-cases, Option-cases, Result, ok, err,
}
use example_applications.ContactCentre.Transfers.{Transfer, is_pending, Request, create, cancel}
use example_applications.ContactCentre.Transfers.Pending.{
  has, cancel-Attempt, settle-AreOpen, create-AreOpen,
}
use example_applications.ContactCentre.Registry.Legs.{legs_of}
use example_applications.ContactCentre.Registry
use example_applications.ContactCentre.Registry.{
  CallView, call_answered_by, Call, adds, queues, holds, transfers, claims, removes, notifies,
  subscribes, unsubscribes, receives,
}
use example_applications.ContactCentre.Handlers.Calls.{IsNotAdded, step-has}
use example_applications.ContactCentre.Transfers.Consistency.{IsConsistent}
use example_applications.ContactCentre.Handlers.Start.{
  Ask, kind_of, request_of, ring_target, ring_named, start_transfer, target_name_of, agent_starts,
  supervisor_starts, Event, agent_asks, supervisor_asks, step, run,
}
use example_applications.ContactCentre.Handlers.{Env, World, Session, hold_caller, supervisor_id}
use example_applications.ContactCentre.Handlers.Flow.{settled}
use example_applications.ContactCentre.Handlers.Ends.{supervisor_ends}
use example_applications.ContactCentre.Handlers.Settled.{
  IsSound, hold_caller-Frames, Frames-IsSound, with_transfers,
}
use example_applications.ContactCentre.Handlers.Start.{
  agent_accepts, supervisor_accepts, refuses, calls_off, completes, expires, customer_leaves,
  agent_leaves, supervisor_leaves, supervisor_hangs_up, calls_change, others_change,
}
use example_applications.ContactCentre.Transfers.{new_transfer_registry}
use example_applications.ContactCentre.Transfers.Consistency.{new-IsConsistent}
use example_applications.ContactCentre.Handlers.Progress.{
  times_out-IsSound, cancel_own-IsSound, rejects-IsSound, complete_own-IsSound,
  agent_answers-IsSound, supervisor_answers-IsSound, agent_disconnects-IsSound,
  supervisor_disconnects-IsSound, customer_hangs_up-IsSound, supervisor_ends-Frames,
}

Result-cases {ℓ κ} :
    {E : Type ℓ} {A : Type κ} (r : Result E A) → ((e : E) × (r ≡ err e)) ⊎ ((a : A) × (r ≡ ok a))
Result-cases (err e) = inl (e, refl)
Result-cases (ok a) = inr (a, refl)

-- A transfer whose caller cannot be put on hold goes at once.
dropped-IsSound :
    (w : World) (id : String)
    → IsSound w
    → IsSound (settled (with_transfers w (cancel w.transfers id).0) id)
dropped-IsSound w id h = elim (cancel-Attempt (legs_of w.reg) w.transfers id h) [
  | inl (p, q) ↦ settle-AreOpen (legs_of w.reg) (cancel w.transfers id).0 id (record {
    consistent = subst IsConsistent (sym p) h.consistent;
    open_others = λ i t ne e. h.all_open i t (ap (λ r. lookup i r.by_id) (sym p) ∙ e);
  })
  | inr (u, old, a, b, same, here, rest) ↦
      settle-AreOpen (legs_of w.reg) (cancel w.transfers id).0 id rest
]

ring_target-IsSound :
    (v : Env) (w : World) (call : CallView) (t : Transfer) (leg : String)
    → IsSound w
    → IsSound (ring_target v w call t leg).0
unfolding ring_target
ring_target-IsSound v w call t leg h =
    let w' = (hold_caller v w call leg).0 in
    let kept = Frames-IsSound w w' (hold_caller-Frames v w call leg) h in
    elim (Option-cases (hold_caller v w call leg).2) [
      | inl p ↦ rw (p, ring_target) (dropped-IsSound w' t.id kept)
      | inr (playback, p) ↦ rw (p, ring_target) kept
    ]

-- The random id of a new transfer is not in use.
abbrev pub IsNew : World → Option String → Type 0
IsNew w none = Unit
IsNew w (some id) = lookup id w.transfers.by_id ≡ none

create_fresh :
    (w : World) (q : Request) (fresh : Option String) (now : ℕ)
    → IsNew w fresh
    → IsSound w
    → IsSound (with_transfers w (create w.transfers q fresh now).0)
create_fresh w q none now n h = create-AreOpen (legs_of w.reg) w.transfers q none now tt h
create_fresh w q (some id) now n h = create-AreOpen (legs_of w.reg) w.transfers q (some id) now n h

ring_named-IsSound :
    (v : Env) (w : World) (call : CallView) (q : Ask) (fresh : Option String) (now : ℕ)
    (found : Result String String)
    → IsNew w fresh
    → IsSound w
    → IsSound (ring_named v w call q fresh now found).0
unfolding ring_named
ring_named-IsSound v w call q fresh now (err text) n h = h
ring_named-IsSound v w call q fresh now (ok name) n h =
    let asked = request_of call q name in
    let made = create_fresh w asked fresh now n h in
    let w' = with_transfers w (create w.transfers asked fresh now).0 in
    elim (Result-cases (create w.transfers asked fresh now).1) [
      | inl (e, d) ↦ rw (d, ring_named) made
      | inr (t, d) ↦ rw (d, ring_named) (ring_target-IsSound v w' call t q.from_leg made)
    ]

start_transfer-IsSound :
    (v : Env) (w : World) (call : CallView) (q : Ask) (fresh : Option String) (now : ℕ)
    → IsNew w fresh
    → IsSound w
    → IsSound (start_transfer v w call q fresh now).0
unfolding start_transfer
start_transfer-IsSound v w call q fresh now n h =
    let found = target_name_of v w q.from_id (kind_of q) q.target in
    let kept = ring_named-IsSound v w call q fresh now found n h in ground arith

agent_starts-IsSound :
    (v : Env) (w : World) (q : Ask) (fresh : Option String) (now : ℕ)
    → IsNew w fresh
    → IsSound w
    → IsSound (agent_starts v w q fresh now).0
unfolding agent_starts
agent_starts-IsSound v w q fresh now n h = elim (Option-cases (call_answered_by w.reg q.from_id)) [
  | inl p ↦ rw (p, agent_starts) h
  | inr (call, p) ↦
      rw (p, agent_starts)
        (start_transfer-IsSound v w call (record q { from_leg = call.answered_agent_leg }) fresh now
          n h)
]

supervisor_starts-IsSound :
    (v : Env) (w : World) (s : Session) (q : Ask) (fresh : Option String) (now : ℕ)
    → IsNew w fresh
    → IsSound w
    → IsSound (supervisor_starts v w s q fresh now).0
unfolding supervisor_starts
supervisor_starts-IsSound v w s q fresh now n h =
    let who = supervisor_id s.username in
    elim (Option-cases (call_answered_by w.reg (supervisor_id s.username))) [
      | inl p ↦ rw (p, supervisor_starts) h
      | inr (call, p) ↦
          elim (Bool-cases (s.leg_id == "" || not (s.leg_id == call.answered_agent_leg))) [
            | inl out ↦ rw (p, supervisor_starts, out) h
            | inr out ↦
                rw (p, supervisor_starts, out)
                  (start_transfer-IsSound v w call
                    (record q { from_id = who; from_name = s.username; from_leg = s.leg_id }) fresh
                    now n h)
          ]
    ]

-- No registered transfer is of the leg.
abbrev pub IsNewLeg : World → String → Type 0
IsNewLeg w leg =
    (i : String) (t : Transfer) → lookup i w.transfers.by_id ≡ some t → leg ≢ t.call_leg_id

-- The random ids of the run are new when they are drawn, and so are the legs of new calls.
abbrev pub IsNewFor : World → Event → Type 0
IsNewFor w (agent_asks q fresh now) = IsNew w fresh
IsNewFor w (supervisor_asks s q fresh now) = IsNew w fresh
IsNewFor w (calls_change (adds leg from to now)) = IsNewLeg w leg
IsNewFor w _ = Unit

abbrev pub AreNew : World → List (Env × Event) → Type 0
AreNew w [] = Unit
AreNew w ((v, e) ∷ es) = IsNewFor w e × AreNew (step v w e).0 es

not_added :
    (w : World) (c : Call) (i : String) (t : Transfer)
    → IsNewFor w (calls_change c)
    → lookup i w.transfers.by_id ≡ some t
    → IsNotAdded t.call_leg_id c
not_added w (adds leg from to now) i t n h = n i t h
not_added w (queues leg room) i t n h = tt
not_added w (holds leg on playback) i t n h = tt
not_added w (transfers leg o) i t n h = tt
not_added w (claims leg a now) i t n h = tt
not_added w (removes leg) i t n h = tt
not_added w notifies i t n h = tt
not_added w subscribes i t n h = tt
not_added w (unsubscribes id) i t n h = tt
not_added w (receives id) i t n h = tt

calls_change-IsSound :
    (w : World) (c : Call)
    → IsNewFor w (calls_change c)
    → IsSound w
    → IsSound (record w { reg = Registry.step w.reg c })
calls_change-IsSound w c n h = record {
  consistent = h.consistent;
  all_open = λ i t e. elim (h.all_open i t e) [
    | inl rings ↦ inl rings
    | inr gone ↦ inr (step-has w.reg c t.call_leg_id (not_added w c i t n e) gone)
  ];
}

step-IsSound : (v : Env) (w : World) (e : Event) → IsNewFor w e → IsSound w → IsSound (step v w e).0
unfolding step
step-IsSound v w (agent_asks q fresh now) n h = agent_starts-IsSound v w q fresh now n h
step-IsSound v w (supervisor_asks s q fresh now) n h =
    supervisor_starts-IsSound v w s q fresh now n h
step-IsSound v w (agent_accepts who name id) n h = agent_answers-IsSound v w who name id h
step-IsSound v w (supervisor_accepts s id) n h = supervisor_answers-IsSound v w s id h
step-IsSound v w (refuses kind target id) n h = rejects-IsSound v w kind target id h
step-IsSound v w (calls_off from id) n h = cancel_own-IsSound v w from id h
step-IsSound v w (completes from id) n h = complete_own-IsSound v w from id h
step-IsSound v w (expires id) n h = times_out-IsSound v w id h
step-IsSound v w (customer_leaves call) n h = customer_hangs_up-IsSound v w call h
step-IsSound v w (agent_leaves agent) n h = agent_disconnects-IsSound v w agent h
step-IsSound v w (supervisor_leaves s) n h = supervisor_disconnects-IsSound v w s h
step-IsSound v w (supervisor_hangs_up s) n h =
    Frames-IsSound w (supervisor_ends w s).0 (supervisor_ends-Frames w s) h
step-IsSound v w (calls_change c) n h = calls_change-IsSound w c n h
step-IsSound v w (others_change agents intercoms sessions active_calls) n h = record {
  consistent = h.consistent;
  all_open = h.all_open;
}

run-IsSound : (es : List (Env × Event)) (w : World) → AreNew w es → IsSound w → IsSound (run w es)
unfolding run
run-IsSound [] w n h = h
run-IsSound ((v, e) ∷ es) w (n, m) h = run-IsSound es (step v w e).0 m (step-IsSound v w e n h)

fresh-IsSound : (w : World) → w.transfers ≡ new_transfer_registry → IsSound w
unfolding new_transfer_registry lookup
fresh-IsSound w e = record {
  consistent = subst IsConsistent (sym e) new-IsConsistent;
  all_open = λ i t h.
      let nothing : lookup i w.transfers.by_id ≡ none = ap (λ r. lookup i r.by_id) e in absurd (cc);
}

-- Whatever the handlers of transfers do, and other handlers to the calls, agents, intercoms and sessions
-- between them, one after another, with any answers of the media server; starting with no transfer
-- at all and drawing ids that are not in use, for transfers and for the legs of new calls: every
-- transfer that is still registered is ringing or in consultation, unless its call is no longer
-- registered.
pub run_leaves_pending :
    (w : World) (es : List (Env × Event))
    → w.transfers ≡ new_transfer_registry
    → AreNew w es
    → (id : String) (t : Transfer) → lookup id (run w es).transfers.by_id ≡ some t
    → (is_pending t.state ≡ true) ⊎ (has (legs_of (run w es).reg) t.call_leg_id ≡ false)
run_leaves_pending w es empty n id t h =
    (run-IsSound es w n (fresh-IsSound w empty)).all_open id t h
