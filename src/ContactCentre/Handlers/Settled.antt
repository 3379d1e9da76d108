-- ===== src/ContactCentre/Handlers/Settled.antt =====
-- No transfer that has ended stays registered, while its call lasts.
use mathlib.Core.Path.{subst}
use mathlib.Core.Option
use example_applications.Base.{
  String, ◌==◌, string_eq, ◌≡◌, refl, sym, ap, ◌∙◌, inl, inr, true, false, none, some, List, [],
  ◌∷◌, arith, Bool-cases, Option-cases,
}
use example_applications.ContactCentre.Registry.{
  CallView, LiveCall, Registry, first, lookup_call, TransferOutcome,
}
use example_applications.ContactCentre.Registry.Legs.{
  legs, legs_of, broadcast-legs, set_hold-legs, transfer_to-legs,
}
use example_applications.ContactCentre.Transfers.{Transfer, TransferRegistry, settle, complete}
use example_applications.ContactCentre.Transfers.Pending.{
  has, AreOpen, AreOpenBut, Attempt, complete-Attempt, settle-AreOpen, AreOpenBut-AreOpen,
}
use example_applications.ContactCentre.Handlers.{
  Env, is_done, Reason, World, notify_changed, hold_caller, restore_caller,
}
use example_applications.ContactCentre.Handlers.Flow.{
  settled, joins_call, enlist_target, release_originator, handed_over, finalize,
}
use example_applications.ContactCentre.Handlers.Ends.{
  TransferStep, give_back, after_failed, fails_with, complete_attended, withdraw,
}

-- Every registered transfer rings or consults, unless its call is gone.
abbrev pub IsSound : World → Type 0
IsSound w = AreOpen (legs_of w.reg) w.transfers

-- The handler leaves the transfers and the calls' legs alone.
abbrev pub Frames : World → World → Type 0
Frames w w' = (w'.transfers ≡ w.transfers) × (legs_of w'.reg ≡ legs_of w.reg)

-- The handler settles the transfer, and leaves the calls' legs alone.
pub record Ends (id : String) (w w' : World) : Type 0 where
  pub settles : w'.transfers ≡ settle w.transfers id
  pub keeps_legs : legs_of w'.reg ≡ legs_of w.reg

pub sound :
    {r r' : TransferRegistry} {l l' : List String} → r' ≡ r → l' ≡ l → AreOpen l r → AreOpen l' r'
sound {r' = r'} {l = l} p q h =
    subst (λ (k : List String). AreOpen k r') (sym q)
      (subst (λ (s : TransferRegistry). AreOpen l s) (sym p) h)

pub Frames-IsSound : (w w' : World) → Frames w w' → IsSound w → IsSound w'
Frames-IsSound w w' (p, q) h = sound p q h

pub Ends-IsSound :
    (id : String) (w w' : World)
    → Ends id w w'
    → AreOpenBut id (legs_of w.reg) w.transfers
    → IsSound w'
Ends-IsSound id w w' e h =
    sound e.settles e.keeps_legs (settle-AreOpen (legs_of w.reg) w.transfers id h)

pub hold_caller-Frames :
    (v : Env) (w : World) (call : CallView) (leg : String) → Frames w (hold_caller v w call leg).0
unfolding hold_caller
hold_caller-Frames v w call leg = elim (Option-cases (v.play call.room_id)) [
  | inl p ↦ (ground arith, ground arith)
  | inr (pb, p) ↦ (ground arith, ground (arith, set_hold-legs w.reg call.leg_id true pb))
]

pub restore_caller-Frames :
    (v : Env) (w : World) (call : CallView) (leg : String)
    → Frames w (restore_caller v w call leg).0
unfolding restore_caller
restore_caller-Frames v w call leg =
    (ground arith, ground (arith, set_hold-legs w.reg call.leg_id false ""))

enlist_target-Frames : (w : World) (t : Transfer) → Frames w (enlist_target w t)
unfolding enlist_target joins_call
enlist_target-Frames w t = (ground arith, ground arith)

release_originator-Frames :
    (v : Env) (w : World) (t : Transfer) → Frames w (release_originator v w t)
unfolding release_originator joins_call
release_originator-Frames v w t = (ground arith, ground arith)

pub finalize-Ends :
    (v : Env) (w : World) (t : Transfer) (who name : String) (call : CallView)
    → Ends t.id w (finalize v w t who name call).0
unfolding finalize
finalize-Ends v w t who name call =
    let back = restore_caller-Frames v w call t.from_leg_id in
    let listed = enlist_target-Frames w t in
    let freed = release_originator-Frames v (enlist_target w t) t in
    let moved = release_originator v (enlist_target w t) t in
    let outcome : TransferOutcome = record {
      new_agent_id = who;
      new_agent_name = name;
      new_agent_leg = t.target_leg_id;
    } in
    let passed = transfer_to-legs moved.reg t.call_leg_id outcome in
    let won : Ends t.id w (notify_changed (settled (handed_over moved t who name) t.id)) = record {
      settles = ap (λ r. settle r t.id) (freed.0 ∙ listed.0);
      keeps_legs = broadcast-legs (handed_over moved t who name).reg ∙ passed ∙ freed.1 ∙ listed.1;
    } in
    let lost : Ends t.id w (settled (restore_caller v w call t.from_leg_id).0 t.id) = record {
      settles = ap (λ r. settle r t.id) back.0;
      keeps_legs = back.1;
    } in
    elim (Bool-cases (is_done (v.add_leg t.room_id t.target_leg_id))) [
      | inl p ↦ rw (p, finalize) won
      | inr p ↦ rw (p, finalize) lost
    ]

pub give_back-Frames : (v : Env) (w : World) (t : Transfer) → Frames w (give_back v w t).0
unfolding give_back
give_back-Frames v w t = elim (Option-cases (lookup_call w.reg t.call_leg_id)) [
  | inl p ↦ rw (p, give_back) (refl, refl)
  | inr (call, p) ↦ rw (p, give_back) (restore_caller-Frames v w call _)
]

pub after_failed-Ends :
    (v : Env) (w : World) (t : Transfer) (reason : Reason)
    → Ends t.id w (after_failed v w t reason).0
unfolding after_failed
after_failed-Ends v w t reason =
    let back = give_back-Frames v w t in
    record {
      settles = ap (λ r. settle r t.id) back.0;
      keeps_legs = broadcast-legs (give_back v w t).0.reg ∙ back.1;
    }

-- The world with another registry of transfers.
abbrev pub with_transfers : World → TransferRegistry → World
with_transfers w r = record w { transfers = r }

pub fails_with-IsSound :
    (v : Env) (w : World) (update : Transfer → Transfer) (id : String) (s : TransferStep)
    (reason : Reason)
    → Attempt update (legs_of w.reg) w.transfers id s
    → IsSound w
    → IsSound (fails_with v w s reason).0
unfolding fails_with
fails_with-IsSound v w update id (after, none) reason attempt h = h
fails_with-IsSound v w update id (after, some t) reason (inl (p, q)) h = cc
fails_with-IsSound v w update id (after, some t) reason (inr (u, old, p, q, same, here, rest)) h =
    let e : t.id ≡ id = ground arith in
    Ends-IsSound t.id (with_transfers w after) _
      (after_failed-Ends v (with_transfers w after) t reason)
      (subst (λ i. AreOpenBut i (legs_of w.reg) after) (sym e) rest)

pub withdraw-IsSound :
    (w : World) (update : Transfer → Transfer) (id : String) (s : TransferStep)
    → Attempt update (legs_of w.reg) w.transfers id s
    → IsSound w
    → IsSound (withdraw w s).0
unfolding withdraw
withdraw-IsSound w update id (after, none) attempt h = h
withdraw-IsSound w update id (after, some t) (inl (p, q)) h = cc
withdraw-IsSound w update id (after, some t) (inr (u, old, p, q, same, here, rest)) h =
    let e : t.id ≡ id = ground arith in
    Ends-IsSound t.id (with_transfers w after)
      (notify_changed (settled (with_transfers w after) t.id))
      (record { settles = refl; keeps_legs = broadcast-legs w.reg })
      (subst (λ i. AreOpenBut i (legs_of w.reg) after) (sym e) rest)

-- A call that is not found has no leg.
has-lookup :
    (leg : String) (cs : List LiveCall)
    → Option.map (λ (c : LiveCall). c.view) (first (λ c. c.leg_id == leg) cs) ≡ none
    → has (legs cs) leg ≡ false
unfolding first
has-lookup leg [] h = refl
has-lookup leg (c ∷ cs) h = ground (arith, has-lookup leg cs)

lookup_call-gone :
    (r : Registry) (leg : String) → lookup_call r leg ≡ none → has (legs_of r) leg ≡ false
unfolding lookup_call
lookup_call-gone r leg h = has-lookup leg r.calls h

pub complete_attended-IsSound :
    (v : Env) (w : World) (id : String) → IsSound w → IsSound (complete_attended v w id).0
unfolding complete_attended
complete_attended-IsSound v w id h = elim (complete-Attempt (legs_of w.reg) w.transfers id h) [
  | inl (p, q) ↦ rw (q, complete_attended) h
  | inr (t, old, p, q, same, here, rest) ↦
      let w' = with_transfers w (complete w.transfers id).0 in
      elim (Option-cases (lookup_call w.reg t.call_leg_id)) [
        | inl gone ↦
            rw (p, complete_attended, gone)
              (AreOpenBut-AreOpen id (legs_of w.reg) _ t here (inr (lookup_call-gone w.reg _ gone))
                rest)
        | inr (call, found) ↦
            rw (p, complete_attended, found)
              (Ends-IsSound t.id w' _ (finalize-Ends v w' t _ _ call)
                (subst (λ i. AreOpenBut i (legs_of w.reg) w'.transfers) (sym same) rest))
      ]
]
