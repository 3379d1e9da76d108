-- ===== src/ContactCentre/Handlers/Calls.antt =====
-- What the other handlers do to the registry of calls, as far as transfers care: no leg of a call that
-- is gone comes back, except with a new call.
use example_applications.Base.{
  ℕ, String, string_eq, ◌≡◌, ◌≢◌, refl, ◌∙◌, ap, false, List, [], ◌∷◌, ◌++◌, arith, Option-cases,
  inl, inr, eq_iff,
}
use example_applications.ContactCentre.Registry
use example_applications.ContactCentre.Registry.{
  LiveCall, Call, adds, queues, holds, transfers, claims, removes, notifies, subscribes,
  unsubscribes, receives, assign_from, assign_positions, add_ringing, modify, enqueue, mark_queued,
  Claimant, take_call, claim, drop_first, remove, subscribe, unsubscribe, broadcast,
}
use example_applications.ContactCentre.Registry.Legs.{
  legs, legs_of, Modified-legs, set_hold-legs, transfer_to-legs,
}
use example_applications.ContactCentre.Registry.Loops.{modify-Modified}
use example_applications.ContactCentre.Transfers.Pending.{has}

assign_from-legs : (n : ℕ) (cs : List LiveCall) → legs (assign_from n cs) ≡ legs cs
unfolding assign_from
assign_from-legs n [] = refl
assign_from-legs n (c ∷ cs) = ap (◌∷◌ c.leg_id) (assign_from-legs _ cs)

mark_queued-legs :
    (r : Registry.Registry) (leg room : String) → legs_of (mark_queued r leg room) ≡ legs_of r
unfolding mark_queued assign_positions broadcast
mark_queued-legs r leg room = elim (Option-cases (modify leg (enqueue room) r.calls)) [
  | inl e ↦ rw (e, mark_queued) (assign_from-legs 0 r.calls)
  | inr (ds, e) ↦
      rw (e, mark_queued)
        (assign_from-legs 0 ds
          ∙ Modified-legs leg (enqueue room) (λ c d p. unfold enqueue in ground arith)
              (modify-Modified leg (enqueue room) r.calls e))
]

claim-legs :
    (r : Registry.Registry) (leg : String) (a : Claimant) (now : ℕ)
    → legs_of (claim r leg a now).0 ≡ legs_of r
unfolding claim assign_positions broadcast
claim-legs r leg a now = elim (Option-cases (modify leg (take_call a now) r.calls)) [
  | inl e ↦ rw (e, claim) refl
  | inr (ds, e) ↦
      rw (e, claim)
        (assign_from-legs 0 ds
          ∙ Modified-legs leg (take_call a now) (λ c d p. unfold take_call in ground arith)
              (modify-Modified leg (take_call a now) r.calls e))
]

has-drop_first :
    (leg gone : String) (cs : List LiveCall)
    → has (legs cs) gone ≡ false
    → has (legs (drop_first leg cs)) gone ≡ false
unfolding drop_first
has-drop_first leg gone [] h = refl
has-drop_first leg gone (c ∷ cs) h = ground (arith, has-drop_first leg gone cs)

has-legs_append :
    (cs : List LiveCall) (c : LiveCall) (gone : String)
    → has (legs cs) gone ≡ false
    → c.leg_id ≢ gone
    → has (legs (cs ++ c ∷ [])) gone ≡ false
has-legs_append [] c gone h new = ground (arith, eq_iff c.leg_id gone)
has-legs_append (x ∷ cs) c gone h new = ground (arith, has-legs_append cs c gone)

-- The call registry gets no call with the leg.
abbrev pub IsNotAdded : String → Call → Type 0
IsNotAdded gone (adds leg from to now) = leg ≢ gone
IsNotAdded gone _ = Unit

pub step-has :
    (r : Registry.Registry) (c : Call) (gone : String)
    → IsNotAdded gone c
    → has (legs_of r) gone ≡ false
    → has (legs_of (Registry.step r c)) gone ≡ false
unfolding Registry.step add_ringing remove assign_positions broadcast subscribe unsubscribe
step-has r (adds leg from to now) gone new h = has-legs_append r.calls _ gone h new
step-has r (queues leg room) gone new h = rw (mark_queued-legs r leg room) h
step-has r (holds leg on playback) gone new h = rw (set_hold-legs r leg on playback) h
step-has r (transfers leg o) gone new h = rw (transfer_to-legs r leg o) h
step-has r (claims leg a now) gone new h = rw (claim-legs r leg a now) h
step-has r (removes leg) gone new h =
    rw (assign_from-legs 0 (drop_first leg r.calls)) (has-drop_first leg gone r.calls h)
step-has r notifies gone new h = h
step-has r subscribes gone new h = h
step-has r (unsubscribes id) gone new h = h
step-has r (receives id) gone new h = h
