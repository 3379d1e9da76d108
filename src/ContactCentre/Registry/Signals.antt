-- ===== src/ContactCentre/Registry/Signals.antt =====
-- Signals to the subscribers and to the goroutine of a call are never lost.
use example_applications.Base.{
  ℕ, String, nat_eq, ◌≡◌, refl, ◌⊎◌, true, Option, none, some, List, [], ◌∷◌, map, All,
  Option-cases, inl, inr,
}
use example_applications.ContactCentre.Registry.{
  LiveCall, Subscriber, Registry, assign_positions, broadcast, modify, committed, Claimant,
  take_call, claim, Call, adds, queues, holds, transfers, claims, removes, notifies, subscribes,
  unsubscribes, receives, step,
}

-- Every subscriber has a signal to receive.
abbrev pub IsWoken : Registry → Type 0
IsWoken r = All (λ (s : Subscriber). s.trigger ≡ true) r.subs

All-triggered :
    (ss : List Subscriber)
    → All
        (λ (s : Subscriber). s.trigger ≡ true)
        (map {A = Subscriber} (λ s. record s { trigger = true }) ss)
All-triggered [] = tt
All-triggered (s ∷ ss) = (refl, All-triggered ss)

broadcast-IsWoken : (r : Registry) → IsWoken (broadcast r)
unfolding broadcast
broadcast-IsWoken r = All-triggered r.subs

committed_wakes :
    (r : Registry) (o : Option (List LiveCall))
    → ((committed r o).0.calls ≡ r.calls) ⊎ IsWoken (committed r o).0
unfolding committed
committed_wakes r none = inl refl
committed_wakes r (some calls) = inr (broadcast-IsWoken (record r { calls = calls }))

claim_wakes :
    (r : Registry) (leg : String) (a : Claimant) (now : ℕ)
    → ((claim r leg a now).0.calls ≡ r.calls) ⊎ IsWoken (claim r leg a now).0
unfolding claim
claim_wakes r leg a now = elim (Option-cases (modify leg (take_call a now) r.calls)) [
  | inl e ↦ inl (rw (e, claim))
  | inr (ds, e) ↦
      inr (rw (e, claim) (broadcast-IsWoken (assign_positions (record r { calls = ds }))))
]

-- No update is lost: whatever a handler does, either the list of calls is as it was, or every
-- subscriber has a pending signal afterwards, a slow one included.
pub step_wakes : (r : Registry) (c : Call) → ((step r c).calls ≡ r.calls) ⊎ IsWoken (step r c)
unfolding step
step_wakes r (adds leg from to now) = inr (All-triggered r.subs)
step_wakes r (queues leg room) = inr (All-triggered r.subs)
step_wakes r (holds leg on playback) = committed_wakes r _
step_wakes r (transfers leg o) = committed_wakes r _
step_wakes r (claims leg a now) = claim_wakes r leg a now
step_wakes r (removes leg) = inr (All-triggered r.subs)
step_wakes r notifies = inl refl
step_wakes r subscribes = inl refl
step_wakes r (unsubscribes id) = inl refl
step_wakes r (receives id) = inl refl
