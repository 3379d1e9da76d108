-- ===== src/ContactCentre/Registry/Snapshots.antt =====
-- The supervisor's and the agents' view of the live calls.
use example_applications.Base.{ℕ, ◌+◌, ◌≡◌, refl, List, [], ◌∷◌, map, arith, length}
use example_applications.ContactCentre.Registry.{
  LiveCall, CallState, ringing, queued, in_call, Registry, Stats, bump_stat, count_stats,
  queued_views, snapshot, queue_snapshot,
}

abbrev total : Stats → ℕ
total s = s.ringing + s.queued + s.in_call

bump_adds :
    (s : Stats) (k : CallState)
    → (total (bump_stat k s) ≡ total s + 1)
      × ((bump_stat queued s).queued ≡ s.queued + 1)
      × ((bump_stat ringing s).queued ≡ s.queued)
      × ((bump_stat in_call s).queued ≡ s.queued)
unfolding bump_stat
bump_adds s ringing = (omega arith, omega arith, refl, refl)
bump_adds s _ = (omega arith, omega arith, refl, refl)

count_adds :
    (s : Stats) (cs : List LiveCall)
    → (total (count_stats s cs) ≡ total s + length cs)
      × ((count_stats s cs).queued ≡ s.queued + length (queued_views cs))
unfolding count_stats queued_views
count_adds s [] = (omega arith, omega arith)
count_adds s (c ∷ cs) = ground (arith, count_adds (bump_stat c.state s) cs, bump_adds s c.state)

length-map {ℓ κ} :
    {A : Type ℓ} {B : Type κ} (f : A → B) (xs : List A) → length (map f xs) ≡ length xs
length-map f [] = refl
length-map f (x ∷ xs) = omega (arith, length-map f xs)

-- The counters of a snapshot agree with its calls: the active calls are those listed, and are the
-- ringing, the queued and the connected ones together; the agents' view lists as many calls as are
-- counted as queued, under the same counters.
pub snapshot_counts :
    (r : Registry)
    → let s = (snapshot r).stats in
      (s.active ≡ length (snapshot r).calls)
      × (s.active ≡ s.ringing + s.queued + s.in_call)
      × (s.queued ≡ length (queue_snapshot r).calls)
      × ((queue_snapshot r).stats ≡ s)
unfolding snapshot queue_snapshot
snapshot_counts r =
    let zero_stats : Stats = record { active = 0; ringing = 0; queued = 0; in_call = 0 } in
    let h = count_adds zero_stats r.calls in
    (
      omega (arith, length-map (λ (c : LiveCall). c.view) r.calls),
      omega (arith, h),
      omega (arith, h),
      refl,
    )
