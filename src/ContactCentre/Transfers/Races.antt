-- ===== src/ContactCentre/Transfers/Races.antt =====
-- The state machine of one transfer, under handlers that race for it.
use example_applications.Base.{
  ℕ, String, ◌≡◌, refl, ◌≢◌, ◌⊎◌, Bool, true, false, Option, none, some, List, [], ◌∷◌, arith,
  lookup, insert_at, erase_at, Option-cases, Bool-cases, inl, inr,
}
use example_applications.ContactCentre.Transfers.{
  Transfer, TransferState, ringing, consulting, completed, failed, cancelled, answered,
  TransferRegistry, Request, new_transfer, create, transition, is_ringing, is_consulting,
  is_pending, claim_answer, complete, cancel, fail, settle, get, Call, creates, answers, completes,
  cancels, fails, settles, step, run,
}
use example_applications.ContactCentre.Transfers.Consistency.{IsFresh}

-- The moves of one transfer record.
pub data Edge (t u : Transfer) : Type 0 where
  stay : u ≡ t → Edge t u
  answer_blind :
      (leg : String)
      → t.state ≡ ringing
      → t.attended ≡ false
      → u ≡ record t { target_leg_id = leg; state = completed }
      → Edge t u
  answer_attended :
      (leg : String)
      → t.state ≡ ringing
      → t.attended ≡ true
      → u ≡ record t { target_leg_id = leg; state = consulting }
      → Edge t u
  bridge : t.state ≡ consulting → u ≡ record t { state = completed } → Edge t u
  call_off : is_pending t.state ≡ true → u ≡ record t { state = cancelled } → Edge t u
  break_off : is_pending t.state ≡ true → u ≡ record t { state = failed } → Edge t u

transition_at :
    (guard : Transfer → Bool) (update : Transfer → Transfer) (r : TransferRegistry) (id j : String)
    (t : Transfer)
    → lookup j r.by_id ≡ some t
    → ((guard t ≡ true) × (lookup j (transition guard update r id).0.by_id ≡ some (update t)))
      ⊎ (lookup j (transition guard update r id).0.by_id ≡ some t)
unfolding transition
transition_at guard update r id j t h = elim (Option-cases (lookup id r.by_id)) [
  | inl e ↦ inr (rw (e, transition) h)
  | inr (s, e) ↦ elim (Bool-cases (guard s)) [
    | inr g ↦ inr (rw (e, transition, g) h)
    | inl g ↦ elim (insert_at id j (update s) r.by_id) [
      | inl (same, q) ↦ inl (ground arith, rw (e, transition, g) (ground arith))
      | inr (other, q) ↦ inr (rw (e, transition, g) (ground arith))
    ]
  ]
]

moved :
    (guard : TransferState → Bool) (s : TransferState) (r : TransferRegistry) (id j : String)
    (t : Transfer)
    → lookup j r.by_id ≡ some t
    → ((guard t.state ≡ true)
        × (lookup j (transition (λ x. guard x.state) (λ x. record x { state = s }) r id).0.by_id
            ≡ some (record t { state = s })))
      ⊎ (lookup j (transition (λ x. guard x.state) (λ x. record x { state = s }) r id).0.by_id
          ≡ some t)
moved guard s = transition_at (λ x. guard x.state) (λ x. record x { state = s })

create_at :
    (r : TransferRegistry) (q : Request) (f : Option String) (now : ℕ) (j : String) (t : Transfer)
    → IsFresh r (creates q f now)
    → lookup j r.by_id ≡ some t
    → lookup j (create r q f now).0.by_id ≡ some t
unfolding create
create_at r q none now j t fresh h = ground arith
create_at r q (some id) now j t fresh h =
    ground (arith, insert_at id j (new_transfer q id now) r.by_id)

settle_at :
    (r : TransferRegistry) (id j : String) (t : Transfer)
    → id ≢ j
    → lookup j r.by_id ≡ some t
    → lookup j (settle r id).by_id ≡ some t
unfolding settle
settle_at r id j t ne h = ground (arith, erase_at id j r.by_id)

-- A call other than the settling of `j`, and than the creation of a transfer under its id.
abbrev pub Spares : String → Call → Type 0
Spares j (settles id) = id ≢ j
Spares j c = Unit

claim_Edge :
    (r : TransferRegistry) (id leg j : String) (t : Transfer)
    → lookup j r.by_id ≡ some t
    → (u : Transfer) × (lookup j (claim_answer r id leg).0.by_id ≡ some u) × Edge t u
unfolding claim_answer
claim_Edge r id leg j t h =
    elim (transition_at (λ x. is_ringing x.state) (answered leg) r id j t h) [
      | inr e ↦ (t, e, stay refl)
      | inl (g, e) ↦ elim (Bool-cases t.attended) [
        | inl a ↦ (_, e, answer_attended leg (ground arith) a (ground arith))
        | inr a ↦ (_, e, answer_blind leg (ground arith) a (ground arith))
      ]
    ]

-- Whatever one handler does, a registered transfer that the call does not settle stays registered,
-- and its record stays as it is or moves along one edge of the state machine: a ringing transfer is
-- completed (blind) or consulted (attended) by an answer, a consulting one completed, and a ringing
-- or consulting one cancelled or failed. The call's new id, if it creates a transfer, is fresh.
pub step-Edge :
    (r : TransferRegistry) (c : Call) (j : String) (t : Transfer)
    → IsFresh r c
    → Spares j c
    → lookup j r.by_id ≡ some t
    → (u : Transfer) × (lookup j (step r c).by_id ≡ some u) × Edge t u
unfolding step
step-Edge r (creates q f now) j t fresh sp h = (t, create_at r q f now j t fresh h, stay refl)
step-Edge r (answers id leg) j t fresh sp h = claim_Edge r id leg j t h
step-Edge r (completes id) j t fresh sp h = elim (moved is_consulting completed r id j t h) [
  | inr e ↦ (t, e, stay refl)
  | inl (g, e) ↦ (_, e, bridge (ground arith) refl)
]
step-Edge r (cancels id) j t fresh sp h = elim (moved is_pending cancelled r id j t h) [
  | inr e ↦ (t, e, stay refl)
  | inl (g, e) ↦ (_, e, call_off g refl)
]
step-Edge r (fails id) j t fresh sp h = elim (moved is_pending failed r id j t h) [
  | inr e ↦ (t, e, stay refl)
  | inl (g, e) ↦ (_, e, break_off g refl)
]
step-Edge r (settles id) j t fresh sp h = (t, settle_at r id j t sp h, stay refl)

abbrev pub is_over : TransferState → Bool
is_over ringing = false
is_over consulting = false
is_over _ = true

over_stays : (t u : Transfer) → is_over t.state ≡ true → Edge t u → u ≡ t
over_stays t u o (stay e) = e
over_stays t u o (answer_blind leg s a e) = ground arith
over_stays t u o (answer_attended leg s a e) = ground arith
over_stays t u o (bridge s e) = ground arith
over_stays t u o (call_off s e) = ground arith
over_stays t u o (break_off s e) = ground arith

-- A schedule that creates under fresh ids and does not settle `j`.
abbrev pub Spared : String → TransferRegistry → List Call → Type 0
Spared j r [] = Unit
Spared j r (c ∷ cs) = IsFresh r c × Spares j c × Spared j (step r c) cs

over_kept :
    (r : TransferRegistry) (cs : List Call) (j : String) (t : Transfer)
    → Spared j r cs
    → lookup j r.by_id ≡ some t
    → is_over t.state ≡ true
    → lookup j (run r cs).by_id ≡ some t
unfolding run
over_kept r [] j t sp h o = h
over_kept r (c ∷ cs) j t sp h o =
    let (u, e, edge) = step-Edge r c j t sp.0 sp.1 h in
    over_kept (step r c) cs j t sp.2 (rw (← over_stays t u o edge) e) o

-- Who wins the race for a transfer wins for good. Once it is completed, cancelled or failed, then
-- after any further schedule that does not settle it, its record is unchanged and every answer,
-- completion, cancellation and failure of it is refused.
pub winner_takes_all :
    (r : TransferRegistry) (cs : List Call) (j leg : String) (t : Transfer)
    → Spared j r cs
    → lookup j r.by_id ≡ some t
    → is_over t.state ≡ true
    → let s = run r cs in
      (get s j ≡ some t)
      × ((claim_answer s j leg).1 ≡ none)
      × ((complete s j).1 ≡ none)
      × ((cancel s j).1 ≡ none)
      × ((fail s j).1 ≡ none)
unfolding get claim_answer complete cancel fail
winner_takes_all r cs j leg t sp h o =
    let e = over_kept r cs j t sp h o in (e, ground arith, ground arith, ground arith, ground arith)
