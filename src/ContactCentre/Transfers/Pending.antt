-- ===== src/ContactCentre/Transfers/Pending.antt =====
-- Which of the registered transfers are still open, as the handlers advance and settle them.
use example_applications.Base.{
  ℕ, String, ◌==◌, string_eq, ◌≡◌, ◌≢◌, refl, ◌⊎◌, inl, inr, Bool, true, false, ◌||◌, Option, none,
  some, List, [], ◌∷◌, lookup, arith, insert_at, erase_at, Option-cases, Bool-cases, text_cases,
}
use example_applications.ContactCentre.Transfers.{
  completed, failed, cancelled, Transfer, TransferRegistry, Request, new_transfer, register, create,
  transition, is_pending, answered, claim_answer, complete, cancel, fail, settle, creates,
}
use example_applications.ContactCentre.Transfers.Consistency.{
  IsConsistent, IsFresh, create-IsConsistent, transition-IsConsistent, settle-IsConsistent,
}

abbrev pub has : List String → String → Bool
has [] leg = false
has (x ∷ xs) leg = x == leg || has xs leg

-- The transfer rings or consults, or its call is not among the legs.
abbrev pub IsOpen : List String → Transfer → Type 0
IsOpen legs t = (is_pending t.state ≡ true) ⊎ (has legs t.call_leg_id ≡ false)

-- The registry is consistent, and every transfer, but the one with the id, is open.
pub record AreOpenBut (id : String) (legs : List String) (r : TransferRegistry) : Type 0 where
  pub consistent : IsConsistent r
  pub open_others : (i : String) (t : Transfer) → i ≢ id → lookup i r.by_id ≡ some t → IsOpen legs t

pub record AreOpen (legs : List String) (r : TransferRegistry) : Type 0 where
  pub consistent : IsConsistent r
  pub all_open : (i : String) (t : Transfer) → lookup i r.by_id ≡ some t → IsOpen legs t

-- What an attempt to advance a transfer does: nothing, or it changes that transfer.
abbrev pub Attempt :
    (Transfer → Transfer)
    → List String
    → TransferRegistry
    → String
    → TransferRegistry × Option Transfer
    → Type 0
Attempt update legs r id (after, result) =
    ((after ≡ r) × (result ≡ none))
    ⊎ ((t u : Transfer) × (result ≡ some t)
        × (t ≡ update u)
        × (t.id ≡ id)
        × (lookup id after.by_id ≡ some t)
        × AreOpenBut id legs after)

transition-Attempt :
    (guard : Transfer → Bool) (update : Transfer → Transfer) (legs : List String)
    (r : TransferRegistry) (id : String)
    → ((t : Transfer) → ((update t).id ≡ t.id) × ((update t).call_leg_id ≡ t.call_leg_id))
    → AreOpen legs r
    → Attempt update legs r id (transition guard update r id)
unfolding transition
transition-Attempt guard update legs r id keeps v =
    let kept = transition-IsConsistent guard update r id keeps v.consistent in
    elim (Option-cases (lookup id r.by_id)) [
      | inl e ↦ inl (rw (e, transition) refl, rw (e, transition) refl)
      | inr (t, e) ↦ elim (Bool-cases (guard t)) [
        | inr g ↦ inl (ground arith, ground arith)
        | inl g ↦ inr (
          update t,
          t,
          ground arith,
          refl,
          ground (arith, keeps t, v.consistent.id_matches id t),
          ground (arith, insert_at id id (update t) r.by_id),
          record {
            consistent = kept;
            open_others =
                λ i u ne h. ground (arith, insert_at id i (update t) r.by_id, v.all_open i u);
          },
        )
      ]
    ]

pub fail-Attempt :
    (legs : List String) (r : TransferRegistry) (id : String)
    → AreOpen legs r
    → Attempt (λ t. record t { state = failed }) legs r id (fail r id)
unfolding fail
fail-Attempt legs r id v = transition-Attempt _ _ legs r id (λ t. (refl, refl)) v

pub cancel-Attempt :
    (legs : List String) (r : TransferRegistry) (id : String)
    → AreOpen legs r
    → Attempt (λ t. record t { state = cancelled }) legs r id (cancel r id)
unfolding cancel
cancel-Attempt legs r id v = transition-Attempt _ _ legs r id (λ t. (refl, refl)) v

pub complete-Attempt :
    (legs : List String) (r : TransferRegistry) (id : String)
    → AreOpen legs r
    → Attempt (λ t. record t { state = completed }) legs r id (complete r id)
unfolding complete
complete-Attempt legs r id v = transition-Attempt _ _ legs r id (λ t. (refl, refl)) v

pub claim_answer-Attempt :
    (legs : List String) (r : TransferRegistry) (id leg : String)
    → AreOpen legs r
    → Attempt (answered leg) legs r id (claim_answer r id leg)
unfolding claim_answer
claim_answer-Attempt legs r id leg v = transition-Attempt _ _ legs r id (λ t. (refl, refl)) v

-- With the exception settled, all are open again.
pub settle-AreOpen :
    (legs : List String) (r : TransferRegistry) (id : String)
    → AreOpenBut id legs r
    → AreOpen legs (settle r id)
unfolding settle
settle-AreOpen legs r id v =
    let consistent = settle-IsConsistent r id v.consistent in
    elim (Option-cases (lookup id r.by_id)) [
      | inl e ↦
          rw (e, settle)
            (record {
              consistent = v.consistent;
              all_open = λ i t h. elim (text_cases i id) [
                | inl same ↦ absurd (ground arith)
                | inr other ↦ v.open_others i t other h
              ];
            })
      | inr (u, e) ↦ record {
        consistent = consistent;
        all_open = λ i t h. ground (arith, erase_at id i r.by_id, v.open_others i t);
      }
    ]

-- The exception is open after all, since its call is gone or it is still pending.
pub AreOpenBut-AreOpen :
    (id : String) (legs : List String) (r : TransferRegistry) (t : Transfer)
    → lookup id r.by_id ≡ some t
    → IsOpen legs t
    → AreOpenBut id legs r
    → AreOpen legs r
AreOpenBut-AreOpen id legs r t here h v = record {
  consistent = v.consistent;
  all_open = λ i u e. elim (text_cases i id) [
    | inl same ↦ elim h [ inl p ↦ inl (ground arith) | inr p ↦ inr (ground arith) ]
    | inr other ↦ v.open_others i u other e
  ];
}

-- A failure leaves the exception the exception.
pub fail-AreOpenBut :
    (id : String) (legs : List String) (r : TransferRegistry)
    → AreOpenBut id legs r
    → AreOpenBut id legs (fail r id).0
unfolding fail transition
fail-AreOpenBut id legs r v =
    let kept =
      transition-IsConsistent (λ t. is_pending t.state) (λ t. record t { state = failed }) r id
        (λ t. (refl, refl)) v.consistent in
    record {
      consistent = kept;
      open_others = λ i t ne h. elim (Option-cases (lookup id r.by_id)) [
        | inl e ↦ v.open_others i t ne (ground arith)
        | inr (u, e) ↦
            v.open_others i t ne
              (ground (arith, insert_at id i (record u { state = failed }) r.by_id))
      ];
    }

pub create-AreOpen :
    (legs : List String) (r : TransferRegistry) (q : Request) (fresh : Option String) (now : ℕ)
    → IsFresh r (creates q fresh now)
    → AreOpen legs r
    → AreOpen legs (create r q fresh now).0
unfolding create register
create-AreOpen legs r q none now h v = ground arith
create-AreOpen legs r q (some id) now h v =
    let consistent = create-IsConsistent r q (some id) now h v.consistent in
    record {
      consistent = consistent;
      all_open =
          λ i t e. ground (arith, insert_at id i (new_transfer q id now) r.by_id, v.all_open i t);
    }
