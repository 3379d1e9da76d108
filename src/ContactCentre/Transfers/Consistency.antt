-- ===== src/ContactCentre/Transfers/Consistency.antt =====
-- The two maps of the transfer registry stay in step, whatever the handlers call.
use example_applications.Base.{
  ℕ, String, ◌≡◌, refl, Bool, Option, none, some, List, [], ◌∷◌, arith, lookup, InsertAt, insert_at,
  erase_at, Option-cases, Bool-cases, text_cases, inl, inr,
}
use example_applications.ContactCentre.Transfers.{
  Transfer, TransferRegistry, Request, new_transfer_registry, new_transfer, register, create,
  transition, settle, Call, creates, answers, completes, cancels, fails, settles, step, run,
}

pub record IsConsistent (r : TransferRegistry) : Type 0 where
  pub id_matches : (i : String) (t : Transfer) → lookup i r.by_id ≡ some t → t.id ≡ i
  pub call_known :
      (i : String) (t : Transfer)
      → lookup i r.by_id ≡ some t
      → lookup t.call_leg_id r.by_call ≡ some i
  pub id_known :
      (c i : String)
      → lookup c r.by_call ≡ some i
      → (t : Transfer) × (lookup i r.by_id ≡ some t) × (t.call_leg_id ≡ c)

-- A random id of a new transfer is not in use.
abbrev pub IsFresh : TransferRegistry → Call → Type 0
IsFresh r (creates q (some id) now) = lookup id r.by_id ≡ none
IsFresh r _ = Unit

pub new-IsConsistent : IsConsistent new_transfer_registry
unfolding new_transfer_registry lookup
new-IsConsistent = record {
  id_matches = λ i t h. cc;
  call_known = λ i t h. cc;
  id_known = λ c i h. absurd (cc);
}

register-IsConsistent :
    (r : TransferRegistry) (t : Transfer)
    → lookup t.id r.by_id ≡ none
    → IsConsistent r
    → IsConsistent (register r t).0
unfolding register
register-IsConsistent r t fresh v = elim (Option-cases (lookup t.call_leg_id r.by_call)) [
  | inr (b, e) ↦ rw (e, register) v
  | inl e ↦
      rw (e, register)
        (record {
          id_matches = λ i u h. ground (arith, at_id i, v.id_matches i u);
          call_known = λ i u h. ground (arith, at_id i, at_call u.call_leg_id, v.call_known i u);
          id_known = λ c i h. elim (text_cases t.call_leg_id c) [
            | inl same ↦ (t, ground (arith, at_id i, at_call c), ground (arith, at_call c))
            | inr other ↦
                let (u, p, q) = v.id_known c i (ground (arith, at_call c)) in
                (u, ground (arith, at_id i, p), q)
          ];
        })
]
  where
    at_id : (i : String) → InsertAt t.id i t r.by_id
    at_id i = insert_at t.id i t r.by_id

    at_call : (c : String) → InsertAt t.call_leg_id c t.id r.by_call
    at_call c = insert_at t.call_leg_id c t.id r.by_call

pub create-IsConsistent :
    (r : TransferRegistry) (q : Request) (f : Option String) (now : ℕ)
    → IsFresh r (creates q f now)
    → IsConsistent r
    → IsConsistent (create r q f now).0
unfolding create
create-IsConsistent r q none now h v = ground arith
create-IsConsistent r q (some id) now h v =
    ground (arith, register-IsConsistent r (new_transfer q id now) h v)

-- A transition that keeps a transfer's id and call keeps the maps in step.
pub transition-IsConsistent :
    (guard : Transfer → Bool) (update : Transfer → Transfer) (r : TransferRegistry) (id : String)
    → ((t : Transfer) → ((update t).id ≡ t.id) × ((update t).call_leg_id ≡ t.call_leg_id))
    → IsConsistent r
    → IsConsistent (transition guard update r id).0
unfolding transition
transition-IsConsistent guard update r id keeps v = elim (Option-cases (lookup id r.by_id)) [
  | inl e ↦ rw (e, transition) v
  | inr (t, e) ↦
      rw (e, transition)
        (elim (Bool-cases (guard t)) [
          | inr g ↦ rw g v
          | inl g ↦ rw g (record {
            id_matches =
                λ i u h. ground (arith, at_id t i, keeps t, v.id_matches i t, v.id_matches i u);
            call_known =
                λ i u h. ground (arith, at_id t i, keeps t, v.call_known i t, v.call_known i u);
            id_known = λ c i h.
                let (u, p, q) = v.id_known c i h in
                elim (text_cases id i) [
                  | inl same ↦ (
                    update t,
                    ground (arith, at_id t i),
                    ground (arith, at_id t i, keeps t, p, q),
                  )
                  | inr other ↦ (u, ground (arith, at_id t i, p), q)
                ];
          })
        ])
]
  where
    at_id : (t : Transfer) (i : String) → InsertAt id i (update t) r.by_id
    at_id t i = insert_at id i (update t) r.by_id

pub settle-IsConsistent :
    (r : TransferRegistry) (id : String) → IsConsistent r → IsConsistent (settle r id)
unfolding settle
settle-IsConsistent r id v = elim (Option-cases (lookup id r.by_id)) [
  | inl e ↦ rw (e, settle) v
  | inr (t, e) ↦
      rw (e, settle)
        (record {
          id_matches = λ i u h. ground (arith, erase_at id i r.by_id, v.id_matches i u);
          call_known = λ i u h. ground (
            arith,
            erase_at id i r.by_id,
            v.call_known i u,
            v.call_known id t,
            erase_at t.call_leg_id u.call_leg_id r.by_call,
          );
          id_known = λ c i h.
              let (u, p, q) = v.id_known c i (ground (arith, erase_at t.call_leg_id c r.by_call)) in
              (
                u,
                ground (arith, p, q, erase_at id i r.by_id, erase_at t.call_leg_id c r.by_call),
                q,
              );
        })
]

step-IsConsistent :
    (r : TransferRegistry) (c : Call) → IsFresh r c → IsConsistent r → IsConsistent (step r c)
unfolding step
step-IsConsistent r (creates q f now) h v = create-IsConsistent r q f now h v
step-IsConsistent r (answers id leg) h v = transition-IsConsistent _ _ r id (λ t. (refl, refl)) v
step-IsConsistent r (completes id) h v = transition-IsConsistent _ _ r id (λ t. (refl, refl)) v
step-IsConsistent r (cancels id) h v = transition-IsConsistent _ _ r id (λ t. (refl, refl)) v
step-IsConsistent r (fails id) h v = transition-IsConsistent _ _ r id (λ t. (refl, refl)) v
step-IsConsistent r (settles id) h v = settle-IsConsistent r id v

-- Every id that a schedule creates is fresh when it is created.
abbrev pub AreFresh : TransferRegistry → List Call → Type 0
AreFresh r [] = Unit
AreFresh r (c ∷ cs) = IsFresh r c × AreFresh (step r c) cs

run-IsConsistent :
    (r : TransferRegistry) (cs : List Call)
    → AreFresh r cs
    → IsConsistent r
    → IsConsistent (run r cs)
unfolding run
run-IsConsistent r [] h v = v
run-IsConsistent r (c ∷ cs) h v = run-IsConsistent (step r c) cs h.1 (step-IsConsistent r c h.0 v)

-- After any schedule of racing handlers with fresh ids, the index by call names exactly the
-- registered transfers: each transfer is found under its call, and each indexed call leads to a
-- registered transfer of that call.
pub run_transfers-IsConsistent :
    (cs : List Call)
    → AreFresh new_transfer_registry cs
    → IsConsistent (run new_transfer_registry cs)
run_transfers-IsConsistent cs h = run-IsConsistent new_transfer_registry cs h new-IsConsistent

-- After any such schedule no call has two transfers in flight: registered transfers of one call
-- have one id.
pub one_transfer_per_call :
    (cs : List Call) (i j : String) (t u : Transfer)
    → AreFresh new_transfer_registry cs
    → lookup i (run new_transfer_registry cs).by_id ≡ some t
    → lookup j (run new_transfer_registry cs).by_id ≡ some u
    → t.call_leg_id ≡ u.call_leg_id
    → i ≡ j
one_transfer_per_call cs i j t u h p q e =
    let v = run_transfers-IsConsistent cs h in cc (v.call_known i t p, v.call_known j u q)
