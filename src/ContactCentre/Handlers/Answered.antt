-- ===== src/ContactCentre/Handlers/Answered.antt =====
-- The answer to a transfer leaves no transfer registered that has ended.
use mathlib.Core.Path.{subst}
use example_applications.Base.{
  String, string_eq, ◌≡◌, refl, sym, inl, inr, Bool, true, false, Option, none, some, List, lookup,
  arith, Bool-cases, Option-cases, if◌then◌else◌,
}
use example_applications.ContactCentre.Registry.{CallView, lookup_call}
use example_applications.ContactCentre.Registry.Legs.{legs_of, broadcast-legs}
use example_applications.ContactCentre.Transfers.{Transfer, is_pending, claim_answer}
use example_applications.ContactCentre.Transfers.Pending.{
  AreOpenBut, claim_answer-Attempt, settle-AreOpen, AreOpenBut-AreOpen, fail-AreOpenBut,
}
use example_applications.ContactCentre.Handlers.{Env, Act, World}
use example_applications.ContactCentre.Handlers.Flow.{
  fail_and_settle, finalize, bring_up_consult, begin_consult, answer_claimed, answer_transfer,
}
use example_applications.ContactCentre.Handlers.Settled.{
  IsSound, sound, Ends-IsSound, finalize-Ends, with_transfers,
}

-- The end of a transfer whose consult or call did not come about.
fail_and_settle-IsSound :
    (w : World) (id : String)
    → AreOpenBut id (legs_of w.reg) w.transfers
    → IsSound (fail_and_settle w id)
fail_and_settle-IsSound w id rest =
    settle-AreOpen (legs_of w.reg) _ id (fail-AreOpenBut id (legs_of w.reg) w.transfers rest)

begin_consult-IsSound :
    (v : Env) (w : World) (t : Transfer)
    → lookup t.id w.transfers.by_id ≡ some t
    → is_pending t.state ≡ true
    → AreOpenBut t.id (legs_of w.reg) w.transfers
    → IsSound (begin_consult v w t).0
unfolding begin_consult
begin_consult-IsSound v w t here waits rest = elim (Bool-cases (bring_up_consult v t).1) [
  | inl p ↦
      rw (p, begin_consult)
        (sound refl (broadcast-legs w.reg)
          (AreOpenBut-AreOpen t.id (legs_of w.reg) w.transfers t here (inl waits) rest))
  | inr p ↦ rw (p, begin_consult) (fail_and_settle-IsSound w t.id rest)
]

by_kind :
    (v : Env) (w : World) (t : Transfer) (who name : String) (call : CallView) (attended : Bool)
    → (attended ≡ true → IsSound (begin_consult v w t).0)
    → IsSound (finalize v w t who name call).0
    → IsSound
        (elim attended as (λ b. World × List Act × Option Transfer) [
          | true ↦ begin_consult v w t
          | false ↦
              let (w', acts, moved) = finalize v w t who name call in
              (w', acts, if moved then some t else none)
        ]).0
by_kind v w t who name call true h k = h refl
by_kind v w t who name call false h k = k

answer_claimed-IsSound :
    (v : Env) (w : World) (t : Transfer) (who name : String)
    → lookup t.id w.transfers.by_id ≡ some t
    → (t.attended ≡ true → is_pending t.state ≡ true)
    → AreOpenBut t.id (legs_of w.reg) w.transfers
    → IsSound (answer_claimed v w t who name).0
unfolding answer_claimed
answer_claimed-IsSound v w t who name here waits rest =
    elim (Option-cases (lookup_call w.reg t.call_leg_id)) [
      | inl p ↦ rw (p, answer_claimed) (fail_and_settle-IsSound w t.id rest)
      | inr (call, p) ↦
          rw (p, answer_claimed)
            (by_kind v w t who name call t.attended
              (λ a. begin_consult-IsSound v w t here (waits a) rest)
              (Ends-IsSound t.id w _ (finalize-Ends v w t who name call) rest))
    ]

pub answer_transfer-IsSound :
    (v : Env) (w : World) (id who name leg : String)
    → IsSound w
    → IsSound (answer_transfer v w id who name leg).0
unfolding answer_transfer
answer_transfer-IsSound v w id who name leg h =
    elim (claim_answer-Attempt (legs_of w.reg) w.transfers id leg h) [
      | inl (p, q) ↦ rw (q, answer_transfer) h
      | inr (t, old, p, q, same, here, rest) ↦
          let w' = with_transfers w (claim_answer w.transfers id leg).0 in
          rw (p, answer_transfer)
            (answer_claimed-IsSound v w' t who name
              (subst (λ i. lookup i w'.transfers.by_id ≡ some t) (sym same) here)
              (λ a. ground arith)
              (subst (λ i. AreOpenBut i (legs_of w.reg) w'.transfers) (sym same) rest))
    ]
