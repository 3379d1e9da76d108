-- ===== src/ContactCentre/Intercoms/Consistency.antt =====
-- The two maps of the intercom registry stay in step, and hold no ended intercom.
use example_applications.Base.{
  ℕ, String, ◌≡◌, refl, false, Option, none, some, List, [], ◌∷◌, arith, lookup, insert, InsertAt,
  insert_at, erase_at, Option-cases, text_cases, inl, inr,
}
use example_applications.ContactCentre.Intercoms.{
  Intercom, IntercomRegistry, Request, Caller, active, is_ended, new_intercom_registry,
  new_intercom, register, create, create_for, claim_answer, drop, reject, end, get, by_agent, Call,
  creates, answers, rejects, ends, step, run,
}

pub record IsConsistent (r : IntercomRegistry) : Type 0 where
  pub id_matches : (i : String) (t : Intercom) → lookup i r.by_id ≡ some t → t.id ≡ i
  pub agent_known :
      (i : String) (t : Intercom)
      → lookup i r.by_id ≡ some t
      → lookup t.agent_id r.by_agent ≡ some i
  pub id_known :
      (a i : String)
      → lookup a r.by_agent ≡ some i
      → (t : Intercom) × (lookup i r.by_id ≡ some t) × (t.agent_id ≡ a)
  pub none_ended :
      (i : String) (t : Intercom) → lookup i r.by_id ≡ some t → is_ended t.state ≡ false

-- A random id of a new intercom is not in use.
abbrev pub IsFresh : IntercomRegistry → Call → Type 0
IsFresh r (creates q (some id) now) = lookup id r.by_id ≡ none
IsFresh r _ = Unit

new-IsConsistent : IsConsistent new_intercom_registry
unfolding new_intercom_registry lookup
new-IsConsistent = record {
  id_matches = λ i t h. cc;
  agent_known = λ i t h. cc;
  id_known = λ c i h. absurd (cc);
  none_ended = λ i t h. cc;
}

register-IsConsistent :
    (r : IntercomRegistry) (t : Intercom)
    → lookup t.id r.by_id ≡ none
    → is_ended t.state ≡ false
    → IsConsistent r
    → IsConsistent (register r t).0
unfolding register
register-IsConsistent r t fresh live v = elim (Option-cases (lookup t.agent_id r.by_agent)) [
  | inr (b, e) ↦ rw (e, register) v
  | inl e ↦
      rw (e, register)
        (record {
          id_matches = λ i u h. ground (arith, at_id i, v.id_matches i u);
          none_ended = λ i u h. ground (arith, at_id i, v.none_ended i u);
          agent_known = λ i u h. ground (arith, at_id i, at_agent u.agent_id, v.agent_known i u);
          id_known = λ a i h. elim (text_cases t.agent_id a) [
            | inl same ↦ (t, ground (arith, at_id i, at_agent a), same)
            | inr other ↦
                let (u, p, q) = v.id_known a i (ground (arith, at_agent a)) in
                (u, ground (arith, at_id i, p), q)
          ];
        })
]
  where
    at_id : (i : String) → InsertAt t.id i t r.by_id
    at_id i = insert_at t.id i t r.by_id

    at_agent : (a : String) → InsertAt t.agent_id a t.id r.by_agent
    at_agent a = insert_at t.agent_id a t.id r.by_agent

create_for-IsConsistent :
    (r : IntercomRegistry) (q : Request) (ag : Caller) (f : Option String) (now : ℕ)
    → IsFresh r (creates q f now)
    → IsConsistent r
    → IsConsistent (create_for r q ag f now).0
unfolding create_for
create_for-IsConsistent r q ag none now h v = ground arith
create_for-IsConsistent r q ag (some id) now h v =
    ground (arith, register-IsConsistent r (new_intercom q ag id now) h refl v)

create-IsConsistent :
    (r : IntercomRegistry) (q : Request) (f : Option String) (now : ℕ)
    → IsFresh r (creates q f now)
    → IsConsistent r
    → IsConsistent (create r q f now).0
unfolding create
create-IsConsistent r q f now h v = elim (Option-cases q.agent) [
  | inl e ↦ rw (e, create) v
  | inr (ag, e) ↦ rw (e, create) (create_for-IsConsistent r q ag f now h v)
]

-- To store a live intercom of the same agent under the id of a registered one.
update-IsConsistent :
    (r : IntercomRegistry) (id : String) (t u : Intercom)
    → lookup id r.by_id ≡ some t
    → u.id ≡ t.id
    → u.agent_id ≡ t.agent_id
    → is_ended u.state ≡ false
    → IsConsistent r
    → IsConsistent (record r { by_id = insert id u r.by_id })
update-IsConsistent r id t u e same_id same_agent live v = record {
  id_matches = λ i w h. ground (arith, at_id i, v.id_matches i t, v.id_matches i w);
  none_ended = λ i w h. ground (arith, at_id i, v.none_ended i w);
  agent_known = λ i w h. ground (arith, at_id i, v.agent_known i t, v.agent_known i w);
  id_known = λ a i h.
      let (w, p, q) = v.id_known a i h in
      elim (text_cases id i) [
        | inl same ↦ (u, ground (arith, at_id i), ground (arith, p, q))
        | inr other ↦ (w, ground (arith, at_id i, p), q)
      ];
}
  where
    at_id : (i : String) → InsertAt id i u r.by_id
    at_id i = insert_at id i u r.by_id

claim_answer-IsConsistent :
    (r : IntercomRegistry) (id leg : String) (now : ℕ)
    → IsConsistent r
    → IsConsistent (claim_answer r id leg now).0
unfolding claim_answer
claim_answer-IsConsistent r id leg now v = elim (Option-cases (lookup id r.by_id)) [
  | inl e ↦ rw (e, claim_answer) v
  | inr (t, e) ↦
      rw (e, claim_answer)
        (ground (
          arith,
          update-IsConsistent r id t
              (record t { state = active; callee_leg = leg; answered_at = some now }) e refl refl
              refl v,
        ))
]

drop-IsConsistent :
    (r : IntercomRegistry) (id : String) (t : Intercom)
    → lookup id r.by_id ≡ some t
    → IsConsistent r
    → IsConsistent (drop r id t).0
unfolding drop
drop-IsConsistent r id t e v = record {
  id_matches = λ i u h. ground (arith, erase_at id i r.by_id, v.id_matches i u);
  none_ended = λ i u h. ground (arith, erase_at id i r.by_id, v.none_ended i u);
  agent_known = λ i u h. ground (
    arith,
    erase_at id i r.by_id,
    v.agent_known i u,
    v.agent_known id t,
    erase_at t.agent_id u.agent_id r.by_agent,
  );
  id_known = λ a i h.
      let (u, p, q) = v.id_known a i (ground (arith, erase_at t.agent_id a r.by_agent)) in
      (u, ground (arith, p, q, erase_at id i r.by_id, erase_at t.agent_id a r.by_agent), q);
}

reject-IsConsistent :
    (r : IntercomRegistry) (id : String) → IsConsistent r → IsConsistent (reject r id).0
unfolding reject
reject-IsConsistent r id v = elim (Option-cases (lookup id r.by_id)) [
  | inl e ↦ rw (e, reject) v
  | inr (t, e) ↦ rw (e, reject) (ground (arith, drop-IsConsistent r id t e v))
]

end-IsConsistent : (r : IntercomRegistry) (id : String) → IsConsistent r → IsConsistent (end r id).0
unfolding end
end-IsConsistent r id v = elim (Option-cases (lookup id r.by_id)) [
  | inl e ↦ rw (e, end) v
  | inr (t, e) ↦ rw (e, end) (ground (arith, drop-IsConsistent r id t e v))
]

step-IsConsistent :
    (r : IntercomRegistry) (c : Call) → IsFresh r c → IsConsistent r → IsConsistent (step r c)
unfolding step
step-IsConsistent r (creates q f now) h v = create-IsConsistent r q f now h v
step-IsConsistent r (answers id leg now) h v = claim_answer-IsConsistent r id leg now v
step-IsConsistent r (rejects id) h v = reject-IsConsistent r id v
step-IsConsistent r (ends id) h v = end-IsConsistent r id v

-- Every id that a schedule creates is fresh when it is created.
abbrev pub AreFresh : IntercomRegistry → List Call → Type 0
AreFresh r [] = Unit
AreFresh r (c ∷ cs) = IsFresh r c × AreFresh (step r c) cs

run-IsConsistent :
    (r : IntercomRegistry) (cs : List Call)
    → AreFresh r cs
    → IsConsistent r
    → IsConsistent (run r cs)
unfolding run
run-IsConsistent r [] h v = v
run-IsConsistent r (c ∷ cs) h v = run-IsConsistent (step r c) cs h.1 (step-IsConsistent r c h.0 v)

-- After any schedule of handlers with fresh ids: each registered intercom is found under its agent,
-- each indexed agent leads to a registered intercom of that agent, and none of them has ended.
pub run_intercoms-IsConsistent :
    (cs : List Call)
    → AreFresh new_intercom_registry cs
    → IsConsistent (run new_intercom_registry cs)
run_intercoms-IsConsistent cs h = run-IsConsistent new_intercom_registry cs h new-IsConsistent

-- After any such schedule an agent is in one intercom at most: the intercom that `by_agent` finds is
-- the only registered one with that agent.
pub by_agent_unique :
    (cs : List Call) (i : String) (t : Intercom)
    → AreFresh new_intercom_registry cs
    → get (run new_intercom_registry cs) i ≡ some t
    → by_agent (run new_intercom_registry cs) t.agent_id ≡ some t
unfolding get by_agent
by_agent_unique cs i t h p =
    let v = run_intercoms-IsConsistent cs h in ground (arith, v.agent_known i t p)
