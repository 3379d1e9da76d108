-- ===== src/Pbx/Dialplan/Gather/Entries.antt =====
-- What an open menu has collected.
use Prim.Native.String.{len}
use example_applications.Base.{
  ℕ, ◌<◌, String, ◌==◌, string_eq, ◌≡◌, refl, ◌⊎◌, inl, inr, Bool, true, false, not, ◌&&◌, ◌||◌,
  Option, none, some, List, [], ◌∷◌, arith, Bool-cases, Option-cases, concat, if◌then◌else◌,
}
use example_applications.Base.Int.{pos_part}
use example_applications.Pbx.Dialplan.Graph.{Graph, Node}
use example_applications.Pbx.Dialplan.Exec
use example_applications.Pbx.Dialplan.Exec.{Env, Outcome}
use example_applications.Pbx.Dialplan.Walk.{walk, start_gather}
use example_applications.Pbx.Dialplan.Speech.{Texts, match_speech}
use example_applications.Pbx.Dialplan.Gather.{
  Request, Handled, gather_has_option, gather_options, closed, leave_menu, gather_submit, enter,
  on_dtmf, expired, on_timeout, on_stt, Event, presses, times_out, says, connects, prompt_ends,
  after, after_walk, step, run,
}
use example_applications.Pbx.Dialplan.Gather.Walks.{
  IsLasting, HoldsNext, walk-Holds, on_connected-Holds, on_prompt_finished-Holds,
}

-- The entry is blank or no wired option, and shorter than a limit that is set.
abbrev pub IsUnfinished : Graph → Exec.Exec → Type 0
IsUnfinished g e =
    ((e.gather_digits ≡ "") ⊎ (gather_has_option g e.gather_node e.gather_digits ≡ false))
    × (0 < pos_part e.gather_num → len e.gather_digits < pos_part e.gather_num)

abbrev IsOpen : Graph → Exec.Exec → Type 0
IsOpen g e = e.gathering ≡ true → IsUnfinished g e

if-IsOpen {ℓ} :
    {A : Type ℓ} (g : Graph) (b : Bool) (x y : Exec.Exec × A)
    → (b ≡ true → IsOpen g x.0)
    → (b ≡ false → IsOpen g y.0)
    → IsOpen g (if b then x else y).0
if-IsOpen g true x y h k = h refl
if-IsOpen g false x y h k = k refl

answer-IsOpen :
    (v : Env) (e : Exec.Exec) (id : String)
    → IsOpen v.graph e
    → IsOpen v.graph (Exec.answer v e id).0
unfolding Exec.answer Exec.reject
answer-IsOpen v e id h = if-IsOpen v.graph v.answer_leg _ _ (λ p. h) (λ p. h)

start_gather-IsOpen :
    (v : Env) (e : Exec.Exec) (n : Node) → IsOpen v.graph e → IsOpen v.graph (start_gather v e n).0
unfolding start_gather
start_gather-IsOpen v e n h =
    if-IsOpen v.graph (not e.answered) _ _ (λ p. answer-IsOpen v e n.id h)
      (λ p o. (inl refl, λ limit. omega arith))

IsOpen-lasting : (v : Env) → IsLasting v (IsOpen v.graph)
IsOpen-lasting v = record {
  wait_on = λ e r a s p n h. h;
  silence = λ e id h. h;
  open_menu = start_gather-IsOpen v;
}

abbrev AfterOpen : Graph → Option Exec.Exec → Type 0
AfterOpen g none = Unit
AfterOpen g (some e) = IsOpen g e

split :
    (g : Graph) (b : Bool) (x y : Handled)
    → (b ≡ false → AfterOpen g (after x))
    → (b ≡ true → AfterOpen g (after y))
    → AfterOpen g (after (elim b [ false ↦ x | true ↦ y ]))
split g true x y h k = k refl
split g false x y h k = h refl

split_option {ℓ} :
    {A : Type ℓ} (g : Graph) (o : Option A) (x : Handled) (f : A → Handled)
    → (o ≡ none → AfterOpen g (after x))
    → ((a : A) → o ≡ some a → AfterOpen g (after (f a)))
    → AfterOpen g (after (elim o [ none ↦ x | some a ↦ f a ]))
split_option g none x f h k = h refl
split_option g (some a) x f h k = k a refl

leave_menu-IsOpen :
    (v : Env) (fuel : ℕ) (e : Exec.Exec) (target : String) (asked : List Request)
    → IsOpen v.graph e
    → AfterOpen v.graph (after (leave_menu v fuel e target asked))
unfolding leave_menu Exec.reject
leave_menu-IsOpen v fuel e target asked h = elim (Bool-cases (target == "")) [
  | inl p ↦ rw (p, leave_menu) h
  | inr p ↦ elim (Option-cases (walk v fuel e target 0)) [
    | inl s ↦ rw (p, s, leave_menu) tt
    | inr (r, s) ↦
        rw (p, s, leave_menu)
          (rw s at (walk-Holds v (IsOpen v.graph) (IsOpen-lasting v) fuel e target 0 h))
  ]
]

gather_submit-IsOpen :
    (v : Env) (fuel : ℕ) (e : Exec.Exec) (value : String) (asked : List Request)
    → AfterOpen v.graph (after (gather_submit v fuel e value asked))
unfolding gather_submit
gather_submit-IsOpen v fuel e value asked =
    split v.graph e.gathering _ _ (λ p o. absurd (ground arith))
      (λ p. leave_menu-IsOpen v fuel (closed e) _ _ (λ o. absurd (ground arith)))

enter-IsOpen :
    (g : Graph) (e : Exec.Exec) (digit : String)
    → IsOpen g e
    → (enter g e digit).1 ≡ none
    → IsOpen g (enter g e digit).0
unfolding enter
enter-IsOpen g e digit h pending =
    let entry = concat e.gather_digits digit in
    elim (Bool-cases (digit == "#")) [
      | inl p ↦ absurd (ground arith)
      | inr p ↦
          rw (p, enter)
            (if-IsOpen g (digit == "*") _ _ (λ q o. (inl refl, λ limit. omega arith))
              λ q o. (inr (ground arith), λ limit. ground arith))
    ]

on_dtmf-IsOpen :
    (v : Env) (fuel : ℕ) (e : Exec.Exec) (digit : String)
    → IsOpen v.graph e
    → AfterOpen v.graph (after (on_dtmf v fuel e digit))
unfolding on_dtmf
on_dtmf-IsOpen v fuel e digit h =
    split v.graph (e.registered && e.gathering) _ _ (λ p. h)
      λ p.
        split v.graph (e.gather_input == "speech") _ _
          (λ q.
            split_option v.graph (enter v.graph e digit).1 _ _
              (λ pending. enter-IsOpen v.graph e digit h pending)
              (λ value r. gather_submit-IsOpen v fuel (enter v.graph e digit).0 value _))
          λ q. h

on_timeout-IsOpen :
    (v : Env) (fuel : ℕ) (e : Exec.Exec) (gen : ℕ)
    → IsOpen v.graph e
    → AfterOpen v.graph (after (on_timeout v fuel e gen))
unfolding on_timeout
on_timeout-IsOpen v fuel e gen h = elim (Option-cases (expired e gen)) [
  | inl p ↦ rw (p, on_timeout) h
  | inr (digits, p) ↦ rw (p, on_timeout) (gather_submit-IsOpen v fuel e digits [])
]

on_stt-IsOpen :
    (v : Env) (x : Texts) (fuel : ℕ) (e : Exec.Exec) (text : String) (is_final : Bool)
    → IsOpen v.graph e
    → AfterOpen v.graph (after (on_stt v x fuel e text is_final))
unfolding on_stt
on_stt-IsOpen v x fuel e text is_final h =
    let hears = e.gather_input == "speech" || e.gather_input == "both" in
    split v.graph (e.registered && (e.gathering && hears)) _ _ (λ p. h)
      λ p.
        split v.graph (not is_final || x.trim_space text == "") _ _
          (λ q.
            split_option v.graph (match_speech x text (gather_options v.graph e.gather_node)) _ _
              (λ r. h) (λ value r. gather_submit-IsOpen v fuel e value []))
          λ q. h

after_walk-IsOpen :
    (v : Env) (r : Option (Exec.Exec × Option Outcome))
    → HoldsNext v (IsOpen v.graph) (IsOpen-lasting v) r
    → AfterOpen v.graph (after_walk r)
after_walk-IsOpen v none h = tt
after_walk-IsOpen v (some (e, o)) h = h

step-IsOpen :
    (v : Env) (fuel : ℕ) (e : Exec.Exec) (x : Event)
    → IsOpen v.graph e
    → AfterOpen v.graph (step v fuel e x)
unfolding step
step-IsOpen v fuel e (presses digit) h = on_dtmf-IsOpen v fuel e digit h
step-IsOpen v fuel e (times_out gen) h = on_timeout-IsOpen v fuel e gen h
step-IsOpen v fuel e (says x text is_final) h = on_stt-IsOpen v x fuel e text is_final h
step-IsOpen v fuel e connects h =
    after_walk-IsOpen v _ (on_connected-Holds v (IsOpen v.graph) (IsOpen-lasting v) fuel e h)
step-IsOpen v fuel e (prompt_ends id) h =
    after_walk-IsOpen v _
      (on_prompt_finished-Holds v (IsOpen v.graph) (IsOpen-lasting v) fuel e id h)

run-IsOpen :
    (v : Env) (fuel : ℕ) (e : Exec.Exec) (xs : List Event)
    → IsOpen v.graph e
    → AfterOpen v.graph (run v fuel e xs)
unfolding run
run-IsOpen v fuel e [] h = h
run-IsOpen v fuel e (x ∷ xs) h = elim (Option-cases (step v fuel e x)) [
  | inl p ↦ rw (p, run) tt
  | inr (e', p) ↦ rw (p, run) (run-IsOpen v fuel e' xs (rw p at (step-IsOpen v fuel e x h)))
]

-- What a menu has collected stays short. After any events of a call, handled one after another from a
-- call with no open menu, an open menu's entry is shorter than its limit of digits, if that is set,
-- and is blank or none of the wired options: an entry that is complete has been submitted.
pub entry_stays_short :
    (v : Env) (fuel : ℕ) (e e' : Exec.Exec) (xs : List Event)
    → e.gathering ≡ false
    → run v fuel e xs ≡ some e'
    → e'.gathering ≡ true
    → IsUnfinished v.graph e'
entry_stays_short v fuel e e' xs shut ran open_now =
    let start : IsOpen v.graph e = λ o. absurd (ground arith) in
    rw ran at (run-IsOpen v fuel e xs start) open_now
