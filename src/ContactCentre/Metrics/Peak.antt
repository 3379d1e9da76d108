-- ===== src/ContactCentre/Metrics/Peak.antt =====
-- The longest wait on the panel.
use example_applications.Base.{
  ℕ, ◌≤◌, ◌/◌, ◌≡◌, refl, true, false, List, [], ◌∷◌, All, arith, if◌then◌else◌, Bool-cases, inl,
  inr,
}
use example_applications.Base.Int.{ℤ, pos, negsuc, pos_part, sub_ℕ, ◌≤ℤ◌}
use example_applications.ContactCentre.Registry.{CallView, is_queued}
use example_applications.ContactCentre.CallLog.{LogEntry, Outcome, abandoned, answered, failed}
use example_applications.ContactCentre.Metrics.{
  Tally, nothing, time_of, greater, second, grade, is_before, tally_log, longest_wait,
  compute_metrics,
}

-- How long the caller of an ended call waited; an entry that failed says nothing of it.
abbrev pub wait_of : LogEntry → ℤ
wait_of e = elim e.outcome [
  | answered ↦ sub_ℕ (time_of e.answered_at) e.started_at
  | abandoned ↦ sub_ℕ e.ended_at e.started_at
  | failed ↦ pos 0
]

-- The wait of every live call that is queued, and of every entry of the window, has the property.
abbrev pub OfQueue : (ℤ → Type 0) → ℕ → List CallView → Type 0
OfQueue P now active =
    All (λ (c : CallView). is_queued c.state ≡ true → P (sub_ℕ now c.started_at)) active

abbrev pub OfLog : (ℤ → Type 0) → ℕ → ℕ → List LogEntry → Type 0
OfLog P now window log = All (λ (e : LogEntry). is_before now window e ≡ false → P (wait_of e)) log

OfQueue-map :
    (P Q : ℤ → Type 0)
    → ((w : ℤ) → P w → Q w)
    → (now : ℕ) (cs : List CallView) → OfQueue P now cs
    → OfQueue Q now cs
OfQueue-map P Q f now [] h = tt
OfQueue-map P Q f now (c ∷ cs) (h, hs) = (λ p. f _ (h p), OfQueue-map P Q f now cs hs)

OfLog-map :
    (P Q : ℤ → Type 0)
    → ((w : ℤ) → P w → Q w)
    → (now window : ℕ) (es : List LogEntry) → OfLog P now window es
    → OfLog Q now window es
OfLog-map P Q f now window [] h = tt
OfLog-map P Q f now window (e ∷ es) (h, hs) = (λ p. f _ (h p), OfLog-map P Q f now window es hs)

longest_wait-ge :
    (now : ℕ) (longest : ℤ) (cs : List CallView) → longest ≤ℤ longest_wait now longest cs
unfolding longest_wait
longest_wait-ge now longest [] = omega arith
longest_wait-ge now longest (c ∷ cs) = elim (Bool-cases (is_queued c.state)) [
  | inl p ↦
      rw (p, longest_wait)
        (let rest = longest_wait-ge now (greater longest (sub_ℕ now c.started_at)) cs in
          ground arith)
  | inr p ↦ rw (p, longest_wait) (longest_wait-ge now longest cs)
]

longest_wait-OfQueue :
    (now : ℕ) (longest : ℤ) (cs : List CallView)
    → OfQueue (λ w. w ≤ℤ longest_wait now longest cs) now cs
unfolding longest_wait
longest_wait-OfQueue now longest [] = tt
longest_wait-OfQueue now longest (c ∷ cs) =
    let next = if is_queued c.state then greater longest (sub_ℕ now c.started_at) else longest in
    (
      λ p.
          let rest = longest_wait-ge now (greater longest (sub_ℕ now c.started_at)) cs in
          rw p (ground arith),
      longest_wait-OfQueue now next cs,
    )

grade-ge :
    (sla : ℕ) (t : Tally) (e : LogEntry) (o : Outcome) → t.longest ≤ℤ (grade sla t e o).longest
unfolding grade
grade-ge sla t e answered = ground arith
grade-ge sla t e abandoned = ground arith
grade-ge sla t e failed = omega arith

tally_log-ge :
    (now window sla : ℕ) (t : Tally) (es : List LogEntry)
    → t.longest ≤ℤ (tally_log now window sla t es).longest
unfolding tally_log
tally_log-ge now window sla t [] = omega arith
tally_log-ge now window sla t (e ∷ es) = elim (Bool-cases (is_before now window e)) [
  | inl p ↦ rw (p, tally_log) (tally_log-ge now window sla t es)
  | inr p ↦
      let here = grade-ge sla t e e.outcome in
      let rest = tally_log-ge now window sla (grade sla t e e.outcome) es in
      rw (p, tally_log) (omega arith)
]

grade-wait :
    (sla : ℕ) (t : Tally) (e : LogEntry) (o : Outcome)
    → e.outcome ≡ o
    → pos 0 ≤ℤ t.longest
    → wait_of e ≤ℤ (grade sla t e o).longest
unfolding grade
grade-wait sla t e answered h z = rw h (ground arith)
grade-wait sla t e abandoned h z = rw h (ground arith)
grade-wait sla t e failed h z = rw h z

tally_log-OfLog :
    (now window sla : ℕ) (t : Tally) (es : List LogEntry)
    → pos 0 ≤ℤ t.longest
    → OfLog (λ w. w ≤ℤ (tally_log now window sla t es).longest) now window es
unfolding tally_log
tally_log-OfLog now window sla t [] z = tt
tally_log-OfLog now window sla t (e ∷ es) z =
    let next : Tally = if is_before now window e then t else grade sla t e e.outcome in
    let grown = grade-ge sla t e e.outcome in
    let here = grade-wait sla t e e.outcome refl z in
    let rest = tally_log-ge now window sla (grade sla t e e.outcome) es in
    let still : pos 0 ≤ℤ next.longest = elim (Bool-cases (is_before now window e)) [
      | inl p ↦ rw p z
      | inr p ↦ rw p (omega arith)
    ] in
    (λ q. rw (q, tally_log) (omega arith), tally_log-OfLog now window sla next es still)

in_seconds : (w longest : ℤ) → w ≤ℤ longest → pos_part w / second ≤ pos_part longest / second
in_seconds (pos w) (pos longest) h = omega arith
in_seconds (pos w) (negsuc longest) h = omega arith
in_seconds (negsuc w) longest h = omega arith

-- The panel's longest wait is a bound: no queued caller has waited longer, and no call that ended in
-- the window, answered or abandoned, did, in whole seconds.
pub metrics_peak :
    (active : List CallView) (log : List LogEntry) (now window sla : ℕ)
    → let longest = (compute_metrics active log now window sla).longest_wait_secs in
      OfQueue (λ w. pos_part w / second ≤ longest) now active
      × OfLog (λ w. pos_part w / second ≤ longest) now window log
unfolding compute_metrics
metrics_peak active log now window sla =
    let t = tally_log now window sla nothing log in
    let peak = longest_wait now t.longest active in
    let later = longest_wait-ge now t.longest active in
    (
      OfQueue-map (λ w. w ≤ℤ peak) _ (λ w h. in_seconds w peak h) now active
          (longest_wait-OfQueue now t.longest active),
      OfLog-map (λ w. w ≤ℤ t.longest) _ (λ w h. in_seconds w peak (omega arith)) now window log
          (tally_log-OfLog now window sla nothing log (omega arith)),
    )
