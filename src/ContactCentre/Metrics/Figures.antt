-- ===== src/ContactCentre/Metrics/Figures.antt =====
-- The counts and the percentages.
use example_applications.Base.{
  ℕ, ◌+◌, ◌*◌, ◌≤◌, ◌<◌, ◌≡◌, refl, Bool, true, false, not, ◌&&◌, Option, none, some, List, [], ◌∷◌,
  arith, ltb, if◌then◌else◌, Bool-cases, inl, inr,
}
use example_applications.Base.Int.{pos_part}
use example_applications.ContactCentre.Registry.{CallView}
use example_applications.ContactCentre.CallLog.{LogEntry, Outcome, abandoned, answered, failed}
use example_applications.ContactCentre.Metrics.{
  Tally, Quotient, nothing, grade, percent, is_before, tally_log, compute_metrics,
}

abbrev pub is_answered : LogEntry → Bool
is_answered e = elim e.outcome [ answered ↦ true | _ ↦ false ]

abbrev pub is_abandoned : LogEntry → Bool
is_abandoned e = elim e.outcome [ abandoned ↦ true | _ ↦ false ]

-- The number of entries that pass a test, of those that ended in the window.
abbrev pub count_in : ℕ → ℕ → (LogEntry → Bool) → List LogEntry → ℕ
count_in now window p [] = 0
count_in now window p (e ∷ es) =
    (if not (is_before now window e) && p e then 1 else 0) + count_in now window p es

-- The counts of a tally fit together.
abbrev IsSound : Tally → Type 0
IsSound t = (t.eligible_sla ≡ t.answered + t.abandoned) × (t.met_sla ≤ t.answered)

grade-IsSound :
    (sla : ℕ) (t : Tally) (e : LogEntry) (o : Outcome) → IsSound t → IsSound (grade sla t e o)
unfolding grade
grade-IsSound sla t e answered h = ground arith
grade-IsSound sla t e abandoned h = ground arith
grade-IsSound sla t e failed h = h

tally_log-IsSound :
    (now window sla : ℕ) (t : Tally) (es : List LogEntry)
    → IsSound t
    → IsSound (tally_log now window sla t es)
unfolding tally_log
tally_log-IsSound now window sla t [] h = h
tally_log-IsSound now window sla t (e ∷ es) h = elim (Bool-cases (is_before now window e)) [
  | inl p ↦ rw (p, tally_log) (tally_log-IsSound now window sla t es h)
  | inr p ↦
      rw (p, tally_log)
        (tally_log-IsSound now window sla (grade sla t e e.outcome) es
          (grade-IsSound sla t e e.outcome h))
]

abbrev Counts : ℕ → ℕ → Tally → Tally → List LogEntry → Type 0
Counts now window t t' es =
    (t'.answered ≡ t.answered + count_in now window is_answered es)
    × (t'.abandoned ≡ t.abandoned + count_in now window is_abandoned es)

grade_adds :
    (sla : ℕ) (t : Tally) (e : LogEntry) (o : Outcome)
    → e.outcome ≡ o
    → ((grade sla t e o).answered ≡ t.answered + (if is_answered e then 1 else 0))
      × ((grade sla t e o).abandoned ≡ t.abandoned + (if is_abandoned e then 1 else 0))
unfolding grade
grade_adds sla t e answered h = rw h (omega arith, omega arith)
grade_adds sla t e abandoned h = rw h (omega arith, omega arith)
grade_adds sla t e failed h = rw h (omega arith, omega arith)

tally_log-Counts :
    (now window sla : ℕ) (t : Tally) (es : List LogEntry)
    → Counts now window t (tally_log now window sla t es) es
unfolding tally_log
tally_log-Counts now window sla t [] = (omega arith, omega arith)
tally_log-Counts now window sla t (e ∷ es) = elim (Bool-cases (is_before now window e)) [
  | inl p ↦
      let rest = tally_log-Counts now window sla t es in
      rw (p, tally_log) (omega arith, omega arith)
  | inr p ↦
      let here = grade_adds sla t e e.outcome refl in
      let rest = tally_log-Counts now window sla (grade sla t e e.outcome) es in
      rw (p, tally_log) (omega arith, omega arith)
]

abbrev pub IsPercentage : ℕ → Option Quotient → Type 0
IsPercentage total none = total ≡ 0
IsPercentage total (some q) =
    (0 < total) × (q.divisor ≡ total) × (pos_part q.dividend ≤ 100 * total)

abbrev pub dividend_of : Option Quotient → ℕ
dividend_of none = 0
dividend_of (some q) = pos_part q.dividend

percent-IsPercentage :
    (part total n : ℕ)
    → n ≡ total
    → part ≤ total
    → IsPercentage total (if ltb 0 n then some (percent part n) else none)
percent-IsPercentage part total n e h = elim (Bool-cases (ltb 0 n)) [
  | inl p ↦ rw p (ground arith, e, omega arith)
  | inr p ↦ rw p (ground arith)
]

dividend-le :
    (part n : ℕ) → dividend_of (if ltb 0 n then some (percent part n) else none) ≤ 100 * part
dividend-le part n = elim (Bool-cases (ltb 0 n)) [
  | inl p ↦ rw p (omega arith)
  | inr p ↦ rw p (omega arith)
]

-- The panel counts what it says: the answered and the abandoned calls of the window, whose sum is
-- the offered ones. Both percentages are of the offered calls, are there exactly if there is one,
-- and are at most 100, also together: no call is both within the service level and abandoned.
pub metrics_figures :
    (active : List CallView) (log : List LogEntry) (now window sla : ℕ)
    → let m = compute_metrics active log now window sla in
      (m.answered_in_window ≡ count_in now window is_answered log)
      × (m.abandoned_in_window ≡ count_in now window is_abandoned log)
      × (m.offered_in_window ≡ m.answered_in_window + m.abandoned_in_window)
      × IsPercentage m.offered_in_window m.service_level_pct
      × IsPercentage m.offered_in_window m.abandon_rate_pct
      × (dividend_of m.service_level_pct + dividend_of m.abandon_rate_pct
          ≤ 100 * m.offered_in_window)
unfolding compute_metrics
metrics_figures active log now window sla =
    let t = tally_log now window sla nothing log in
    let sound = tally_log-IsSound now window sla nothing log (refl, omega arith) in
    let counts = tally_log-Counts now window sla nothing log in
    (
      omega arith,
      omega arith,
      refl,
      percent-IsPercentage t.met_sla _ t.eligible_sla sound.0 (omega arith),
      percent-IsPercentage t.abandoned _ t.eligible_sla sound.0 (omega arith),
      omega (arith, dividend-le t.met_sla t.eligible_sla, dividend-le t.abandoned t.eligible_sla),
    )
