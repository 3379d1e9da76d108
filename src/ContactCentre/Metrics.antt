-- ===== src/ContactCentre/Metrics.antt =====
-- cmd/contact-centre/metrics.go: the figures of the supervisor panel. Times are nanoseconds from Go's
-- zero time, which a time that is not set stands for; differences are integers. A figure that is a
-- quotient in Go is its two parts here, and is not rounded.
use example_applications.Base.{
  ℕ, suc, ◌+◌, ◌*◌, ◌/◌, Bool, true, false, not, Option, none, some, List, [], ◌∷◌, ltb,
  if◌then◌else◌,
}
use example_applications.Base.Int.{ℤ, pos, pos_part, sub_ℕ, ◌+ℤ◌, ltb_ℤ}
use example_applications.ContactCentre.Registry.{CallView, is_queued}
use example_applications.ContactCentre.CallLog.{LogEntry, Outcome, abandoned, answered, failed}
pub mod Figures
pub mod Peak

pub record Quotient : Type 0 where
  pub dividend : ℤ
  pub divisor : ℕ

-- `Metrics`
pub record Metrics : Type 0 where
  pub window_seconds : ℕ
  pub sla_threshold_secs : ℕ
  pub service_level_pct : Option Quotient
  pub asa_secs : Option Quotient
  pub aht_secs : Option Quotient
  pub abandon_rate_pct : Option Quotient
  pub longest_wait_secs : ℕ
  pub offered_in_window : ℕ
  pub answered_in_window : ℕ
  pub abandoned_in_window : ℕ

-- The variables of the loops.
pub record Tally : Type 0 where
  pub answered : ℕ
  pub abandoned : ℕ
  pub met_sla : ℕ
  pub wait_sum : ℤ
  pub handle_sum : ℤ
  pub eligible_sla : ℕ
  pub longest : ℤ

abbrev pub nothing : Tally
nothing = record {
  answered = 0;
  abandoned = 0;
  met_sla = 0;
  wait_sum = pos 0;
  handle_sum = pos 0;
  eligible_sla = 0;
  longest = pos 0;
}

abbrev pub time_of : Option ℕ → ℕ
time_of none = 0
time_of (some t) = t

abbrev pub greater : ℤ → ℤ → ℤ
greater longest wait = if ltb_ℤ longest wait then wait else longest

-- The nanoseconds of a second.
abbrev pub second : ℕ
second = 1000000000

-- The `switch`, for an entry in the window.
unfoldable pub grade : ℕ → Tally → LogEntry → Outcome → Tally
grade sla t e answered =
    let wait = sub_ℕ (time_of e.answered_at) e.started_at in
    record t {
      answered = suc t.answered;
      eligible_sla = suc t.eligible_sla;
      wait_sum = t.wait_sum +ℤ wait;
      handle_sum = t.handle_sum +ℤ sub_ℕ e.ended_at (time_of e.answered_at);
      met_sla = if ltb_ℤ (pos sla) wait then t.met_sla else suc t.met_sla;
      longest = greater t.longest wait;
    }
grade sla t e abandoned = record t {
  abandoned = suc t.abandoned;
  eligible_sla = suc t.eligible_sla;
  longest = greater t.longest (sub_ℕ e.ended_at e.started_at);
}
grade sla t e failed = t

-- Whether the entry ended before the window.
abbrev pub is_before : ℕ → ℕ → LogEntry → Bool
is_before now window e = ltb (e.ended_at + window) now

-- The loop over the log.
unfoldable pub tally_log : ℕ → ℕ → ℕ → Tally → List LogEntry → Tally
unfolding grade
tally_log now window sla t [] = t
tally_log now window sla t (e ∷ es) =
    tally_log now window sla (if is_before now window e then t else grade sla t e e.outcome) es

-- The loop over the live calls.
unfoldable pub longest_wait : ℕ → ℤ → List CallView → ℤ
longest_wait now longest [] = longest
longest_wait now longest (c ∷ cs) =
    longest_wait now
      (if is_queued c.state then greater longest (sub_ℕ now c.started_at) else longest) cs

abbrev pub percent : ℕ → ℕ → Quotient
percent part total = record { dividend = pos (100 * part); divisor = total }

abbrev mean_seconds : ℤ → ℕ → Quotient
mean_seconds sum n = record { dividend = sum; divisor = second * n }

-- computeMetrics
unfoldable pub compute_metrics : List CallView → List LogEntry → ℕ → ℕ → ℕ → Metrics
unfolding tally_log longest_wait
compute_metrics active log now window sla =
    let t = tally_log now window sla nothing log in
    let eligible = ltb 0 t.eligible_sla in
    let any_answered = ltb 0 t.answered in
    record {
      window_seconds = window / second;
      sla_threshold_secs = sla / second;
      service_level_pct = if eligible then some (percent t.met_sla t.eligible_sla) else none;
      abandon_rate_pct = if eligible then some (percent t.abandoned t.eligible_sla) else none;
      asa_secs = if any_answered then some (mean_seconds t.wait_sum t.answered) else none;
      aht_secs = if any_answered then some (mean_seconds t.handle_sum t.answered) else none;
      longest_wait_secs = pos_part (longest_wait now t.longest active) / second;
      offered_in_window = t.answered + t.abandoned;
      answered_in_window = t.answered;
      abandoned_in_window = t.abandoned;
    }
