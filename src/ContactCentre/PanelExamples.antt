-- ===== src/ContactCentre/PanelExamples.antt =====
-- The theorems of the supervisor panel at concrete data.
use example_applications.Base.{ℕ, ◌+◌, ◌*◌, ◌/◌, ◌≤◌, ◌≡◌, refl, false, none, some, List, [], ◌∷◌}
use example_applications.Base.Int.{pos_part}
use example_applications.ContactCentre.Registry.{CallView, queued}
use example_applications.ContactCentre.CallLog.{LogEntry, Outcome, abandoned, answered}
use example_applications.ContactCentre.Metrics.{Metrics, second, compute_metrics}
use example_applications.ContactCentre.Metrics.Figures.{
  is_answered, is_abandoned, count_in, IsPercentage, dividend_of, metrics_figures,
}
use example_applications.ContactCentre.Metrics.Peak.{OfQueue, OfLog, metrics_peak}

abbrev ended : Outcome → ℕ → ℕ → ℕ → LogEntry
ended outcome start answer end = record {
  leg_id = "leg";
  from = "";
  to = "";
  started_at = start * second;
  answered_at = some (answer * second);
  ended_at = end * second;
  outcome = outcome;
  agent_id = "";
  agent_name = "";
  transferred_from = "";
  transcript = [];
}

-- One call was answered after five seconds, the other one given up after eight.
abbrev two_ended : List LogEntry
two_ended = ended answered 100 105 130 ∷ ended abandoned 150 0 158 ∷ []

abbrev still_queued : CallView
still_queued = record {
  leg_id = "leg-3";
  from = "";
  to = "";
  state = queued;
  position = 1;
  started_at = 188 * second;
  room_id = "";
  answered_by_agent_id = "";
  answered_by_name = "";
  answered_agent_leg = "";
  answered_at = none;
  on_hold = false;
  hold_playback_id = "";
  transferred_from = "";
}

abbrev panel : Metrics
panel = compute_metrics (still_queued ∷ []) two_ended (200 * second) (150 * second) (6 * second)

metrics_figures_example :
    (panel.answered_in_window ≡ count_in (200 * second) (150 * second) is_answered two_ended)
    × (panel.abandoned_in_window ≡ count_in (200 * second) (150 * second) is_abandoned two_ended)
    × (panel.offered_in_window ≡ panel.answered_in_window + panel.abandoned_in_window)
    × IsPercentage panel.offered_in_window panel.service_level_pct
    × IsPercentage panel.offered_in_window panel.abandon_rate_pct
    × (dividend_of panel.service_level_pct + dividend_of panel.abandon_rate_pct
        ≤ 100 * panel.offered_in_window)
metrics_figures_example =
    metrics_figures (still_queued ∷ []) two_ended (200 * second) (150 * second) (6 * second)

metrics_peak_example :
    OfQueue (λ w. pos_part w / second ≤ panel.longest_wait_secs) (200 * second) (still_queued ∷ [])
    × OfLog
        (λ w. pos_part w / second ≤ panel.longest_wait_secs)
        (200 * second)
        (150 * second)
        two_ended
metrics_peak_example =
    metrics_peak (still_queued ∷ []) two_ended (200 * second) (150 * second) (6 * second)

longest_is_queued : panel.longest_wait_secs ≡ 12
unfolding compute_metrics
longest_is_queued = refl
