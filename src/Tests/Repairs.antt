-- ===== src/Tests/Repairs.antt =====
-- The repair of a reservation whose request was started and never completed, a day later.
use conexus.Prelude.{length, min, [], ◌∷◌, ◌≡◌, refl, false, none, some}
use conexus.Text.{codes, text_eq, lower}
use conexus.Clock.{DateTime, days_before_month, since_epoch, age_seconds}
use conexus.Result.{ok}
use conexus.Models.{UsageEvent, Db}
use conexus.Table.Keys.{Distinct}
use conexus.UsageEvents.{UsageArgs, new_event, record_usage_event, usage_event_once}
use conexus.Repair.Stale.{
  stale_rows, min_created, count_stale_reservations, list_stale_reservations,
}
use conexus.Repair.Listing.{first_age, list_matches_count}
use conexus.RequestLog.{StartArgs, started, start_request, finish_request_failure}
use conexus.Reservations.Ledger.{IsBalanced}
use conexus.Repair.{
  dry_run, apply, started_not_completed, force_fail_and_reconcile, ReservationWindowDelta,
  RepairResult, DailyWindowSnapshot, MonthlyWindowSnapshot, classify_and_recommend,
  load_gateway_for_reservation, snap_usage_window, build_delta_for_reservation,
  preview_reconcile_delta,
}
use conexus.Repair.Applying.{
  delta_after, repair_reconcile, repair_with_request, repair_outstanding, repair_stale_reservation,
}
use conexus.Repair.Agreement.{Foretells}
use conexus.Repair.Foretelling.{dry_run-Foretells}
use conexus.Repair.Balanced.{repair-IsBalanced}
use conexus.Tests.{program, noon, reserved, reserved-IsBalanced}

abbrev next_noon : DateTime
next_noon = record { year = 2024; month = 3; day = 1; micros = 43_200_000_000 }

repairs : Unit {0}
unfolding program text_eq lower days_before_month since_epoch age_seconds start_request
    finish_request_failure classify_and_recommend load_gateway_for_reservation snap_usage_window
    build_delta_for_reservation preview_reconcile_delta delta_after repair_reconcile
    repair_with_request repair_outstanding repair_stale_reservation
repairs = tt

abbrev start : StartArgs
start = record {
  request_id = 50;
  project_id = some 1;
  api_key_id = none;
  requested_model = codes "fast";
  limit_reservation_id = some 7;
  gateway_profile_id = none;
  adapter_profile_id = none;
  domain_key = none;
  adaptation_mode = none;
}

abbrev stuck : Db
stuck = start_request noon start reserved

stuck-IsBalanced : IsBalanced stuck
unfolding start_request
stuck-IsBalanced = record {
  requests = reserved-IsBalanced.requests;
  tokens = reserved-IsBalanced.tokens;
  cost = reserved-IsBalanced.cost;
}

abbrev day_before : DailyWindowSnapshot
day_before = record {
  request_count_reserved = 1;
  request_count_completed = 0;
  token_count_reserved = 600;
  token_count_completed = 0;
}

abbrev day_after : DailyWindowSnapshot
day_after = record {
  request_count_reserved = 0;
  request_count_completed = 1;
  token_count_reserved = 0;
  token_count_completed = 0;
}

abbrev month_before : MonthlyWindowSnapshot
month_before = record { cost_reserved = 9_000_000_000; cost_completed = 0 }

abbrev month_after : MonthlyWindowSnapshot
month_after = record { cost_reserved = 0; cost_completed = 0 }

abbrev before : ReservationWindowDelta
before = record {
  daily_before = day_before;
  daily_after = day_before;
  monthly_before = some month_before;
  monthly_after = some month_before;
}

abbrev planned : RepairResult
planned = record {
  reservation_id = 7;
  project_id = 1;
  repair_kind = started_not_completed;
  action = force_fail_and_reconcile;
  applied = false;
  before = before;
  after = some (record before { daily_after = day_after; monthly_after = some month_after });
}

stuck-planned :
    repair_stale_reservation 3600 dry_run next_noon next_noon 7 stuck ≡ ok (some planned, stuck)
unfolding repairs
stuck-planned = refl

dry_run-Foretells_example :
    (stuck ≡ stuck)
    × (planned.applied ≡ false)
    × ((made : RepairResult) × (after : Db) × (repair_stale_reservation 3600 apply next_noon
            next_noon 7 stuck
          ≡ ok (some made, after))
        × Foretells planned made)
dry_run-Foretells_example =
    dry_run-Foretells 3600 next_noon next_noon 7 stuck stuck planned stuck-planned

repair-IsBalanced_example : IsBalanced stuck
repair-IsBalanced_example =
    repair-IsBalanced 3600 dry_run next_noon next_noon 7 stuck stuck (some planned) stuck-IsBalanced
      stuck-planned

list_matches_count_example :
    (length (list_stale_reservations 3600 900 (some 1) 10 next_noon stuck)
      ≡ min 10 (count_stale_reservations 900 (some 1) next_noon stuck).total_count)
    × (first_age (list_stale_reservations 3600 900 (some 1) 10 next_noon stuck)
        ≡ (count_stale_reservations 900 (some 1) next_noon stuck).oldest_age_seconds)
list_matches_count_example = list_matches_count 3600 900 (some 1) 9 next_noon stuck

stuck_is_stale :
    (count_stale_reservations 900 (some 1) next_noon stuck).oldest_age_seconds ≡ some 86_400
unfolding repairs stale_rows min_created count_stale_reservations
stuck_is_stale = refl

-- The usage of the request, reported twice.
abbrev usage : UsageArgs
usage = record {
  provider = codes "openai";
  model = codes "gpt-b";
  prompt_tokens = some 100;
  completion_tokens = some 500;
  cost_usd = some 1_100_000_000;
}

abbrev event : UsageEvent
event = record {
  gateway_request_id = 50;
  project_id = 1;
  provider = codes "openai";
  model = codes "gpt-b";
  requested_model = codes "fast";
  prompt_tokens = 100;
  completion_tokens = 500;
  total_tokens = 600;
  cost_usd = 1_100_000_000;
}

abbrev billed : Db
billed = record stuck { events = event ∷ [] }

stuck-Distinct : Distinct UsageEvent.gateway_request_id stuck.events
unfolding start_request program
stuck-Distinct = tt

stuck-billed : record_usage_event (started noon start) usage stuck ≡ (some event, billed)
unfolding repairs new_event record_usage_event
stuck-billed = refl

usage_event_once_example :
    Distinct UsageEvent.gateway_request_id billed.events
    × (record_usage_event (started noon start) (record usage { cost_usd = none }) billed
        ≡ (some event, billed))
usage_event_once_example =
    usage_event_once (started noon start) usage (record usage { cost_usd = none }) stuck billed
      event stuck-Distinct stuck-billed
