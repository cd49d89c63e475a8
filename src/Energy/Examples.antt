-- ===== src/Energy/Examples.antt =====
-- energy/checkins.py: a check-in that is snoozed twice, and the theorems about it.
use personal_secretary.Prelude.{
  ℕ, String, true, false, some, List, [], ◌∷◌, ◌&&◌, ◌≡◌, refl, All, length, ◌%◌, arith,
}
use personal_secretary.Prelude.Int.{ℤ, pos, negsuc, ◌+ℤ◌, leb_ℤ}
use personal_secretary.Energy.{
  EnergyPreferences, EnergyConsent, EnergyResponse, CheckInScheduleRequest, SnoozeRequest,
  ActiveCheckIn, NotificationDecision, Resolved, id_of, snooze_count_of, contains_time,
  suppression_reason, schedule_check_in, respond_to_check_in, snooze_check_in, mark_missed,
}
use personal_secretary.Energy.Allowed.{Allowed, SnoozeAllowed, snooze_all, schedule-Allowed}
use personal_secretary.Energy.Ended.{
  is_completed, is_snoozed, respond_to_check_in_exact, deadline_ends,
}

-- The day of UTC.
abbrev local_time : String → ℤ → ℕ
local_time zone (pos t) = t % 86400000000
local_time zone (negsuc t) = 0

abbrev preferences : EnergyPreferences
preferences = record {
  timezone = "UTC";
  awake_window = record { starts_at = 25200000000; ends_at = 79200000000 };
  quiet_window = some (record { starts_at = 43200000000; ends_at = 46800000000 });
  notifications_enabled = true;
  response_window_minutes = 45;
  snooze_minutes = 15;
}

abbrev consent : EnergyConsent
consent = record { granted = true; decided_at = pos 0; provenance_id = "p" }

-- Eight o'clock.
abbrev request : CheckInScheduleRequest
request = record { check_in_id = "c"; evaluated_at = pos 28800000000 }

abbrev prompt : ActiveCheckIn
prompt = ActiveCheckIn.scheduled (record {
  check_in_id = "c";
  scheduled_at = pos 28800000000;
  respond_by = pos 31500000000;
  snooze_count = 0;
})

abbrev snoozes : List SnoozeRequest
snoozes =
    record { preferences = preferences; consent = consent; acted_at = pos 28860000000 }
    ∷ record { preferences = preferences; consent = consent; acted_at = pos 30000000000 }
    ∷ []

abbrev snoozed_twice : ActiveCheckIn
snoozed_twice = ActiveCheckIn.snoozed (record {
  check_in_id = "c";
  scheduled_at = pos 30900000000;
  respond_by = pos 33600000000;
  snooze_count = 2;
})

scheduled :
    schedule_check_in local_time preferences consent request ≡ NotificationDecision.active prompt
unfolding schedule_check_in suppression_reason contains_time ◌+ℤ◌
scheduled = refl

snoozed : snooze_all local_time snoozes prompt ≡ some snoozed_twice
unfolding snooze_all snooze_check_in suppression_reason contains_time mark_missed ◌+ℤ◌
snoozed = refl

schedule-Allowed_example :
    Allowed local_time preferences consent (pos 28800000000)
    × All (SnoozeAllowed local_time) snoozes
    × (id_of snoozed_twice ≡ "c")
    × (snooze_count_of snoozed_twice ≡ length snoozes)
schedule-Allowed_example =
    schedule-Allowed local_time preferences consent request snoozes prompt snoozed_twice scheduled
      snoozed

abbrev response : EnergyResponse
response = record { rating = 4; responded_at = pos 28900000000 }

respond_to_check_in_exact_example :
    is_completed (respond_to_check_in (NotificationDecision.active prompt) response consent)
    ≡ true && leb_ℤ (pos 0) (pos 28900000000) && leb_ℤ (pos 28900000000) (pos 31500000000)
respond_to_check_in_exact_example = respond_to_check_in_exact prompt response consent

deadline_ends_example :
    (mark_missed prompt (pos 31500000001)
      ≡ Resolved.missed
          (record { check_in_id = "c"; missed_at = pos 31500000000; snooze_count = 0 }))
    × (is_completed (
          respond_to_check_in
            (NotificationDecision.active prompt)
            (record { rating = 4; responded_at = pos 31500000001 })
            consent)
        ≡ false)
    × (is_snoozed (
          snooze_check_in local_time
            (NotificationDecision.active prompt)
            (record { preferences = preferences; consent = consent; acted_at = pos 31500000001 }))
        ≡ false)
deadline_ends_example =
    deadline_ends local_time prompt 4 preferences consent (pos 31500000001) (omega arith)
