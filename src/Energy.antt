-- ===== src/Energy.antt =====
-- energy/models.py and energy/checkins.py: the check-ins of energy. Times are UTC microseconds, the times
-- of a day are microseconds from midnight; the wall clock of a time zone is an argument. A check-in starts
-- without snoozes, so their count is a natural number.
pub mod Allowed
pub mod Ended
pub mod Examples
use Prim.Native.String.{◌++◌ as text_append}
use personal_secretary.Prelude.{
  ℕ, suc, ◌*◌, String, Bool, true, false, not, Option, none, some, ◌&&◌, ◌||◌, ltb, leb,
  if◌then◌else◌,
}
use personal_secretary.Prelude.Int.{ℤ, pos, ◌+ℤ◌, leb_ℤ, ltb_ℤ}

abbrev pub microseconds_per_minute : ℕ
microseconds_per_minute = 60000000

pub record DailyWindow : Type 0 where
  pub starts_at : ℕ
  pub ends_at : ℕ

pub record EnergyPreferences : Type 0 where
  pub timezone : String
  pub awake_window : DailyWindow
  pub quiet_window : Option DailyWindow
  pub notifications_enabled : Bool
  pub response_window_minutes : ℕ
  pub snooze_minutes : ℕ

pub record EnergyConsent : Type 0 where
  pub granted : Bool
  pub decided_at : ℤ
  pub provenance_id : String

pub record CheckInScheduleRequest : Type 0 where
  pub check_in_id : String
  pub evaluated_at : ℤ

pub record SnoozeRequest : Type 0 where
  pub preferences : EnergyPreferences
  pub consent : EnergyConsent
  pub acted_at : ℤ

pub record EnergyResponse : Type 0 where
  pub rating : ℕ
  pub responded_at : ℤ

pub data SuppressionReason : Type 0 where
  consent_required notifications_disabled outside_awake_window quiet_hours : SuppressionReason

pub record ScheduledCheckIn : Type 0 where
  pub check_in_id : String
  pub scheduled_at : ℤ
  pub respond_by : ℤ
  pub snooze_count : ℕ

pub record SnoozedCheckIn : Type 0 where
  pub check_in_id : String
  pub scheduled_at : ℤ
  pub respond_by : ℤ
  pub snooze_count : ℕ

pub record MissedCheckIn : Type 0 where
  pub check_in_id : String
  pub missed_at : ℤ
  pub snooze_count : ℕ

pub record SuppressedNotification : Type 0 where
  pub check_in_id : String
  pub reason : SuppressionReason

pub record EnergyObservation : Type 0 where
  pub check_in_id : String
  pub rating : ℕ
  pub observed_at : ℤ
  pub provenance_id : String

pub record CompletedCheckIn : Type 0 where
  pub check_in_id : String
  pub observation : EnergyObservation
  pub snooze_count : ℕ

pub data ActiveCheckIn : Type 0 where
  scheduled : ScheduledCheckIn → ActiveCheckIn
  snoozed : SnoozedCheckIn → ActiveCheckIn

pub data NotificationDecision : Type 0 where
  active : ActiveCheckIn → NotificationDecision
  suppressed : SuppressedNotification → NotificationDecision

pub data CheckInActionResult : Type 0 where
  completed : CompletedCheckIn → CheckInActionResult
  missed : MissedCheckIn → CheckInActionResult
  suppressed : SuppressedNotification → CheckInActionResult

pub data SnoozeResult : Type 0 where
  snoozed : SnoozedCheckIn → SnoozeResult
  missed : MissedCheckIn → SnoozeResult
  suppressed : SuppressedNotification → SnoozeResult

-- The prompt that stays, or the missed check-in.
pub data Resolved : Type 0 where
  still : ActiveCheckIn → Resolved
  missed : MissedCheckIn → Resolved

-- The fields that both active check-ins have.
abbrev pub id_of : ActiveCheckIn → String
id_of (ActiveCheckIn.scheduled p) = p.check_in_id
id_of (ActiveCheckIn.snoozed p) = p.check_in_id

abbrev pub respond_by_of : ActiveCheckIn → ℤ
respond_by_of (ActiveCheckIn.scheduled p) = p.respond_by
respond_by_of (ActiveCheckIn.snoozed p) = p.respond_by

abbrev pub snooze_count_of : ActiveCheckIn → ℕ
snooze_count_of (ActiveCheckIn.scheduled p) = p.snooze_count
snooze_count_of (ActiveCheckIn.snoozed p) = p.snooze_count

-- `_contains`
unfoldable pub contains_time : DailyWindow → ℕ → Bool
contains_time window value =
    if ltb window.starts_at window.ends_at
    then leb window.starts_at value && ltb value window.ends_at
    else leb window.starts_at value || ltb value window.ends_at

abbrev pub in_quiet_window : Option DailyWindow → ℕ → Bool
in_quiet_window none value = false
in_quiet_window (some window) value = contains_time window value

abbrev pub minutes_after : ℤ → ℕ → ℤ
minutes_after at minutes = at +ℤ pos (minutes * microseconds_per_minute)

abbrev pub suppression : String → SuppressionReason → SuppressedNotification
suppression check_in_id reason = record { check_in_id = check_in_id; reason = reason }

module _ (local_time : String → ℤ → ℕ) where
  unfoldable pub suppression_reason :
      EnergyPreferences → EnergyConsent → ℤ → Option SuppressionReason
  suppression_reason preferences consent evaluated_at =
      let at = local_time preferences.timezone evaluated_at in
      if not consent.granted || ltb_ℤ evaluated_at consent.decided_at
      then some SuppressionReason.consent_required
      else if not preferences.notifications_enabled
      then some SuppressionReason.notifications_disabled
      else if not (contains_time preferences.awake_window at)
      then some SuppressionReason.outside_awake_window
      else if in_quiet_window preferences.quiet_window at
      then some SuppressionReason.quiet_hours
      else none

  abbrev pub scheduled_unless :
      EnergyPreferences → CheckInScheduleRequest → Option SuppressionReason → NotificationDecision
  scheduled_unless preferences request (some reason) =
      NotificationDecision.suppressed (suppression request.check_in_id reason)
  scheduled_unless preferences request none = NotificationDecision.active (
      ActiveCheckIn.scheduled (record {
        check_in_id = request.check_in_id;
        scheduled_at = request.evaluated_at;
        respond_by = minutes_after request.evaluated_at preferences.response_window_minutes;
        snooze_count = 0;
      }))

  unfoldable pub schedule_check_in :
      EnergyPreferences → EnergyConsent → CheckInScheduleRequest → NotificationDecision
  schedule_check_in preferences consent request =
      scheduled_unless preferences request
        (suppression_reason preferences consent request.evaluated_at)

unfoldable pub mark_missed : ActiveCheckIn → ℤ → Resolved
mark_missed prompt evaluated_at =
    if leb_ℤ evaluated_at (respond_by_of prompt)
    then Resolved.still prompt
    else Resolved.missed (record {
      check_in_id = id_of prompt;
      missed_at = respond_by_of prompt;
      snooze_count = snooze_count_of prompt;
    })

abbrev pub completed_unless : ActiveCheckIn → EnergyResponse → Resolved → CheckInActionResult
completed_unless prompt response (Resolved.missed m) = CheckInActionResult.missed m
completed_unless prompt response (Resolved.still p) = CheckInActionResult.completed (record {
  check_in_id = id_of prompt;
  observation = record {
    check_in_id = id_of prompt;
    rating = response.rating;
    observed_at = response.responded_at;
    provenance_id = text_append "notification:" (id_of prompt);
  };
  snooze_count = snooze_count_of prompt;
})

unfoldable pub respond_to_check_in :
    NotificationDecision → EnergyResponse → EnergyConsent → CheckInActionResult
respond_to_check_in (NotificationDecision.suppressed s) response consent =
    CheckInActionResult.suppressed s
respond_to_check_in (NotificationDecision.active prompt) response consent =
    let done = completed_unless prompt response (mark_missed prompt response.responded_at) in
    if not consent.granted || ltb_ℤ response.responded_at consent.decided_at
    then CheckInActionResult.suppressed
        (suppression (id_of prompt) SuppressionReason.consent_required)
    else done

module _ (local_time : String → ℤ → ℕ) where
  -- The end of `snooze_check_in`, on the reason at the new time.
  abbrev pub snoozed_unless :
      ActiveCheckIn → SnoozeRequest → ℤ → Option SuppressionReason → SnoozeResult
  snoozed_unless prompt request scheduled_at (some reason) = SnoozeResult.missed (record {
    check_in_id = id_of prompt;
    missed_at = scheduled_at;
    snooze_count = suc (snooze_count_of prompt);
  })
  snoozed_unless prompt request scheduled_at none = SnoozeResult.snoozed (record {
    check_in_id = id_of prompt;
    scheduled_at = scheduled_at;
    respond_by = minutes_after scheduled_at request.preferences.response_window_minutes;
    snooze_count = suc (snooze_count_of prompt);
  })

  abbrev pub snooze_target : SnoozeRequest → ℤ
  snooze_target request = minutes_after request.acted_at request.preferences.snooze_minutes

  abbrev pub snooze_resolved : ActiveCheckIn → SnoozeRequest → Resolved → SnoozeResult
  snooze_resolved prompt request (Resolved.missed m) = SnoozeResult.missed m
  snooze_resolved prompt request (Resolved.still p) =
      snoozed_unless prompt request (snooze_target request)
        (suppression_reason local_time request.preferences request.consent (snooze_target request))

  abbrev pub snooze_allowed :
      ActiveCheckIn → SnoozeRequest → Option SuppressionReason → SnoozeResult
  snooze_allowed prompt request (some reason) =
      SnoozeResult.suppressed (suppression (id_of prompt) reason)
  snooze_allowed prompt request none =
      snooze_resolved prompt request (mark_missed prompt request.acted_at)

  unfoldable pub snooze_check_in : NotificationDecision → SnoozeRequest → SnoozeResult
  snooze_check_in (NotificationDecision.suppressed s) request = SnoozeResult.suppressed s
  snooze_check_in (NotificationDecision.active prompt) request =
      snooze_allowed prompt request
        (suppression_reason local_time request.preferences request.consent request.acted_at)
