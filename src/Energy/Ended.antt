-- ===== src/Energy/Ended.antt =====
-- energy/checkins.py: which responses count, and how a check-in ends.
use personal_secretary.Prelude.{
  ℕ, String, Bool, true, false, not, Option, none, some, ◌&&◌, ◌||◌, ◌≡◌, refl, inl, inr, arith,
  Bool-cases,
}
use personal_secretary.Prelude.Int.{ℤ, leb_ℤ, ltb_ℤ, ◌<ℤ◌}
use personal_secretary.Energy.{
  EnergyConsent, EnergyResponse, EnergyPreferences, SnoozeRequest, SuppressionReason, ActiveCheckIn,
  NotificationDecision, CheckInActionResult, SnoozeResult, Resolved, id_of, respond_by_of,
  snooze_count_of, suppression_reason, mark_missed, completed_unless, respond_to_check_in,
  snooze_check_in, snooze_allowed,
}

abbrev pub is_completed : CheckInActionResult → Bool
is_completed (CheckInActionResult.completed c) = true
is_completed _ = false

abbrev pub is_snoozed : SnoozeResult → Bool
is_snoozed (SnoozeResult.snoozed p) = true
is_snoozed _ = false

marked :
    (prompt : ActiveCheckIn) (response : EnergyResponse)
    → is_completed (completed_unless prompt response (mark_missed prompt response.responded_at))
      ≡ leb_ℤ response.responded_at (respond_by_of prompt)
unfolding mark_missed
marked prompt response = elim (Bool-cases (leb_ℤ response.responded_at (respond_by_of prompt))) [
  | inl e ↦ rw e refl
  | inr e ↦ rw e refl
]

-- A response to an active check-in completes it exactly if the consent is granted, was decided by then,
-- and the response is not after the deadline.
pub respond_to_check_in_exact :
    (prompt : ActiveCheckIn) (response : EnergyResponse) (consent : EnergyConsent)
    → is_completed (respond_to_check_in (NotificationDecision.active prompt) response consent)
      ≡ consent.granted
        && leb_ℤ consent.decided_at response.responded_at
        && leb_ℤ response.responded_at (respond_by_of prompt)
unfolding respond_to_check_in
respond_to_check_in_exact prompt response consent =
    elim (Bool-cases (not consent.granted || ltb_ℤ response.responded_at consent.decided_at)) [
      | inl e ↦ rw e (ground (arith, e))
      | inr e ↦ rw (e, marked prompt response) (ground (arith, e))
    ]

missed_after :
    (prompt : ActiveCheckIn) (at : ℤ)
    → respond_by_of prompt <ℤ at
    → mark_missed prompt at
      ≡ Resolved.missed (record {
        check_in_id = id_of prompt;
        missed_at = respond_by_of prompt;
        snooze_count = snooze_count_of prompt;
      })
unfolding mark_missed
missed_after prompt at late =
    let e : leb_ℤ at (respond_by_of prompt) ≡ false = ground (arith, late) in rw e refl

module _ (local_time : String → ℤ → ℕ) where
  not_snoozed :
      (prompt : ActiveCheckIn) (request : SnoozeRequest) (o : Option SuppressionReason)
      → respond_by_of prompt <ℤ request.acted_at
      → is_snoozed (snooze_allowed local_time prompt request o) ≡ false
  not_snoozed prompt request none late = rw (missed_after prompt request.acted_at late) refl
  not_snoozed prompt request (some reason) late = refl

  -- After its deadline a check-in ends whatever is done: it is resolved as missed at the deadline, a
  -- response does not complete it and a snooze does not keep it.
  pub deadline_ends :
      (prompt : ActiveCheckIn) (rating : ℕ) (preferences : EnergyPreferences)
      (consent : EnergyConsent) (at : ℤ)
      → respond_by_of prompt <ℤ at
      → (mark_missed prompt at
          ≡ Resolved.missed (record {
            check_in_id = id_of prompt;
            missed_at = respond_by_of prompt;
            snooze_count = snooze_count_of prompt;
          }))
        × (is_completed (
              respond_to_check_in
                (NotificationDecision.active prompt)
                (record { rating = rating; responded_at = at })
                consent)
            ≡ false)
        × (is_snoozed (
              snooze_check_in local_time
                (NotificationDecision.active prompt)
                (record { preferences = preferences; consent = consent; acted_at = at }))
            ≡ false)
  unfolding snooze_check_in
  deadline_ends prompt rating preferences consent at late =
      let response : EnergyResponse = record { rating = rating; responded_at = at } in
      let exact = respond_to_check_in_exact prompt response consent in
      (
        missed_after prompt at late,
        ground (arith, exact, late),
        not_snoozed prompt (record { preferences = preferences; consent = consent; acted_at = at })
            (suppression_reason local_time preferences consent at) late,
      )
