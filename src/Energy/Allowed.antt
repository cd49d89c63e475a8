-- ===== src/Energy/Allowed.antt =====
-- energy/checkins.py: when a check-in may be shown, through any number of snoozes.
use personal_secretary.Prelude.{
  true, false, ◌≤◌, ◌<◌, ◌⊎◌, ◌||◌, inl, inr, Bool-cases, ltb, leb, ℕ, suc, ◌+◌, String, not,
  Option, none, some, List, [], ◌∷◌, ◌≡◌, ◌≢◌, refl, sym, ap, ◌∙◌, arith, All, length,
}
use personal_secretary.Prelude.Int.{ℤ, ◌≤ℤ◌, ltb_ℤ, ltb_ℤ→ge}
use personal_secretary.Energy.{
  DailyWindow, in_quiet_window, EnergyPreferences, EnergyConsent, CheckInScheduleRequest,
  SnoozeRequest, SuppressionReason, ActiveCheckIn, NotificationDecision, SnoozeResult, Resolved,
  id_of, snooze_count_of, contains_time, suppression_reason, scheduled_unless, schedule_check_in,
  mark_missed, snoozed_unless, snooze_target, snooze_resolved, snooze_allowed, snooze_check_in,
}

-- Of a daily window and the one with its ends exchanged, exactly one contains each time of the day, also
-- when one of them crosses midnight.
pub contains_time_complement :
    (starts ends value : ℕ)
    → starts ≢ ends
    → contains_time (record { starts_at = ends; ends_at = starts }) value
      ≡ not (contains_time (record { starts_at = starts; ends_at = ends }) value)
unfolding contains_time
contains_time_complement starts ends value differ = ground (arith, differ)

-- A time of the day in a daily window, which crosses midnight if it does not end after it starts.
abbrev pub Within : DailyWindow → ℕ → Type 0
Within window value =
    ((window.starts_at < window.ends_at) × (window.starts_at ≤ value) × (value < window.ends_at))
    ⊎ ((window.ends_at ≤ window.starts_at)
        × ((window.starts_at ≤ value) ⊎ (value < window.ends_at)))

abbrev pub Outside : Option DailyWindow → ℕ → Type 0
Outside none value = Unit
Outside (some window) value = ¬ Within window value

contains_time-Within :
    (window : DailyWindow) (value : ℕ) → contains_time window value ≡ true → Within window value
unfolding contains_time
contains_time-Within window value h = elim (Bool-cases (ltb window.starts_at window.ends_at)) [
  | inl e ↦ inl (ground (arith, e), ground (arith, h, e), ground (arith, h, e))
  | inr e ↦ elim (Bool-cases (leb window.starts_at value)) [
    | inl f ↦ inr (ground (arith, e), inl (ground (arith, f)))
    | inr f ↦ inr (ground (arith, e), inr (ground (arith, h, e, f)))
  ]
]

not-Within :
    (window : DailyWindow) (value : ℕ) → contains_time window value ≡ false → ¬ Within window value
unfolding contains_time
not-Within window value h (inl (crosses, from, before)) = ground (arith, h, crosses, from, before)
not-Within window value h (inr (crosses, inl from)) = ground (arith, h, crosses, from)
not-Within window value h (inr (crosses, inr before)) = ground (arith, h, crosses, before)

in_quiet_window-Outside :
    (window : Option DailyWindow) (value : ℕ)
    → in_quiet_window window value ≡ false
    → Outside window value
in_quiet_window-Outside none value h = tt
in_quiet_window-Outside (some window) value h = not-Within window value h

module _ (local_time : String → ℤ → ℕ) where
  -- The consent was given at the time or before, notifications are switched on, and the local time of
  -- the day is in the awake window and not in the quiet one.
  pub record Allowed (preferences : EnergyPreferences) (consent : EnergyConsent) (at : ℤ)
      : Type 0 where
    pub granted : consent.granted ≡ true
    pub decided : consent.decided_at ≤ℤ at
    pub enabled : preferences.notifications_enabled ≡ true
    pub awake : Within preferences.awake_window (local_time preferences.timezone at)
    pub quiet : Outside preferences.quiet_window (local_time preferences.timezone at)

  suppression_reason-Allowed :
      (preferences : EnergyPreferences) (consent : EnergyConsent) (at : ℤ)
      → suppression_reason local_time preferences consent at ≡ none
      → Allowed preferences consent at
  unfolding suppression_reason
  suppression_reason-Allowed preferences consent at h =
      let time = local_time preferences.timezone at in
      elim (Bool-cases (not consent.granted || ltb_ℤ at consent.decided_at)) [
        | inl e ↦ absurd (ground (arith, h, e))
        | inr e ↦ elim (Bool-cases (not preferences.notifications_enabled)) [
          | inl f ↦ absurd (ground (arith, h, e, f))
          | inr f ↦ elim (Bool-cases (not (contains_time preferences.awake_window time))) [
            | inl g ↦ absurd (ground (arith, h, e, f, g))
            | inr g ↦ elim (Bool-cases (in_quiet_window preferences.quiet_window time)) [
              | inl k ↦ absurd (ground (arith, h, e, f, g, k))
              | inr k ↦ record {
                granted = ground (arith, e);
                decided = ltb_ℤ→ge at consent.decided_at (ground (arith, e));
                enabled = ground (arith, f);
                awake = contains_time-Within preferences.awake_window time (ground (arith, g));
                quiet = in_quiet_window-Outside preferences.quiet_window time k;
              }
            ]
          ]
        ]
      ]

  -- The prompt that a snooze leaves, if any.
  abbrev pub snoozed_on :
      SnoozeResult → (ActiveCheckIn → Option ActiveCheckIn) → Option ActiveCheckIn
  snoozed_on (SnoozeResult.snoozed p) next = next (ActiveCheckIn.snoozed p)
  snoozed_on (SnoozeResult.missed m) next = none
  snoozed_on (SnoozeResult.suppressed s) next = none

  unfoldable pub snooze_all : List SnoozeRequest → ActiveCheckIn → Option ActiveCheckIn
  snooze_all [] prompt = some prompt
  snooze_all (r ∷ rs) prompt =
      snoozed_on (snooze_check_in local_time (NotificationDecision.active prompt) r) (snooze_all rs)

  -- Both times of a snooze are allowed.
  abbrev pub SnoozeAllowed : SnoozeRequest → Type 0
  SnoozeAllowed r =
      Allowed r.preferences r.consent r.acted_at
      × Allowed r.preferences r.consent (snooze_target local_time r)

  abbrev Snoozed : ActiveCheckIn → SnoozeRequest → SnoozeResult → Type 0
  Snoozed prompt r (SnoozeResult.snoozed p) =
      SnoozeAllowed r
      × (p.check_in_id ≡ id_of prompt)
      × (p.snooze_count ≡ suc (snooze_count_of prompt))
  Snoozed prompt r _ = Unit

  target-Snoozed :
      (prompt : ActiveCheckIn) (r : SnoozeRequest) (o : Option SuppressionReason)
      → Allowed r.preferences r.consent r.acted_at
      → suppression_reason local_time r.preferences r.consent (snooze_target local_time r) ≡ o
      → Snoozed prompt r (snoozed_unless local_time prompt r (snooze_target local_time r) o)
  target-Snoozed prompt r none now later = (
    (now, suppression_reason-Allowed r.preferences r.consent (snooze_target local_time r) later),
    refl,
    refl,
  )
  target-Snoozed prompt r (some reason) now later = tt

  resolved-Snoozed :
      (prompt : ActiveCheckIn) (r : SnoozeRequest) (resolved : Resolved)
      → Allowed r.preferences r.consent r.acted_at
      → Snoozed prompt r (snooze_resolved local_time prompt r resolved)
  resolved-Snoozed prompt r (Resolved.still p) now =
      target-Snoozed prompt r
        (suppression_reason local_time r.preferences r.consent (snooze_target local_time r)) now
        refl
  resolved-Snoozed prompt r (Resolved.missed m) now = tt

  allowed-Snoozed :
      (prompt : ActiveCheckIn) (r : SnoozeRequest) (o : Option SuppressionReason)
      → suppression_reason local_time r.preferences r.consent r.acted_at ≡ o
      → Snoozed prompt r (snooze_allowed local_time prompt r o)
  allowed-Snoozed prompt r none now =
      resolved-Snoozed prompt r (mark_missed prompt r.acted_at)
        (suppression_reason-Allowed r.preferences r.consent r.acted_at now)
  allowed-Snoozed prompt r (some reason) now = tt

  snooze-Snoozed :
      (prompt : ActiveCheckIn) (r : SnoozeRequest)
      → Snoozed prompt r (snooze_check_in local_time (NotificationDecision.active prompt) r)
  unfolding snooze_check_in
  snooze-Snoozed prompt r =
      allowed-Snoozed prompt r (suppression_reason local_time r.preferences r.consent r.acted_at)
        refl

  -- What a prompt that is still active after the snoozes says of them.
  abbrev pub After : ActiveCheckIn → List SnoozeRequest → ActiveCheckIn → Type 0
  After prompt rs q =
      (id_of q ≡ id_of prompt)
      × (snooze_count_of q ≡ length rs + snooze_count_of prompt)
      × All SnoozeAllowed rs

  snoozed_on-After :
      (prompt : ActiveCheckIn) (r : SnoozeRequest) (rs : List SnoozeRequest) (result : SnoozeResult)
      (q : ActiveCheckIn)
      → Snoozed prompt r result
      → ((p : ActiveCheckIn) → snooze_all rs p ≡ some q → After p rs q)
      → snoozed_on result (snooze_all rs) ≡ some q
      → After prompt (r ∷ rs) q
  snoozed_on-After prompt r rs (SnoozeResult.snoozed p) q step rest h =
      let later = rest (ActiveCheckIn.snoozed p) h in
      (later.0 ∙ step.1, omega (arith, later.1, step.2), (step.0, later.2))
  snoozed_on-After prompt r rs (SnoozeResult.missed m) q step rest h = absurd (ground (arith, h))
  snoozed_on-After prompt r rs (SnoozeResult.suppressed s) q step rest h =
      absurd (ground (arith, h))

  snooze_all-After :
      (rs : List SnoozeRequest) (prompt q : ActiveCheckIn)
      → snooze_all rs prompt ≡ some q
      → After prompt rs q
  unfolding snooze_all
  snooze_all-After [] prompt q h =
      let same : prompt ≡ q = ground (arith, h) in rw (sym same) (refl, omega arith, tt)
  snooze_all-After (r ∷ rs) prompt q h =
      snoozed_on-After prompt r rs
        (snooze_check_in local_time (NotificationDecision.active prompt) r) q
        (snooze-Snoozed prompt r) (λ p later. snooze_all-After rs p q later) h

  abbrev decision_id : NotificationDecision → String
  decision_id (NotificationDecision.active p) = id_of p
  decision_id (NotificationDecision.suppressed s) = s.check_in_id

  abbrev decision_count : NotificationDecision → ℕ
  decision_count (NotificationDecision.active p) = snooze_count_of p
  decision_count (NotificationDecision.suppressed s) = 0

  scheduled-cases :
      (preferences : EnergyPreferences) (request : CheckInScheduleRequest)
      (o : Option SuppressionReason) (p : ActiveCheckIn)
      → scheduled_unless local_time preferences request o ≡ NotificationDecision.active p
      → (o ≡ none) × (id_of p ≡ request.check_in_id) × (snooze_count_of p ≡ 0)
  scheduled-cases preferences request none p h =
      (refl, sym (ap decision_id h), sym (ap decision_count h))
  scheduled-cases preferences request (some reason) p h = absurd (ground (arith, h))

  -- When a check-in is still active after it was scheduled and any number of snoozes, then at the time
  -- it was scheduled, whenever it was snoozed, and at each time to which it was snoozed, consent had
  -- been given, notifications were on, and the local time was in the awake window and not in the quiet
  -- one; it keeps its id and counts the snoozes.
  pub schedule-Allowed :
      (preferences : EnergyPreferences) (consent : EnergyConsent) (request : CheckInScheduleRequest)
      (rs : List SnoozeRequest) (p q : ActiveCheckIn)
      → schedule_check_in local_time preferences consent request ≡ NotificationDecision.active p
      → snooze_all rs p ≡ some q
      → Allowed preferences consent request.evaluated_at
        × All SnoozeAllowed rs
        × (id_of q ≡ request.check_in_id)
        × (snooze_count_of q ≡ length rs)
  unfolding schedule_check_in
  schedule-Allowed preferences consent request rs p q scheduled snoozed =
      let first =
        scheduled-cases preferences request
          (suppression_reason local_time preferences consent request.evaluated_at) p scheduled in
      let later = snooze_all-After rs p q snoozed in
      (
        suppression_reason-Allowed preferences consent request.evaluated_at first.0,
        later.2,
        later.0 ∙ first.1,
        omega (arith, later.1, first.2),
      )
