-- ===== src/Planner/Projection/Merged.antt =====
-- planner_projection.py: what the projected blocks show, and how long they last.
use mathlib.Core.Path.{subst}
use personal_secretary.Prelude.{
  String, Bool, true, ◌||◌, Option, none, some, List, [], ◌∷◌, ◌++◌, ◌≡◌, refl, sym, ap, ◌∙◌, inl,
  inr, arith, Bool-cases, contains, str_eq, eq_iff,
}
use personal_secretary.Prelude.Int.{ℤ, pos, ◌+ℤ◌, ◌-ℤ◌, eq_of_parts, int_laws}
use personal_secretary.Planner.Models.{Time}
use personal_secretary.Planner.Blocks.{Zone, PlanBlock}
use personal_secretary.Planner.Projection.{
  CalendarBlock, eligible_id, can_merge, append_unique, merged_block, calendar_block, opened_block,
  step_for, project_after, project_first, project_calendar, text_or, time_eq,
}

-- The activities that the projected blocks name, and those of the eligible blocks.
unfoldable pub source_ids : List CalendarBlock → List String
source_ids [] = []
source_ids (c ∷ cs) = c.source_activity_ids ++ source_ids cs

abbrev pub id_list : Option String → List String
id_list none = []
id_list (some activity_id) = activity_id ∷ []

unfoldable pub eligible_ids : List PlanBlock → List String
eligible_ids [] = []
eligible_ids (b ∷ bs) = id_list (eligible_id b) ++ eligible_ids bs

-- The minutes of the projected blocks, and those of the eligible blocks.
unfoldable pub calendar_minutes : List CalendarBlock → ℤ
calendar_minutes [] = pos 0
calendar_minutes (c ∷ cs) = (c.ends_at -ℤ c.starts_at) +ℤ calendar_minutes cs

abbrev pub minutes_if : PlanBlock → Option String → ℤ
minutes_if b none = pos 0
minutes_if b (some activity_id) = b.ends_at -ℤ b.starts_at

unfoldable pub eligible_minutes : List PlanBlock → ℤ
eligible_minutes [] = pos 0
eligible_minutes (b ∷ bs) = minutes_if b (eligible_id b) +ℤ eligible_minutes bs

pub contains-append :
    (k : String) (xs ys : List String) → contains k (xs ++ ys) ≡ contains k xs || contains k ys
unfolding contains
contains-append k [] ys = refl
contains-append k (x ∷ xs) ys = ground (arith, contains-append k xs ys)

contains-one : (k v : String) → contains k (v ∷ []) ≡ str_eq v k
unfolding contains
contains-one k v = ground arith

pub contains-append_unique :
    (k v : String) (vs : List String)
    → contains k (append_unique vs v) ≡ contains k vs || str_eq v k
unfolding append_unique
contains-append_unique k v vs = elim (Bool-cases (contains v vs)) [
  | inl e ↦ elim (Bool-cases (str_eq v k)) [
    | inl s ↦
        let known : contains k vs ≡ true = subst (λ t. contains t vs ≡ true) ((eq_iff v k).0 s) e in
        rw (e, known) refl
    | inr s ↦ rw (e, s) (ground arith)
  ]
  | inr e ↦ rw (e, contains-append k vs (v ∷ []), contains-one k v) refl
]

or_regroup : (a b c d e : Bool) → (a || b) ≡ (c || d) → (a || (b || e)) ≡ (c || (d || e))
or_regroup a b c d e h = ground (arith, h)

-- What one block adds to the last projected block and to those that stay.
abbrev Adds : String → CalendarBlock → List String → List CalendarBlock × CalendarBlock → Type 0
Adds k last ids (stay, next) =
    (contains k (source_ids stay) || contains k next.source_activity_ids)
    ≡ (contains k last.source_activity_ids || contains k ids)

module _ (zone : Zone) (k : String) where
  step-Adds :
      (last : CalendarBlock) (b : PlanBlock) (o : Option String)
      → Adds k last (id_list o) (step_for zone last b o)
  unfolding contains source_ids merged_block calendar_block
  step-Adds last b none = ground arith
  step-Adds last b (some activity_id) =
      elim (Bool-cases (
        can_merge zone last b (text_or b.display_group activity_id)
          (text_or b.display_title b.title))) [
            | inl e ↦
                rw (e, contains-append_unique k activity_id last.source_activity_ids) (ground arith)
            | inr e ↦ rw (e, contains-append k last.source_activity_ids []) (ground arith)
          ]

  source_ids-append :
      (cs ds : List CalendarBlock)
      → contains k (source_ids (cs ++ ds))
        ≡ contains k (source_ids cs) || contains k (source_ids ds)
  unfolding source_ids contains
  source_ids-append [] ds = refl
  source_ids-append (c ∷ cs) ds =
      rw
        (
          contains-append k c.source_activity_ids (source_ids (cs ++ ds)),
          contains-append k c.source_activity_ids (source_ids cs),
          source_ids-append cs ds,
        )
        (ground arith)

  project_after-sources :
      (last : CalendarBlock) (bs : List PlanBlock)
      → contains k (source_ids (project_after zone last bs))
        ≡ contains k last.source_activity_ids || contains k (eligible_ids bs)
  unfolding project_after source_ids eligible_ids contains
  project_after-sources last [] = contains-append k last.source_activity_ids []
  project_after-sources last (b ∷ bs) =
      let step = step_for zone last b (eligible_id b) in
      let adds = step-Adds last b (eligible_id b) in
      let later = project_after-sources step.1 bs in
      rw
        (
          source_ids-append step.0 (project_after zone step.1 bs),
          contains-append k (id_list (eligible_id b)) (eligible_ids bs),
          later,
        )
        (or_regroup (contains k (source_ids step.0)) (contains k step.1.source_activity_ids)
          (contains k last.source_activity_ids) (contains k (id_list (eligible_id b)))
          (contains k (eligible_ids bs)) adds)

  first-sources :
      (b : PlanBlock) (bs : List PlanBlock) (rest : List CalendarBlock) (o : Option String)
      → contains k (source_ids rest) ≡ contains k (eligible_ids bs)
      → contains k (source_ids (project_first zone b bs rest o))
        ≡ contains k (id_list o ++ eligible_ids bs)
  unfolding contains calendar_block
  first-sources b bs rest none h = h
  first-sources b bs rest (some activity_id) h =
      project_after-sources (opened_block b activity_id) bs ∙ ground arith

  project-sources :
      (bs : List PlanBlock)
      → contains k (source_ids (project_calendar zone bs)) ≡ contains k (eligible_ids bs)
  unfolding project_calendar source_ids eligible_ids
  project-sources [] = refl
  project-sources (b ∷ bs) =
      first-sources b bs (project_calendar zone bs) (eligible_id b) (project-sources bs)

time_eq-eq : (s t : Time) → time_eq s t ≡ true → s ≡ t
time_eq-eq s t h = ground (arith, eq_of_parts s t)

spans : (a b c : ℤ) → (c -ℤ a) ≡ (b -ℤ a) +ℤ (c -ℤ b)
spans a b c = eq_of_parts _ _ (omega int_laws)

add_assoc : (a b c : ℤ) → (a +ℤ b) +ℤ c ≡ a +ℤ (b +ℤ c)
add_assoc a b c = eq_of_parts _ _ (omega int_laws)

zero_add : (a : ℤ) → pos 0 +ℤ a ≡ a
zero_add a = eq_of_parts _ _ (omega int_laws)

add_zero : (a : ℤ) → a +ℤ pos 0 ≡ a
add_zero a = eq_of_parts _ _ (omega int_laws)

calendar_minutes-append :
    (cs ds : List CalendarBlock)
    → calendar_minutes (cs ++ ds) ≡ calendar_minutes cs +ℤ calendar_minutes ds
unfolding calendar_minutes
calendar_minutes-append [] ds = sym (zero_add (calendar_minutes ds))
calendar_minutes-append (c ∷ cs) ds =
    ap (λ m. (c.ends_at -ℤ c.starts_at) +ℤ m) (calendar_minutes-append cs ds)
    ∙ sym (add_assoc (c.ends_at -ℤ c.starts_at) (calendar_minutes cs) (calendar_minutes ds))

module _ (zone : Zone) (one_clock : (s t : Time) → zone.wall s ≡ zone.wall t → s ≡ t) where
  merges-adjacent :
      (last : CalendarBlock) (b : PlanBlock) (group title : String)
      → can_merge zone last b group title ≡ true
      → last.ends_at ≡ b.starts_at
  unfolding can_merge
  merges-adjacent last b group title h =
      one_clock last.ends_at b.starts_at
        (time_eq-eq (zone.wall last.ends_at) (zone.wall b.starts_at) (ground (arith, h)))

  step-minutes :
      (last : CalendarBlock) (b : PlanBlock) (o : Option String)
      → let step = step_for zone last b o in
        calendar_minutes step.0 +ℤ (step.1.ends_at -ℤ step.1.starts_at)
        ≡ (last.ends_at -ℤ last.starts_at) +ℤ minutes_if b o
  unfolding calendar_minutes merged_block calendar_block
  step-minutes last b none =
      zero_add (last.ends_at -ℤ last.starts_at) ∙ sym (add_zero (last.ends_at -ℤ last.starts_at))
  step-minutes last b (some activity_id) =
      elim (Bool-cases (
        can_merge zone last b (text_or b.display_group activity_id)
          (text_or b.display_title b.title))) [
            | inl e ↦
                let adjacent = merges-adjacent last b _ _ e in
                rw e (
                  zero_add (b.ends_at -ℤ last.starts_at)
                  ∙ subst
                      (λ t.
                        b.ends_at -ℤ last.starts_at
                        ≡ (last.ends_at -ℤ last.starts_at) +ℤ (b.ends_at -ℤ t))
                      adjacent (spans last.starts_at last.ends_at b.ends_at))
            | inr e ↦ rw (e, add_zero (last.ends_at -ℤ last.starts_at)) refl
          ]

  project_after-minutes :
      (last : CalendarBlock) (bs : List PlanBlock)
      → calendar_minutes (project_after zone last bs)
        ≡ (last.ends_at -ℤ last.starts_at) +ℤ eligible_minutes bs
  unfolding project_after calendar_minutes eligible_minutes
  project_after-minutes last [] = refl
  project_after-minutes last (b ∷ bs) =
      let step = step_for zone last b (eligible_id b) in
      calendar_minutes-append step.0 (project_after zone step.1 bs)
      ∙ ap (λ m. calendar_minutes step.0 +ℤ m) (project_after-minutes step.1 bs)
      ∙ sym (
          add_assoc (calendar_minutes step.0) (step.1.ends_at -ℤ step.1.starts_at)
            (eligible_minutes bs))
      ∙ ap (λ m. m +ℤ eligible_minutes bs) (step-minutes last b (eligible_id b))
      ∙ add_assoc (last.ends_at -ℤ last.starts_at) (minutes_if b (eligible_id b))
          (eligible_minutes bs)

  first-minutes :
      (b : PlanBlock) (bs : List PlanBlock) (rest : List CalendarBlock) (o : Option String)
      → calendar_minutes rest ≡ eligible_minutes bs
      → calendar_minutes (project_first zone b bs rest o) ≡ minutes_if b o +ℤ eligible_minutes bs
  unfolding calendar_block
  first-minutes b bs rest none h = h ∙ sym (zero_add (eligible_minutes bs))
  first-minutes b bs rest (some activity_id) h =
      project_after-minutes (opened_block b activity_id) bs

  project-minutes :
      (bs : List PlanBlock) → calendar_minutes (project_calendar zone bs) ≡ eligible_minutes bs
  unfolding project_calendar calendar_minutes eligible_minutes
  project-minutes [] = refl
  project-minutes (b ∷ bs) =
      first-minutes b bs (project_calendar zone bs) (eligible_id b) (project-minutes bs)

  -- In a time zone whose wall clock shows no time twice, the projected calendar names exactly the
  -- activities of the eligible blocks and lasts exactly as many minutes as these blocks.
  pub project_calendar_exact :
      (blocks : List PlanBlock) (k : String)
      → (contains k (source_ids (project_calendar zone blocks)) ≡ contains k (eligible_ids blocks))
        × (calendar_minutes (project_calendar zone blocks) ≡ eligible_minutes blocks)
  project_calendar_exact blocks k = (project-sources zone k blocks, project-minutes blocks)
