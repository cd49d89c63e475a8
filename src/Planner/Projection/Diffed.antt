-- ===== src/Planner/Projection/Diffed.antt =====
-- planner_projection.py: which blocks the diff names.
use mathlib.Core.Path.{subst}
use personal_secretary.Prelude.{
  ◌+◌, String, true, false, not, ◌||◌, ◌&&◌, List, [], ◌∷◌, ◌≡◌, refl, sym, ap, ◌∙◌, inl, inr,
  arith, Bool-cases, contains, count, count-append, str_eq, eq_iff, if◌then◌else◌, map,
  map-map_name, keep, str_le,
}
use personal_secretary.Prelude.Sort.{sort_by, count-sort_by}
use personal_secretary.Planner.Models.{ExistingPlanBlock}
use personal_secretary.Planner.Blocks.{Zone, PlanBlock}
use personal_secretary.Planner.Projection.{
  append_unique, append_many_unique, put_block, dict_from, has_activity, is_available,
  proposed_dict, baseline_dict, BlockChange, as_change, removed_change, build_diff,
}
use personal_secretary.Planner.Projection.Merged.{contains-append_unique}

-- Each text that occurs in the list occurs once.
abbrev Once : List String → Type 0
Once ids = (k : String) → count k ids ≡ (if contains k ids then 1 else 0)

count-append_unique :
    (ids : List String) (v k : String)
    → count k ids ≡ (if contains k ids then 1 else 0)
    → count k (append_unique ids v) ≡ (if contains k ids || str_eq v k then 1 else 0)
unfolding append_unique count
count-append_unique ids v k h = elim (Bool-cases (contains v ids)) [
  | inl e ↦ elim (Bool-cases (str_eq v k)) [
    | inl s ↦
        let known : contains k ids ≡ true =
          subst (λ t. contains t ids ≡ true) ((eq_iff v k).0 s) e in
        rw (e, known) (h ∙ rw known refl)
    | inr s ↦ rw (e, s) (h ∙ ground arith)
  ]
  | inr e ↦ elim (Bool-cases (str_eq v k)) [
    | inl s ↦
        let unknown : contains k ids ≡ false =
          subst (λ t. contains t ids ≡ false) ((eq_iff v k).0 s) e in
        rw (e, count-append k ids (v ∷ []), h, unknown, s) (omega arith)
    | inr s ↦ rw (e, count-append k ids (v ∷ []), h, s) (ground arith)
  ]
]

append_unique-Once : (ids : List String) (v : String) → Once ids → Once (append_unique ids v)
append_unique-Once ids v once k =
    rw (contains-append_unique k v ids) (count-append_unique ids v k (once k))

module _ {A : Type 0} (id : A → String) where
  ids-put_block : (a : A) (d : List A) → map id (put_block id a d) ≡ append_unique (map id d) (id a)
  unfolding put_block append_unique contains
  ids-put_block a [] = refl
  ids-put_block a (b ∷ bs) = elim (Bool-cases (str_eq (id b) (id a))) [
    | inl e ↦ rw e (ap (λ t. t ∷ map id bs) (sym ((eq_iff (id b) (id a)).0 e)))
    | inr e ↦
        rw (e, ids-put_block a bs)
          (elim (Bool-cases (contains (id a) (map id bs))) [
            | inl c ↦ rw c refl
            | inr c ↦ rw c refl
          ])
  ]

  ids-dict_from :
      (d xs : List A) → map id (dict_from id d xs) ≡ append_many_unique (map id d) (map id xs)
  unfolding dict_from append_many_unique
  ids-dict_from d [] = refl
  ids-dict_from d (x ∷ xs) =
      ids-dict_from (put_block id x d) xs
      ∙ ap (λ ids. append_many_unique ids (map id xs)) (ids-put_block x d)

append_many-Once : (ids more : List String) → Once ids → Once (append_many_unique ids more)
unfolding append_many_unique
append_many-Once ids [] once = once
append_many-Once ids (v ∷ more) once =
    append_many-Once (append_unique ids v) more (append_unique-Once ids v once)

contains-append_many :
    (k : String) (ids more : List String)
    → contains k (append_many_unique ids more) ≡ contains k ids || contains k more
unfolding append_many_unique contains
contains-append_many k ids [] = ground arith
contains-append_many k ids (v ∷ more) =
    contains-append_many k (append_unique ids v) more
    ∙ rw (contains-append_unique k v ids) (ground arith)

count-dict :
    {A : Type 0} (id : A → String) (xs : List A) (k : String)
    → count k (map id (dict_from id [] xs)) ≡ (if contains k (map id xs) then 1 else 0)
unfolding contains count
count-dict id xs k = rw (ids-dict_from id [] xs) (
    append_many-Once [] (map id xs) (λ t. refl) k ∙ rw (contains-append_many k [] (map id xs)) refl)

contains-dict :
    {A : Type 0} (id : A → String) (xs : List A) (k : String)
    → contains k (map id (dict_from id [] xs)) ≡ contains k (map id xs)
unfolding contains
contains-dict id xs k = rw (ids-dict_from id [] xs) (contains-append_many k [] (map id xs))

-- Of the items whose id is not among these, each id occurs as often as before if it is not among these.
count-keep_others :
    {A : Type 0} (id : A → String) (ids : List String) (k : String) (xs : List A)
    → count k (map id (keep (λ x. not (contains (id x) ids)) xs))
      ≡ (if contains k ids then 0 else count k (map id xs))
unfolding keep count
count-keep_others id ids k [] = ground arith
count-keep_others id ids k (x ∷ xs) =
    let rest = count-keep_others id ids k xs in
    elim (Bool-cases (str_eq (id x) k)) [
      | inl e ↦
          let same = (eq_iff (id x) k).0 e in
          elim (Bool-cases (contains (id x) ids)) [
            | inl c ↦
                let d : contains k ids ≡ true = subst (λ t. contains t ids ≡ true) same c in
                rw (c, d) (rw d at rest)
            | inr c ↦
                let d : contains k ids ≡ false = subst (λ t. contains t ids ≡ false) same c in
                rw (c, d, e) (ap (λ n. 1 + n) (rw d at rest))
          ]
      | inr e ↦ elim (Bool-cases (contains (id x) ids)) [
        | inl c ↦ rw (c, e) (ground (arith, rest))
        | inr c ↦ rw (c, e) (ground (arith, rest))
      ]
    ]

-- The ids that are proposed: those of the blocks of an activity that are not available time.
abbrev pub proposed_ids : List PlanBlock → List String
proposed_ids blocks =
    map (λ b. b.block_id)
      (keep (λ b. has_activity b.activity_id && not (is_available b.kind)) blocks)

abbrev pub baseline_ids : List ExistingPlanBlock → List String
baseline_ids blocks = map (λ b. b.block_id) blocks

-- The diff adds each proposed id that is not in the baseline once, removes each id of the baseline that
-- is not proposed once, and adds and removes no other.
pub build_diff_exact :
    (zone : Zone) (baseline : List ExistingPlanBlock) (blocks : List PlanBlock) (k : String)
    → let diff = build_diff zone baseline blocks in
      (count k (map (λ c. c.block_id) diff.added) ≡ (
        if contains k (baseline_ids baseline)
        then 0
        else if contains k (proposed_ids blocks)
        then 1
        else 0))
      × (count k (map (λ c. c.block_id) diff.removed) ≡ (
          if contains k (proposed_ids blocks)
          then 0
          else if contains k (baseline_ids baseline)
          then 1
          else 0))
unfolding build_diff proposed_dict baseline_dict as_change removed_change
build_diff_exact zone baseline blocks k =
    let eligible = keep (λ b. has_activity b.activity_id && not (is_available b.kind)) blocks in
    let new_ids = map (λ b. b.block_id) (proposed_dict blocks) in
    let old_ids = map (λ b. b.block_id) (baseline_dict baseline) in
    (
      rw
          (
            map-map_name (λ (b : PlanBlock). b.block_id) (λ (c : BlockChange). c.block_id) as_change
                (sort_by (λ b c. str_le b.block_id c.block_id)
                  (keep (λ b. not (contains b.block_id old_ids)) (proposed_dict blocks)))
                (λ b. refl),
            count-sort_by (λ (b c : PlanBlock). str_le b.block_id c.block_id) (λ b. b.block_id) k
                (keep (λ b. not (contains b.block_id old_ids)) (proposed_dict blocks)),
            count-keep_others (λ (b : PlanBlock). b.block_id) old_ids k (proposed_dict blocks),
            contains-dict (λ (b : ExistingPlanBlock). b.block_id) baseline k,
            count-dict (λ (b : PlanBlock). b.block_id) eligible k,
          )
          refl,
      rw
          (
            map-map_name (λ (b : ExistingPlanBlock). b.block_id) (λ (c : BlockChange). c.block_id)
                removed_change
                (sort_by (λ b c. str_le b.block_id c.block_id)
                  (keep (λ b. not (contains b.block_id new_ids)) (baseline_dict baseline)))
                (λ b. refl),
            count-sort_by (λ (b c : ExistingPlanBlock). str_le b.block_id c.block_id)
                (λ b. b.block_id) k
                (keep (λ b. not (contains b.block_id new_ids)) (baseline_dict baseline)),
            count-keep_others (λ (b : ExistingPlanBlock). b.block_id) new_ids k
                (baseline_dict baseline),
            contains-dict (λ (b : PlanBlock). b.block_id) eligible k,
            count-dict (λ (b : ExistingPlanBlock). b.block_id) baseline k,
          )
          refl,
    )
