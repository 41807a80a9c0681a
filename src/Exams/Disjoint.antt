-- ===== src/Exams/Disjoint.antt =====
-- Two exams of one organization never cover the same workstation at the same time.
use labkiosk.Shared.{
  ℕ, ◌≤◌, ◌<◌, ◌≡◌, ◌⊎◌, ◌∙◌, refl, Bool, true, false, ◌&&◌, Option, none, List, [], ◌∷◌, ◌++◌, map,
  String, ◌==◌, string_eq, option_eq, eq_iff, option_beq_iff, leb, ltb, length, filter, find, any,
  All, All-snoc, All-filter, arith, Bool-cases, inl, inr, count,
}
use labkiosk.Exams.{ExamRow, ExamInput, exam_end, exam_covers}
use labkiosk.Exams.Sessions.{
  open_exams, is_open, clashes, share_workstations, exam_of, insert_exam, create_exam, end_row,
  max_open,
}

-- Two exams of one organization with a workstation in common, at some second both run.
abbrev pub overlap : ExamRow → ExamRow → Bool
overlap a b =
    a.tenant_id == b.tenant_id
    && share_workstations a.group_name b.group_name
    && ltb a.starts_at (exam_end b)
    && ltb b.starts_at (exam_end a)

abbrev pub Disjoint : ExamRow → ExamRow → Type 0
Disjoint a b = overlap a b ≡ false

abbrev pub AreDisjoint : List ExamRow → Type 0
AreDisjoint [] = Unit
AreDisjoint (r ∷ rs) = All (Disjoint r) rs × AreDisjoint rs

abbrev NoClash : String → ExamInput → ℕ → ExamRow → Type 0
NoClash tenant input now e = (is_open tenant now e && clashes input e) ≡ false

find-filter :
    {A : Type 0} (p q : A → Bool) (xs : List A)
    → find q (filter p xs) ≡ none
    → All (λ x. (p x && q x) ≡ false) xs
find-filter p q [] h = tt
find-filter p q (x ∷ xs) h = (ground arith, find-filter p q xs (ground arith))

module _ (tenant : String) (input : ExamInput) (now : ℕ) (user : Option String)
    (new_id : String) where
  -- An exam that starts now or later overlaps no row that it does not clash with while that is open.
  new_Disjoint :
      (e : ExamRow)
      → now ≤ input.starts_at
      → NoClash tenant input now e
      → Disjoint e (exam_of new_id tenant input user now)
  unfolding exam_of clashes exam_end
  new_Disjoint e h k = ground (arith, eq_iff e.tenant_id tenant)

  insert_AreDisjoint :
      (rows : List ExamRow)
      → now ≤ input.starts_at
      → AreDisjoint rows
      → All (NoClash tenant input now) rows
      → AreDisjoint (rows ++ exam_of new_id tenant input user now ∷ [])
  insert_AreDisjoint [] h x k = (tt, tt)
  insert_AreDisjoint (r ∷ rs) h (apart, x) (free, k) = (
    All-snoc (Disjoint r) rs (exam_of new_id tenant input user now) apart (new_Disjoint r h free),
    insert_AreDisjoint rs h x k,
  )

module _ (id : String) (user : Option String) (now : ℕ) where
  end_row-Disjoint :
      (a b : ExamRow) → Disjoint a b → Disjoint (end_row id user now a) (end_row id user now b)
  unfolding end_row exam_end
  end_row-Disjoint a b h = ground arith

  end_row-All :
      (a : ExamRow) (rows : List ExamRow)
      → All (Disjoint a) rows
      → All (Disjoint (end_row id user now a)) (map (end_row id user now) rows)
  end_row-All a [] h = tt
  end_row-All a (b ∷ rows) (h, hs) = (end_row-Disjoint a b h, end_row-All a rows hs)

  pub map-end_row-AreDisjoint :
      (rows : List ExamRow) → AreDisjoint rows → AreDisjoint (map (end_row id user now) rows)
  map-end_row-AreDisjoint [] x = tt
  map-end_row-AreDisjoint (r ∷ rs) (apart, x) =
      (end_row-All r rs apart, map-end_row-AreDisjoint rs x)

-- A change that keeps the organizations, the workstations and the times.
keeps_All :
    (f : ExamRow → ExamRow) (a : ExamRow) (rows : List ExamRow)
    → ((b : ExamRow) → overlap (f a) (f b) ≡ overlap a b)
    → All (Disjoint a) rows
    → All (Disjoint (f a)) (map f rows)
keeps_All f a [] h x = tt
keeps_All f a (b ∷ rows) h (d, x) = (h b ∙ d, keeps_All f a rows h x)

pub map-AreDisjoint :
    (f : ExamRow → ExamRow) (rows : List ExamRow)
    → ((a b : ExamRow) → overlap (f a) (f b) ≡ overlap a b)
    → AreDisjoint rows
    → AreDisjoint (map f rows)
map-AreDisjoint f [] h x = tt
map-AreDisjoint f (r ∷ rs) h (apart, x) = (keeps_All f r rs (h r) apart, map-AreDisjoint f rs h x)

pub filter-AreDisjoint :
    (p : ExamRow → Bool) (rows : List ExamRow) → AreDisjoint rows → AreDisjoint (filter p rows)
filter-AreDisjoint p [] x = tt
filter-AreDisjoint p (r ∷ rs) (apart, x) = elim (Bool-cases (p r)) [
  | inl stays ↦ rw stays (All-filter (Disjoint r) p rs apart, filter-AreDisjoint p rs x)
  | inr goes ↦ rw goes (filter-AreDisjoint p rs x)
]

module _ (rows : List ExamRow) (tenant : String) (input : ExamInput) (user : Option String)
    (now : ℕ) (new_id : String) where
  -- What `create_exam` leaves: the rows as they were, or the new exam after them, and then it clashes
  -- with no open row, fewer than 50 are open, and its id is new.
  pub create_cases :
      ((create_exam rows tenant input user now new_id).0 ≡ rows)
      ⊎ (((create_exam rows tenant input user now new_id).0
            ≡ rows ++ exam_of new_id tenant input user now ∷ [])
          × (find (clashes input) (open_exams rows tenant now) ≡ none)
          × (length (open_exams rows tenant now) < max_open)
          × (any (λ e. e.id == new_id) rows ≡ false))
  unfolding create_exam insert_exam exam_of
  create_cases = ground arith

  pub create-AreDisjoint :
      now ≤ input.starts_at
      → AreDisjoint rows
      → AreDisjoint (create_exam rows tenant input user now new_id).0
  unfolding open_exams
  create-AreDisjoint h x = elim create_cases [
    | inl same ↦ rw same x
    | inr (left, free, _, _) ↦ rw left (
        insert_AreDisjoint tenant input now user new_id rows h x
          (find-filter (is_open tenant now) (clashes input) rows free))
  ]

-- Running now, and over a workstation of this group, or of none.
abbrev pub holds_now : String → ℕ → Option String → ExamRow → Bool
holds_now tenant now group e =
    e.tenant_id == tenant
    && leb e.starts_at now
    && ltb now (exam_end e)
    && exam_covers e.group_name group

others_wait :
    (tenant : String) (now : ℕ) (group : Option String) (a : ExamRow) (rows : List ExamRow)
    → holds_now tenant now group a ≡ true
    → All (Disjoint a) rows
    → count (holds_now tenant now group) rows ≡ 0
others_wait tenant now group a [] h x = refl
others_wait tenant now group a (b ∷ rows) h (d, x) = ground (
  arith,
  others_wait tenant now group a rows h x,
  eq_iff a.tenant_id tenant,
  eq_iff b.tenant_id tenant,
  eq_iff a.tenant_id b.tenant_id,
  option_beq_iff a.group_name group,
  option_beq_iff b.group_name group,
  option_beq_iff a.group_name b.group_name,
)

pub running_at_most_one :
    (tenant : String) (now : ℕ) (group : Option String) (rows : List ExamRow)
    → AreDisjoint rows
    → count (holds_now tenant now group) rows ≤ 1
running_at_most_one tenant now group [] x = omega arith
running_at_most_one tenant now group (r ∷ rs) (apart, x) =
    ground (arith, running_at_most_one tenant now group rs x, others_wait tenant now group r rs)
