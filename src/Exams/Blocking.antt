-- ===== src/Exams/Blocking.antt =====
-- exams.ts `examBlockingBroadcast`: what a broadcast is refused for.
use labkiosk.Shared.{
  ℕ, ◌≡◌, refl, Bool, true, false, not, ◌&&◌, ◌||◌, Option, none, some, List, [], ◌∷◌, String, ◌==◌,
  string_eq, option_eq, leb, ltb, find, filter, any, all, all-congr, ◌∙◌, ap, is_none, is_some,
  is_some-false, split_or, mem, if◌then◌else◌, arith, Bool-cases, inl, inr,
}
use labkiosk.Db.{DeviceRow}
use labkiosk.Exams.{ExamRow, exam_end, exam_covers}
use labkiosk.Exams.Sessions.{open_exams}

-- The exam that the refusal names, and the workstation of it that was addressed, where it was found
-- by one.
pub data Blocked : Type 0 where
  nothing_runs : Blocked
  runs : ExamRow → Blocked
  runs_on : String → ExamRow → Blocked

unfoldable pub running_exams : List ExamRow → String → ℕ → List ExamRow
unfolding open_exams
running_exams sessions tenant now =
    filter (λ e. leb e.starts_at now) (open_exams sessions tenant now)

-- `for (const row of rows) { const exam = running.find(…); if (exam) return …; }`
unfoldable pub first_in_exam : List ExamRow → List DeviceRow → Blocked
first_in_exam running [] = nothing_runs
first_in_exam running (d ∷ ds) =
    let rest = first_in_exam running ds in
    elim (find (λ e. e.group_name == d.group_name) running) [
      | none ↦ rest
      | some exam ↦ runs_on d.client_id exam
    ]

abbrev pub is_named : String → List String → DeviceRow → Bool
is_named tenant named d = d.tenant_id == tenant && mem d.client_id named

-- `everyone ?? running[0]`
abbrev or_first : Option ExamRow → List ExamRow → Blocked
or_first (some exam) running = runs exam
or_first none [] = nothing_runs
or_first none (exam ∷ rest) = runs exam

unfoldable pub exam_blocking_broadcast :
    List ExamRow → List DeviceRow → String → List String → ℕ → Blocked
unfolding running_exams first_in_exam
exam_blocking_broadcast sessions devices tenant targets now =
    let running = running_exams sessions tenant now in
    let everyone = find (λ e. is_none e.group_name) running in
    let named = filter (λ t. not (t == "all")) targets in
    if is_some everyone || mem "all" targets
    then or_first everyone running
    else first_in_exam running (filter (is_named tenant named) devices)

-- Running now and over this workstation, whose own row says its group.
abbrev pub runs_over : String → ℕ → DeviceRow → ExamRow → Bool
runs_over tenant now d e =
    e.tenant_id == tenant
    && leb e.starts_at now
    && ltb now (exam_end e)
    && exam_covers e.group_name d.group_name

abbrev pub is_target : String → List String → DeviceRow → Bool
is_target tenant targets d = d.tenant_id == tenant && (mem "all" targets || mem d.client_id targets)

any_running :
    (sessions : List ExamRow) (tenant : String) (now : ℕ) (d : DeviceRow)
    → any (runs_over tenant now d) sessions
      ≡ any (λ e. exam_covers e.group_name d.group_name) (running_exams sessions tenant now)
unfolding running_exams open_exams exam_end
any_running [] tenant now d = refl
any_running (e ∷ rest) tenant now d = ground (arith, any_running rest tenant now d)

mem_without_all :
    (c : String) (targets : List String)
    → mem "all" targets ≡ false
    → mem c (filter (λ t. not (t == "all")) targets) ≡ mem c targets
mem_without_all c [] h = refl
mem_without_all c (t ∷ ts) h = ground (arith, mem_without_all c ts)

-- With no exam over everyone, a workstation is covered just when an exam names its group.
any_covering :
    (running : List ExamRow) (d : DeviceRow)
    → find (λ e. is_none e.group_name) running ≡ none
    → find (λ e. e.group_name == d.group_name) running ≡ none
    → any (λ e. exam_covers e.group_name d.group_name) running ≡ false
any_covering [] d h k = refl
any_covering (e ∷ rest) d h k = ground (arith, any_covering rest d)

first_in_exam-none :
    (running : List ExamRow) (p : DeviceRow → Bool) (devices : List DeviceRow)
    → find (λ e. is_none e.group_name) running ≡ none
    → first_in_exam running (filter p devices) ≡ nothing_runs
    → all (λ d. not (p d && any (λ e. exam_covers e.group_name d.group_name) running)) devices
      ≡ true
unfolding first_in_exam
first_in_exam-none running p [] h k = refl
first_in_exam-none running p (d ∷ ds) h k =
    ground (arith, any_covering running d, first_in_exam-none running p ds)

no_exams :
    (everyone : Option ExamRow) (running : List ExamRow)
    → or_first everyone running ≡ nothing_runs
    → running ≡ []
no_exams none [] h = refl
no_exams none (e ∷ rest) h = cc
no_exams (some e) running h = cc

all-true {ℓ} : {A : Type ℓ} (xs : List A) → all (λ (x : A). true) xs ≡ true
all-true [] = refl
all-true (x ∷ xs) = all-true xs

module _ (sessions : List ExamRow) (devices : List DeviceRow) (tenant : String)
    (targets : List String) (now : ℕ) where
  abbrev pub spared : DeviceRow → Bool
  spared d = not (is_target tenant targets d && any (runs_over tenant now d) sessions)

  spared_by_names :
      mem "all" targets ≡ false
      → find (λ e. is_none e.group_name) (running_exams sessions tenant now) ≡ none
      → first_in_exam
          (running_exams sessions tenant now)
          (filter (is_named tenant (filter (λ t. not (t == "all")) targets)) devices)
        ≡ nothing_runs
      → all spared devices ≡ true
  spared_by_names h k f =
      all-congr _ _ devices (λ d.
        ground (arith, mem_without_all d.client_id targets h, any_running sessions tenant now d))
      ∙ first_in_exam-none (running_exams sessions tenant now)
          (is_named tenant (filter (λ t. not (t == "all")) targets)) devices k f

  spared_by_silence : running_exams sessions tenant now ≡ [] → all spared devices ≡ true
  spared_by_silence h =
      all-congr spared (λ d. true) devices
        (λ d.
          let quiet =
            any_running sessions tenant now d
            ∙ ap (λ r. any (λ e. exam_covers e.group_name d.group_name) r) h in
          ground arith)
      ∙ all-true devices

  -- A broadcast is let through only if no exam of the organization runs over a workstation that it goes
  -- to.
  pub exam_blocking_broadcast_none :
      exam_blocking_broadcast sessions devices tenant targets now ≡ nothing_runs
      → all spared devices ≡ true
  unfolding exam_blocking_broadcast
  exam_blocking_broadcast_none h =
      let everyone = find (λ e. is_none e.group_name) (running_exams sessions tenant now) in
      elim (Bool-cases (is_some everyone || mem "all" targets)) [
        | inl whole ↦ spared_by_silence (
            no_exams everyone (running_exams sessions tenant now)
              (rw (whole, exam_blocking_broadcast) at h))
        | inr named ↦
            spared_by_names (split_or _ _ named).1 (is_some-false everyone (split_or _ _ named).0)
              (rw (named, exam_blocking_broadcast) at h)
      ]
