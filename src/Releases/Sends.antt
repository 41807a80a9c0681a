-- ===== src/Releases/Sends.antt =====
-- The request to install releases: who is sent the command, and who is named with a reason.
use Prim.Native.String.{String}
use labkiosk.Shared.{
  ◌+◌, ◌≡◌, ◌≢◌, refl, Bool, true, false, ◌&&◌, any, option_beq_iff, All-imp, sym, ap, ◌∙◌, not,
  Option, none, some, List, [], ◌∷◌, ◌++◌, map, map-append, ◌==◌, string_eq, filter, count-append,
  occurrences, occurrences-filter, ==_sym, All, All-snoc, Bool-cases, inl, inr, if◌then◌else◌,
  arith,
}
use mathlib.Core.Path.{subst}
use labkiosk.Lan.Decision.{
  UpdatePhase, UpdateReport, live, idle, checking, downloading, ready, staged, installing,
  up_to_date, error,
}
use labkiosk.Releases.Updates.{LiveStatus, is_ready_phase}
use labkiosk.Releases.Install.{
  HubConfig, is_client_id, unique_ids, selected, Answer, sends, skips, install_answer, Batch,
  Sorted, add_to, sort_in, sort_all, sent_in, install_update, skipped_id, is_sent,
}
use labkiosk.Releases.Ready.{holds_ready, is_ready_for, install_answer-ready}

occurrences-add_to :
    (version id c : String) (bs : List Batch)
    → occurrences c (sent_in (add_to version id bs))
      ≡ occurrences c (sent_in bs) + occurrences c (id ∷ [])
occurrences-add_to version id c [] = omega arith
occurrences-add_to version id c (b ∷ bs) =
    let ih = occurrences-add_to version id c bs in
    let sum = count-append (λ x. x == c) b.targets (sent_in bs) in
    elim (Bool-cases (b.version == version)) [
      | inl e ↦ rw e (
          count-append (λ x. x == c) (b.targets ++ id ∷ []) (sent_in bs)
          ∙ omega (arith, count-append (λ x. x == c) b.targets (id ∷ []), sum))
      | inr e ↦ rw e (
          count-append (λ x. x == c) b.targets (sent_in (add_to version id bs))
          ∙ omega (arith, ih, sum))
    ]

-- What the loop has sent and skipped, of the identifiers that it has gone through.
sort_in-sent :
    (a : Answer) (id c : String) (s : Sorted)
    → occurrences c (sent_in (sort_in a id s).by_version)
      ≡ occurrences c (sent_in s.by_version) + (if is_sent a then occurrences c (id ∷ []) else 0)
sort_in-sent (sends version) id c s = occurrences-add_to version id c s.by_version
sort_in-sent (skips reason) id c s = omega arith

sort_in-skipped :
    (a : Answer) (id c : String) (s : Sorted)
    → occurrences c (map skipped_id (sort_in a id s).skipped)
      ≡ occurrences c (map skipped_id s.skipped)
        + (if is_sent a then 0 else occurrences c (id ∷ []))
sort_in-skipped (sends version) id c s = omega arith
sort_in-skipped (skips reason) id c s =
    ap (occurrences c)
      (map-append skipped_id s.skipped (record { client_id = id; reason = reason } ∷ []))
    ∙ count-append (λ x. x == c) (map skipped_id s.skipped) (id ∷ [])

module _ (answers : String → Answer) where
  sort_all-sent :
      (ids : List String) (c : String) (s : Sorted)
      → occurrences c (sent_in (sort_all answers ids s).by_version)
        ≡ occurrences c (sent_in s.by_version)
          + occurrences c (filter (λ id. is_sent (answers id)) ids)
  sort_all-sent [] c s = omega arith
  sort_all-sent (id ∷ ids) c s =
      let ih = sort_all-sent ids c (sort_in (answers id) id s) in
      let here = sort_in-sent (answers id) id c s in ground arith

  sort_all-skipped :
      (ids : List String) (c : String) (s : Sorted)
      → occurrences c (map skipped_id (sort_all answers ids s).skipped)
        ≡ occurrences c (map skipped_id s.skipped)
          + occurrences c (filter (λ id. not (is_sent (answers id))) ids)
  sort_all-skipped [] c s = omega arith
  sort_all-skipped (id ∷ ids) c s =
      let ih = sort_all-skipped ids c (sort_in (answers id) id s) in
      let here = sort_in-skipped (answers id) id c s in ground arith

-- A request that has an array names `c` in it.
abbrev pub names : Option (List String) → String → Bool
names none c = false
names (some ids) c = any (λ id. id == c) ids

occurrences-unique_ids :
    (ids : List String) (c : String)
    → occurrences c (unique_ids ids) ≡ (if any (λ id. id == c) ids then 1 else 0)
occurrences-unique_ids [] c = refl
occurrences-unique_ids (id ∷ ids) c =
    let ih = occurrences-unique_ids ids c in
    let rest = occurrences-filter (λ x. not (x == id)) c (unique_ids ids) in
    ground (arith, ==_sym c id)

occurrences-selected :
    (raw : Option (List String)) (c : String)
    → occurrences c (selected raw) ≡ (if names raw c && is_client_id c then 1 else 0)
unfolding selected
occurrences-selected none c = refl
occurrences-selected (some ids) c =
    let once = occurrences-unique_ids ids c in
    let kept = occurrences-filter is_client_id c (unique_ids ids) in ground arith

-- The workstations that some commands are for, one command after another.
abbrev pub commanded : List Batch → List String
commanded [] = []
commanded (b ∷ bs) = b.targets ++ commanded bs

sent_in-commanded : (bs : List Batch) → sent_in bs ≡ commanded bs
sent_in-commanded [] = refl
sent_in-commanded (b ∷ bs) = ap (λ rest. b.targets ++ rest) (sent_in-commanded bs)

abbrev IsReadyBatch : (String → Option LiveStatus) → Batch → Type 0
IsReadyBatch reports b = All (λ id. is_ready_for (reports id) b.version ≡ true) b.targets

-- A workstation is online and holds a version verified, and does not run it.
abbrev pub IsReadyFor : Option LiveStatus → String → Type 0
IsReadyFor none version = ⊥
IsReadyFor (some status) version =
    (status.online ≡ true)
    × ((update : UpdateReport) × (status.update ≡ some update)
        × (update.phase ≡ ready)
        × (update.version ≡ some version))
    × (status.image_version ≢ some version)

-- Every target of a command is ready for the version of the command.
abbrev pub IsForReady : (String → Option LiveStatus) → Batch → Type 0
IsForReady reports b = All (λ id. IsReadyFor (reports id) b.version) b.targets

ready_phase : (phase : UpdatePhase) → is_ready_phase phase ≡ true → phase ≡ ready
ready_phase ready h = refl
ready_phase live h = cc
ready_phase idle h = cc
ready_phase checking h = cc
ready_phase downloading h = cc
ready_phase staged h = cc
ready_phase installing h = cc
ready_phase up_to_date h = cc
ready_phase error h = cc

holds_ready-report :
    (o : Option UpdateReport) (version : String)
    → holds_ready o version ≡ true
    → (update : UpdateReport) × (o ≡ some update)
      × (update.phase ≡ ready)
      × (update.version ≡ some version)
holds_ready-report none version h = cc
holds_ready-report (some update) version h = (
  update,
  refl,
  ready_phase update.phase (ground arith),
  (option_beq_iff update.version (some version)).0 (ground arith),
)

is_ready_for-IsReadyFor :
    (o : Option LiveStatus) (version : String)
    → is_ready_for o version ≡ true
    → IsReadyFor o version
is_ready_for-IsReadyFor none version h = cc
is_ready_for-IsReadyFor (some status) version h = (
  ground arith,
  holds_ready-report status.update version (ground arith),
  λ runs. let same = (option_beq_iff status.image_version (some version)).1 runs in ground arith,
)

IsReadyBatch-IsForReady :
    (reports : String → Option LiveStatus) (b : Batch)
    → IsReadyBatch reports b
    → IsForReady reports b
IsReadyBatch-IsForReady reports b h =
    All-imp (λ id. is_ready_for (reports id) b.version ≡ true)
      (λ id. IsReadyFor (reports id) b.version) b.targets
      (λ id k. is_ready_for-IsReadyFor (reports id) b.version k) h

add_to-IsReady :
    (reports : String → Option LiveStatus) (version id : String) (bs : List Batch)
    → is_ready_for (reports id) version ≡ true
    → All (IsReadyBatch reports) bs
    → All (IsReadyBatch reports) (add_to version id bs)
add_to-IsReady reports version id [] r h = ((r, tt), tt)
add_to-IsReady reports version id (b ∷ bs) r (h, hs) = elim (Bool-cases (b.version == version)) [
  | inl e ↦ rw e (
    All-snoc (λ i. is_ready_for (reports i) b.version ≡ true) b.targets id h
        (subst (λ v. is_ready_for (reports id) v ≡ true)
          (sym ((string_eq.same_iff b.version version).0 e)) r),
    hs,
  )
  | inr e ↦ rw e (h, add_to-IsReady reports version id bs r hs)
]

module _ (reports : String → Option LiveStatus) (answers : String → Answer)
    (sound : (id version : String)
      → answers id ≡ sends version
      → is_ready_for (reports id) version ≡ true) where
  sort_in-IsReady :
      (a : Answer) (id : String) (s : Sorted)
      → answers id ≡ a
      → All (IsReadyBatch reports) s.by_version
      → All (IsReadyBatch reports) (sort_in a id s).by_version
  sort_in-IsReady (sends version) id s e h =
      add_to-IsReady reports version id s.by_version (sound id version e) h
  sort_in-IsReady (skips reason) id s e h = h

  sort_all-IsReady :
      (ids : List String) (s : Sorted)
      → All (IsReadyBatch reports) s.by_version
      → All (IsReadyBatch reports) (sort_all answers ids s).by_version
  sort_all-IsReady [] s h = h
  sort_all-IsReady (id ∷ ids) s h =
      sort_all-IsReady ids (sort_in (answers id) id s) (sort_in-IsReady (answers id) id s refl h)

-- Of each workstation, those that are sent the command and those that are named with a reason are one
-- if the request names it and it is a client identifier, and none if not; those that are sent it are
-- the targets of the commands that go out, each of a version that is told; and a command is only for
-- workstations that are online and hold its version verified, and do not run it.
pub install_update-sorts :
    (config : Option HubConfig) (reports : String → Option LiveStatus) (raw : Option (List String))
    (c : String)
    → (occurrences c (install_update config reports raw).sent
          + occurrences c (map skipped_id (install_update config reports raw).skipped)
        ≡ (if names raw c && is_client_id c then 1 else 0))
      × ((install_update config reports raw).sent
          ≡ commanded (install_update config reports raw).commands)
      × ((install_update config reports raw).versions
          ≡ map (λ b. b.version) (install_update config reports raw).commands)
      × All (IsForReady reports) (install_update config reports raw).commands
unfolding install_update
install_update-sorts config reports raw c =
    let start : Sorted = record { by_version = []; skipped = [] } in
    let ids = selected raw in
    let answers = install_answer config reports in
    let out = sort_all answers ids start in
    let sent = sort_all-sent answers ids c start in
    let skipped = sort_all-skipped answers ids c start in
    let yes_part = occurrences-filter (λ id. is_sent (answers id)) c ids in
    let no_part = occurrences-filter (λ id. not (is_sent (answers id))) c ids in
    let once = occurrences-selected raw c in
    (
      ground arith,
      sent_in-commanded out.by_version,
      refl,
      All-imp (IsReadyBatch reports) (IsForReady reports) out.by_version
          (IsReadyBatch-IsForReady reports)
          (sort_all-IsReady reports answers (install_answer-ready config reports) ids start tt),
    )
