-- ===== src/Seats/Order.antt =====
-- Who loses a licence, and who gets one back: by when a workstation was last seen.
use labkiosk.Shared.{
  ℕ, ◌≤◌, ◌≡◌, refl, Bool, true, false, ◌||◌, List, [], ◌∷◌, ◌++◌, map, String, ◌==◌, string_eq,
  mem, filter, take, drop, sort, All, All-sort, IsSortedBy, sort-IsSortedBy, insert,
  take-drop-IsSortedBy, All-take, All-drop, All-both, take-append-drop, arith, eq_iff, Bool-cases,
  inl, inr, ap,
}
use labkiosk.Seats.{
  Seating, EnrolledWorkstation, enrolled, ids, oldest_first, newest_first, last_seen_of,
}

-- Seen no later, and seen no earlier.
abbrev pub SeenBefore : EnrolledWorkstation → EnrolledWorkstation → Type 0
SeenBefore a b = a.last_seen ≤ b.last_seen

abbrev pub SeenAfter : EnrolledWorkstation → EnrolledWorkstation → Type 0
SeenAfter a b = b.last_seen ≤ a.last_seen

module _ (locale_le : String → String → Bool) (ws : List EnrolledWorkstation) where
  pub sort-oldest_first : IsSortedBy SeenBefore (sort (oldest_first locale_le) ws)
  unfolding oldest_first
  sort-oldest_first =
      sort-IsSortedBy SeenBefore (λ x y z h k. omega arith) (oldest_first locale_le)
        (λ x y e. ground arith) (λ x y e. ground arith) ws

  pub sort-newest_first : IsSortedBy SeenAfter (sort (newest_first locale_le) ws)
  unfolding newest_first
  sort-newest_first =
      sort-IsSortedBy SeenAfter (λ x y z h k. omega arith) (newest_first locale_le)
        (λ x y e. ground arith) (λ x y e. ground arith) ws

-- The workstation that an id of a list stands for, with what holds of every one.
pub pick :
    (P : EnrolledWorkstation → Type 0) (ws : List EnrolledWorkstation) (client : String)
    → All P ws
    → mem client (ids ws) ≡ true
    → (w : EnrolledWorkstation) × (w.client_id ≡ client) × P w
pick P [] client h m = cc
pick P (w ∷ ws) client (h, hs) m = elim (Bool-cases (w.client_id == client)) [
  | inl e ↦ (w, (eq_iff w.client_id client).0 e, h)
  | inr e ↦ pick P ws client hs (ground arith)
]

pub mem-ids-append :
    (xs ys : List EnrolledWorkstation) (client : String)
    → mem client (ids (xs ++ ys)) ≡ (mem client (ids xs) || mem client (ids ys))
mem-ids-append [] ys client = refl
mem-ids-append (x ∷ xs) ys client = ground (arith, mem-ids-append xs ys client)

-- A workstation as the tables describe it.
abbrev pub IsDescribed : Seating → String → EnrolledWorkstation → Type 0
IsDescribed db tenant w = w.last_seen ≡ last_seen_of db.client_devices tenant w.client_id

All-IsDescribed :
    (db : Seating) (tenant : String) (p : EnrolledWorkstation → Bool) (cs : List String)
    → All (IsDescribed db tenant) (filter p (map (enrolled db tenant) cs))
All-IsDescribed db tenant p [] = tt
All-IsDescribed db tenant p (c ∷ cs) = ground (arith, All-IsDescribed db tenant p cs)

module _ (before : EnrolledWorkstation → EnrolledWorkstation → Bool) (client : String) where
  mem-ids-insert :
      (w : EnrolledWorkstation) (ws : List EnrolledWorkstation)
      → mem client (ids (insert before w ws)) ≡ mem client (ids (w ∷ ws))
  mem-ids-insert w [] = refl
  mem-ids-insert w (v ∷ vs) = ground (arith, mem-ids-insert w vs)

  pub mem-ids-sort :
      (ws : List EnrolledWorkstation) → mem client (ids (sort before ws)) ≡ mem client (ids ws)
  mem-ids-sort [] = refl
  mem-ids-sort (w ∷ ws) = ground (arith, mem-ids-insert w (sort before ws), mem-ids-sort ws)

mem-ids-filter :
    (db : Seating) (tenant client : String) (p : EnrolledWorkstation → Bool) (cs : List String)
    → mem client cs ≡ true
    → p (enrolled db tenant client) ≡ true
    → mem client (ids (filter p (map (enrolled db tenant) cs))) ≡ true
mem-ids-filter db tenant client p [] m h = cc
mem-ids-filter db tenant client p (c ∷ cs) m h =
    ground (arith, mem-ids-filter db tenant client p cs, eq_iff c client)

-- An id in a choice is one of those chosen from, and passes the test.
pub mem-ids-chosen :
    (db : Seating) (tenant client : String) (p : EnrolledWorkstation → Bool) (cs : List String)
    → mem client (ids (filter p (map (enrolled db tenant) cs))) ≡ true
    → (mem client cs ≡ true) × (p (enrolled db tenant client) ≡ true)
mem-ids-chosen db tenant client p [] m = cc
mem-ids-chosen db tenant client p (c ∷ cs) m =
    ground (arith, mem-ids-chosen db tenant client p cs, eq_iff c client)

-- What is taken off the front of an ordered choice stands in the relation to what passes the test
-- and is left.
module _ (db : Seating) (tenant : String) (cs : List String)
    (before : EnrolledWorkstation → EnrolledWorkstation → Bool) (p : EnrolledWorkstation → Bool)
    (R : EnrolledWorkstation → EnrolledWorkstation → Type 0) where
  abbrev chosen : List EnrolledWorkstation
  chosen = sort before (filter p (map (enrolled db tenant) cs))

  pub front_before_rest :
      (n : ℕ) (u k : String)
      → IsSortedBy R chosen
      → mem u (ids (take n chosen)) ≡ true
      → mem k cs ≡ true
      → p (enrolled db tenant k) ≡ true
      → mem k (ids (take n chosen)) ≡ false
      → (w v : EnrolledWorkstation) × (w.client_id ≡ u)
        × (v.client_id ≡ k)
        × R w v
        × IsDescribed db tenant w
        × IsDescribed db tenant v
  front_before_rest n u k sorted mu mk pk out =
      let described : All (IsDescribed db tenant) chosen =
        All-sort before (IsDescribed db tenant) (filter p (map (enrolled db tenant) cs))
          (All-IsDescribed db tenant p cs) in
      let left : mem k (ids (drop n chosen)) ≡ true = ground (
        arith,
        mem-ids-append (take n chosen) (drop n chosen) k,
        ap ids (take-append-drop n chosen),
        mem-ids-sort before k (filter p (map (enrolled db tenant) cs)),
        mem-ids-filter db tenant k p cs,
      ) in
      let (w, at_u, (ahead, dw)) =
        pick (λ a. All (R a) (drop n chosen) × IsDescribed db tenant a) (take n chosen) u
          (All-both (λ a. All (R a) (drop n chosen)) (IsDescribed db tenant) (take n chosen)
            (take-drop-IsSortedBy R n chosen sorted)
            (All-take (IsDescribed db tenant) n chosen described))
          mu in
      let (v, at_k, (behind, dv)) =
        pick (λ b. R w b × IsDescribed db tenant b) (drop n chosen) k
          (All-both (R w) (IsDescribed db tenant) (drop n chosen) ahead
            (All-drop (IsDescribed db tenant) n chosen described))
          left in
      (w, v, at_u, at_k, behind, dw, dv)
