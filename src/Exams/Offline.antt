-- ===== src/Exams/Offline.antt =====
-- The time that the board of an exam calls offline, against a count of the seconds themselves.
use labkiosk.Shared.{
  ℕ, zero, suc, ◌+◌, ◌-◌, ◌≤◌, ◌≡◌, ap, refl, Bool, true, false, List, [], ◌∷◌, leb, if◌then◌else◌,
  arith,
}
use labkiosk.Exams.Sessions.{EventRow, ExamEvent, start_online, start_offline, connect, disconnect}
use labkiosk.Exams.Board.{Account, account, round_of, settled, opening}

abbrev pub changed : Bool → ExamEvent → Bool
changed online connect = true
changed online disconnect = false
changed online start_online = online
changed online start_offline = online

-- Whether a workstation is online in the second `t`: the last change up to then counts.
abbrev pub online_in : Bool → List EventRow → ℕ → Bool
online_in online [] t = online
online_in online (e ∷ es) t =
    let later = online_in (changed online e.event) es t in if leb e.at t then later else online

-- Of the `n` seconds from `from`, those in which it is not.
abbrev pub offline_count : Bool → List EventRow → ℕ → ℕ → ℕ
offline_count online es from zero = 0
offline_count online es from (suc n) =
    (if online_in online es from then 0 else 1) + offline_count online es (suc from) n

-- The events stand in the order of their times, from `from` to `until`.
abbrev pub AreInOrder : ℕ → ℕ → List EventRow → Type 0
AreInOrder from until [] = from ≤ until
AreInOrder from until (e ∷ es) = (from ≤ e.at) × AreInOrder e.at until es

AreInOrder-le : (from until : ℕ) (es : List EventRow) → AreInOrder from until es → from ≤ until
AreInOrder-le from until [] h = h
AreInOrder-le from until (e ∷ es) (h, hs) = omega (arith, AreInOrder-le e.at until es hs)

count_without_events :
    (online : Bool) (from n : ℕ) → offline_count online [] from n ≡ (if online then 0 else n)
count_without_events online from zero = ground arith
count_without_events online from (suc n) = ground (arith, count_without_events online (suc from) n)

count_before :
    (online : Bool) (e : EventRow) (es : List EventRow) (from n : ℕ)
    → from + n ≤ e.at
    → offline_count online (e ∷ es) from n ≡ (if online then 0 else n)
count_before online e es from zero h = ground arith
count_before online e es from (suc n) h =
    let rest = count_before online e es (suc from) n (omega arith) in ground arith

count_after :
    (online : Bool) (e : EventRow) (es : List EventRow) (from n : ℕ)
    → e.at ≤ from
    → offline_count online (e ∷ es) from n ≡ offline_count (changed online e.event) es from n
count_after online e es from zero h = refl
count_after online e es from (suc n) h =
    let rest = count_after online e es (suc from) n (omega arith) in ground arith

count_split :
    (online : Bool) (es : List EventRow) (from k m n middle : ℕ)
    → n ≡ k + m
    → middle ≡ from + k
    → offline_count online es from n
      ≡ offline_count online es from k + offline_count online es middle m
count_split online es from zero m n middle p q =
    let same : n ≡ m = omega arith in
    let here : middle ≡ from = omega arith in rw (same, here) (omega arith)
count_split online es from (suc k) m zero middle p q = absurd (omega arith)
count_split online es from (suc k) m (suc n) middle p q =
    omega (arith, count_split online es (suc from) k m n middle (omega arith) (omega arith))

-- Up to its first event a workstation stays as it is.
count_event :
    (online : Bool) (e : EventRow) (es : List EventRow) (from until : ℕ)
    → from ≤ e.at
    → e.at ≤ until
    → offline_count online (e ∷ es) from (until - from)
      ≡ (if online then 0 else e.at - from)
        + offline_count (changed online e.event) es e.at (until - e.at)
count_event online e es from until h k =
    let split =
      count_split online (e ∷ es) from (e.at - from) (until - e.at) (until - from) e.at
        (omega arith) (omega arith) in
    let first = count_before online e es from (e.at - from) (omega arith) in
    let second = count_after online e es e.at (until - e.at) (omega arith) in omega arith

round_of-since :
    (event : ExamEvent) (at : ℕ) (a : Account)
    → a.offline_since ≤ at
    → (round_of event at a).offline_since ≤ at
round_of-since event at a h = ground arith

round_of-online :
    (event : ExamEvent) (at : ℕ) (a : Account)
    → (round_of event at a).online ≡ changed a.online event
round_of-online event at a = ground arith

round_of-seconds :
    (event : ExamEvent) (from at : ℕ) (a : Account)
    → a.offline_since ≤ from
    → from ≤ at
    → (round_of event at a).offline_seconds
        + (if (round_of event at a).online then 0 else at - (round_of event at a).offline_since)
      ≡ a.offline_seconds
        + (if a.online then 0 else from - a.offline_since)
        + (if a.online then 0 else at - from)
round_of-seconds event from at a h k = ground arith

account_lem :
    (es : List EventRow) (a : Account) (from until : ℕ)
    → AreInOrder from until es
    → a.offline_since ≤ from
    → settled true until (account es a)
      ≡ a.offline_seconds
        + (if a.online then 0 else from - a.offline_since)
        + offline_count a.online es from (until - from)
unfolding account
account_lem [] a from until h k =
    let rest = count_without_events a.online from (until - from) in ground arith
account_lem (e ∷ es) a from until (h, hs) k =
    let split = count_event a.online e es from until h (AreInOrder-le e.at until es hs) in
    let next =
      account_lem es (round_of e.event e.at a) e.at until hs
        (round_of-since e.event e.at a (omega arith)) in
    let online = round_of-online e.event e.at a in
    let here = ap (λ b. offline_count b es e.at (until - e.at)) online in
    let seconds = round_of-seconds e.event from e.at a k h in omega arith

-- For events in order from the start to the end of the window, the board's time offline is the number
-- of seconds of the window in which the workstation was not online.
pub account_counts_offline :
    (es : List EventRow) (online : Bool) (starts_at until : ℕ)
    → AreInOrder starts_at until es
    → settled true until (account es (opening online starts_at))
      ≡ offline_count online es starts_at (until - starts_at)
account_counts_offline es online starts_at until h =
    let all_seconds = account_lem es (opening online starts_at) starts_at until h (omega arith) in
    ground arith
