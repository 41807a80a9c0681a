-- ===== src/Lan/Waiting/Alarm.antt =====
-- cloudflare-control/src/org_hub.ts: the alarm that ends the waiting of workstations for their site.
use labkiosk.Shared.{
  ℕ, ◌+◌, ◌<◌, ◌≡◌, ◌⊎◌, inl, inr, refl, sym, ap, ◌∙◌, Bool, true, false, Option, none, some, List,
  [], ◌∷◌, ◌++◌, map, String, ◌==◌, nat_eq, string_eq, option_beq, leb, ltb, min, any, all, All,
  map-append, append_snoc, Bool-cases, if◌then◌else◌, arith,
}
use labkiosk.Lan.Decision.{Decision, go, hold, lan_decision, lan_hold_max_ms, waited_long}
use labkiosk.Lan.Waiting.{
  Device, Hub, Due, Nudged, waits_since, site_members, wait_on, held_at, or_tell, tell_of_release,
  clear_held, wait_for_site, nudge_due, release_nudge_due, nudge_socket,
}
use labkiosk.Lan.Waiting.Loop.{
  turn, after_turn, is_overdue, nudge_each, nudge_waiting, sooner, wait_end_from, next_wait_end,
}
use labkiosk.Lan.Waiting.Ends.{IsFresh, nudge_each-IsFresh}

-- Since when the workstation of a socket waits.
abbrev pub wait_of : Device → Option ℕ
wait_of d = waits_since d.lan_held_since

abbrev pub is_wait : Option ℕ → Bool
is_wait none = false
is_wait (some since) = true

abbrev pub ends_just_at : ℕ → Option ℕ → Bool
ends_just_at end none = false
ends_just_at end (some since) = since + lan_hold_max_ms == end

abbrev pub ends_from : ℕ → Option ℕ → Bool
ends_from end none = true
ends_from end (some since) = leb end (since + lan_hold_max_ms)

-- No time exactly if nobody waits, else a later time that is the first end of a wait.
abbrev pub IsNextEnd : ℕ → Option ℕ → List (Option ℕ) → Type 0
IsNextEnd now none waits = any is_wait waits ≡ false
IsNextEnd now (some end) waits =
    (now < end) × (all (ends_from end) waits ≡ true) × (any (ends_just_at end) waits ≡ true)

-- The same with an end that is known before.
abbrev not_after : ℕ → Option ℕ → Bool
not_after end none = true
not_after end (some next) = leb end next

abbrev Covers : ℕ → Option ℕ → Option ℕ → List (Option ℕ) → Type 0
Covers now next none waits = (next ≡ none) × (any is_wait waits ≡ false)
Covers now next (some end) waits =
    (now < end)
    × (not_after end next ≡ true)
    × (all (ends_from end) waits ≡ true)
    × ((next ≡ some end) ⊎ (any (ends_just_at end) waits ≡ true))

earlier_of :
    (next since end : ℕ) (waits : List (Option ℕ))
    → some (min next (since + lan_hold_max_ms)) ≡ some end
    → (some next ≡ some end) ⊎ (any (ends_just_at end) (some since ∷ waits) ≡ true)
earlier_of next since end waits e =
    let least : min next (since + lan_hold_max_ms) ≡ end = cc in
    elim (Bool-cases (leb next (since + lan_hold_max_ms))) [
      | inl le ↦ inl (ap some (ground arith))
      | inr gt ↦ inr (ground arith)
    ]

still_to_come :
    (now : ℕ) (next wait : Option ℕ)
    → waited_long wait now ≡ false
    → elim next [ none ↦ true | some end ↦ ltb now end ] ≡ true
    → elim (sooner next wait) [ none ↦ true | some end ↦ ltb now end ] ≡ true
still_to_come now next none h k = k
still_to_come now none (some since) h k = ground arith
still_to_come now (some next) (some since) h k = ground arith

cover_step :
    (now : ℕ) (next wait r : Option ℕ) (waits : List (Option ℕ))
    → Covers now (sooner next wait) r waits
    → Covers now next r (wait ∷ waits)
cover_step now next none none waits h = h
cover_step now next none (some end) waits h = h
cover_step now next (some since) none waits h = cc
cover_step now none (some since) (some end) waits (later, low, rest, found) =
    (later, refl, ground arith, inr (elim found [ inl e ↦ ground arith | inr e ↦ ground arith ]))
cover_step now (some next) (some since) (some end) waits (later, low, rest, found) = (
  later,
  ground arith,
  ground arith,
  elim found [ inl e ↦ earlier_of next since end waits e | inr e ↦ inr (ground arith) ],
)

-- Waits not ended, and an end known before that is to come.
covers :
    (now : ℕ) (next : Option ℕ) (ds : List Device)
    → All (IsFresh now) ds
    → elim next [ none ↦ true | some end ↦ ltb now end ] ≡ true
    → Covers now next (wait_end_from next ds) (map wait_of ds)
covers now none [] h k = (refl, refl)
covers now (some end) [] h k = (ground arith, ground arith, refl, inl refl)
covers now next (d ∷ ds) (h, hs) k =
    cover_step now next (wait_of d) (wait_end_from next (d ∷ ds)) (map wait_of ds)
      (covers now (sooner next (wait_of d)) ds hs (still_to_come now next (wait_of d) h k))

next_end :
    (now : ℕ) (r : Option ℕ) (waits : List (Option ℕ))
    → Covers now none r waits
    → IsNextEnd now r waits
next_end now none waits (e, h) = h
next_end now (some end) waits (later, low, rest, inl e) = cc
next_end now (some end) waits (later, low, rest, inr e) = (later, rest, e)

-- Sockets stay in their places.
abbrev pub socket_of : Device → ℕ
socket_of d = d.socket

clear_socket : (held : Option ℕ) (d : Device) → (clear_held held d).socket ≡ d.socket
clear_socket none d = refl
clear_socket (some since) d = refl

held_socket :
    (since : Option ℕ) (hub : Hub) (d : Device) (now : ℕ)
    → (held_at since hub d now).device.socket ≡ d.socket
held_socket none hub d now = refl
held_socket (some since) hub d now = refl

wait_socket :
    (sharing : Bool) (decision : Decision) (hub : Hub) (d : Device) (due : Due) (now : ℕ)
    → (or_tell (if sharing then wait_on decision hub d now else none) hub d due now).device.socket
      ≡ d.socket
wait_socket false decision hub d due now = refl
wait_socket true go hub d due now = refl
wait_socket true hold hub d due now = held_socket (waits_since d.lan_held_since) hub d now

told_socket :
    (b : Bool) (wait : Option Nudged) (hub : Hub) (d : Device) (due : Due) (now : ℕ)
    → (or_tell wait hub d due now).device.socket ≡ d.socket
    → (if b then or_tell wait hub d due now else tell_of_release hub d due now).device.socket
      ≡ d.socket
told_socket false wait hub d due now h = refl
told_socket true wait hub d due now h = h

due_socket :
    (due : Option Due) (hub : Hub) (d : Device) (now : ℕ)
    → (nudge_due due hub d now).device.socket ≡ d.socket
unfolding nudge_due wait_for_site
due_socket none hub d now = clear_socket (waits_since d.lan_held_since) d
due_socket (some due) hub d now =
    told_socket (due.key == due.version) (wait_for_site hub d due.version now) hub d due now (
      wait_socket (option_beq hub.lan_sharing (some 1))
        (lan_decision d.member due.version (site_members hub now) d.lan_held_since now) hub d due
        now)

module _ (target : Device → Option String) where
  turn-socket :
      (b : Bool) (hub : Hub) (d : Device) (now : ℕ)
      → (turn target b hub d now).device.socket ≡ d.socket
  unfolding nudge_socket nudge_due
  turn-socket false hub d now = refl
  turn-socket true hub d now = due_socket (release_nudge_due target d now) hub d now

  nudge_each-sockets :
      (test : Device → Bool) (now : ℕ) (hub : Hub) (before rest : List Device)
      → hub.sockets ≡ before ++ rest
      → map socket_of (nudge_each target test now hub before rest).sockets
        ≡ map socket_of before ++ map socket_of rest
  nudge_each-sockets test now hub before [] e =
      ap (map socket_of) e ∙ map-append socket_of before []
  nudge_each-sockets test now hub before (d ∷ rest) e =
      let n = turn target (test d) hub d now in
      nudge_each-sockets test now (after_turn hub before n rest) (before ++ n.device ∷ []) rest
        (sym (append_snoc before n.device rest))
      ∙ ap (λ ids. ids ++ map socket_of rest) (map-append socket_of before (n.device ∷ []))
      ∙ append_snoc (map socket_of before) n.device.socket (map socket_of rest)
      ∙ ap (λ id. map socket_of before ++ id ∷ map socket_of rest) (turn-socket (test d) hub d now)

  -- After the alarm, the sockets are those of before, no workstation waits that has waited an hour, and
  -- the time that the alarm is set to next is the first end of a wait, or none where nobody waits.
  pub nudge_waiting-ends :
      (hub : Hub) (now : ℕ)
      → (map socket_of (nudge_waiting target hub now).sockets ≡ map socket_of hub.sockets)
        × All (IsFresh now) (nudge_waiting target hub now).sockets
        × IsNextEnd now
            (next_wait_end (nudge_waiting target hub now))
            (map wait_of (nudge_waiting target hub now).sockets)
  unfolding nudge_waiting next_wait_end
  nudge_waiting-ends hub now =
      let fresh = nudge_each-IsFresh target now hub [] hub.sockets refl tt in
      let after = nudge_each target (is_overdue target now) now hub [] hub.sockets in
      (
        nudge_each-sockets (is_overdue target now) now hub [] hub.sockets refl,
        fresh,
        next_end now (wait_end_from none after.sockets) (map wait_of after.sockets)
            (covers now none after.sockets fresh refl),
      )
