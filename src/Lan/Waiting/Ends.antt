-- ===== src/Lan/Waiting/Ends.antt =====
-- How long a workstation waits for its site.
use labkiosk.Shared.{
  ℕ, ◌≡◌, ◌≢◌, refl, sym, ◌∙◌, Bool, true, false, Option, none, some, List, [], ◌∷◌, ◌++◌, String,
  All, All-snoc, option_beq, nat_eq, string_eq, ◌==◌, append_nil, append_snoc, if◌then◌else◌, arith,
}
use mathlib.Core.Path.{subst}
use labkiosk.Lan.Decision.{
  SiteMember, Decision, go, hold, waited_long, lan_decision, lan_decision-hold_lem,
}
use labkiosk.Lan.Waiting.{
  Device, Hub, Due, Nudged, clear_held, waits_since, site_members, wait_on, wait_for_site, or_tell,
  tell_of_release, nudge_due, release_nudge_due, nudge_socket,
}
use labkiosk.Lan.Waiting.Loop.{turn, after_turn, is_overdue, nudge_each}

-- The workstation does not wait, or has waited for less than an hour.
abbrev pub IsFresh : ℕ → Device → Type 0
IsFresh now d = waited_long (waits_since d.lan_held_since) now ≡ false

long_of_since :
    (held : Option ℕ) (now : ℕ)
    → waited_long (waits_since held) now ≡ true
    → waited_long held now ≡ true
long_of_since none now h = h
long_of_since (some since) now h = ground arith

cleared :
    (held : Option ℕ) (now : ℕ) (d : Device)
    → held ≡ waits_since d.lan_held_since
    → IsFresh now (clear_held held d)
cleared none now d e = rw (sym e) refl
cleared (some since) now d e = refl

-- A workstation that has waited an hour does not wait on.
no_wait :
    (decision : Decision) (hub : Hub) (d : Device) (now : ℕ)
    → decision ≢ hold
    → wait_on decision hub d now ≡ none
no_wait go hub d now h = refl
no_wait hold hub d now h = absurd (h refl)

none_unless : (b : Bool) (wait : Option Nudged) → wait ≡ none → (if b then wait else none) ≡ none
none_unless true wait h = h
none_unless false wait h = refl

not_hold :
    (d : Device) (version : String) (others : List SiteMember) (now : ℕ)
    → waited_long d.lan_held_since now ≡ true
    → lan_decision d.member version others d.lan_held_since now ≢ hold
not_hold d version others now h e =
    let (site, _, must) =
      (lan_decision-hold_lem d.member version others d.lan_held_since now).0 e in
    let (_, _, short) = must in cc

told_or_waits :
    (b : Bool) (wait : Option Nudged) (hub : Hub) (d : Device) (due : Due) (now : ℕ)
    → wait ≡ none
    → IsFresh now (if b then or_tell wait hub d due now else tell_of_release hub d due now).device
told_or_waits false wait hub d due now h = refl
told_or_waits true none hub d due now h = refl
told_or_waits true (some w) hub d due now h = cc

wait_for_site-ends :
    (hub : Hub) (d : Device) (version : String) (now : ℕ)
    → waited_long d.lan_held_since now ≡ true
    → wait_for_site hub d version now ≡ none
unfolding wait_for_site
wait_for_site-ends hub d version now h =
    let others = site_members hub now in
    none_unless (option_beq hub.lan_sharing (some 1))
      (wait_on (lan_decision d.member version others d.lan_held_since now) hub d now)
      (no_wait (lan_decision d.member version others d.lan_held_since now) hub d now
        (λ e. not_hold d version others now h e))

nudge_due-IsFresh :
    (due : Option Due) (hub : Hub) (d : Device) (now : ℕ)
    → waited_long d.lan_held_since now ≡ true
    → IsFresh now (nudge_due due hub d now).device
unfolding nudge_due
nudge_due-IsFresh none hub d now h = cleared (waits_since d.lan_held_since) now d refl
nudge_due-IsFresh (some due) hub d now h =
    told_or_waits (due.key == due.version) (wait_for_site hub d due.version now) hub d due now
      (wait_for_site-ends hub d due.version now h)

turn-IsFresh :
    (target : Device → Option String) (b : Bool) (hub : Hub) (d : Device) (now : ℕ)
    → is_overdue target now d ≡ b
    → IsFresh now (turn target b hub d now).device
unfolding nudge_socket
turn-IsFresh target false hub d now h = h
turn-IsFresh target true hub d now h =
    nudge_due-IsFresh (release_nudge_due target d now) hub d now
      (long_of_since d.lan_held_since now h)

-- Socket by socket: the hub's sockets are those that had their turn and those that have not.
pub nudge_each-IsFresh :
    (target : Device → Option String) (now : ℕ) (hub : Hub) (before rest : List Device)
    → hub.sockets ≡ before ++ rest
    → All (IsFresh now) before
    → All (IsFresh now) (nudge_each target (is_overdue target now) now hub before rest).sockets
nudge_each-IsFresh target now hub before [] e h =
    subst (All (IsFresh now)) (sym (e ∙ append_nil before)) h
nudge_each-IsFresh target now hub before (d ∷ rest) e h =
    let n = turn target (is_overdue target now d) hub d now in
    nudge_each-IsFresh target now (after_turn hub before n rest) (before ++ n.device ∷ []) rest
      (sym (append_snoc before n.device rest))
      (All-snoc (IsFresh now) before n.device h
        (turn-IsFresh target (is_overdue target now d) hub d now refl))
