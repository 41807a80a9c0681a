-- ===== src/Lan/Waiting/Loop.antt =====
-- cloudflare-control/src/org_hub.ts: the loops over the workstations of an organization that wait for
-- a release (nudgeSite, nudgeWaiting, nextWaitEnd).
use labkiosk.Shared.{
  ℕ, ◌+◌, Bool, true, false, not, ◌&&◌, Option, none, some, List, [], ◌∷◌, ◌++◌, String, ◌==◌,
  nat_eq, string_eq, min, option_beq, units_comparable, if◌then◌else◌,
}
use labkiosk.Lan.{site_key}
use labkiosk.Lan.Decision.{lan_hold_max_ms, waited_long}
use labkiosk.Lan.Waiting.{Device, Hub, Nudged, unchanged, waits_since, nudge_socket}

abbrev is_held : Device → Bool
is_held d = elim (waits_since d.lan_held_since) [ none ↦ false | some since ↦ true ]

-- The hub after a socket's turn: `before` had theirs, `rest` have not.
abbrev pub after_turn : Hub → List Device → Nudged → List Device → Hub
after_turn hub before n rest = record {
  lan_sharing = hub.lan_sharing;
  sockets = before ++ n.device ∷ rest;
  alarm = n.alarm;
  commands = n.commands;
  statuses = n.statuses;
}

module _ (target : Device → Option String) where
  abbrev pub turn : Bool → Hub → Device → ℕ → Nudged
  turn false hub d now = unchanged hub d
  turn true hub d now = nudge_socket target hub d now

  -- Every socket that passes the test is nudged, in order.
  abbrev pub nudge_each : (Device → Bool) → ℕ → Hub → List Device → List Device → Hub
  nudge_each test now hub before [] = hub
  nudge_each test now hub before (d ∷ rest) =
      let n = turn (test d) hub d now in
      nudge_each test now (after_turn hub before n rest) (before ++ n.device ∷ []) rest

  abbrev pub is_overdue : ℕ → Device → Bool
  is_overdue now d = waited_long (waits_since d.lan_held_since) now

  unfoldable pub nudge_waiting : Hub → ℕ → Hub
  nudge_waiting hub now = nudge_each (is_overdue now) now hub [] hub.sockets

  abbrev waits_at : List ℕ → String → Option ℕ → Device → Bool
  waits_at site changed except d =
      not (option_beq except (some d.socket))
      && not (d.member.client_id == changed)
      && is_held d
      && option_beq (site_key d.member.ip d.member.lan) (some site)

  abbrev nudge_at : Option (List ℕ) → Option ℕ → Hub → String → Option ℕ → ℕ → Hub
  nudge_at none sharing hub changed except now = hub
  nudge_at (some site) sharing hub changed except now =
      if option_beq sharing (some 1)
      then nudge_each (waits_at site changed except) now hub [] hub.sockets
      else hub

  unfoldable pub nudge_site : Hub → Option (List ℕ) → String → Option ℕ → ℕ → Hub
  nudge_site hub site changed except now = nudge_at site hub.lan_sharing hub changed except now

abbrev pub first_end : Option ℕ → ℕ → ℕ
first_end none end = end
first_end (some next) end = min next end

abbrev pub sooner : Option ℕ → Option ℕ → Option ℕ
sooner next none = next
sooner next (some since) = some (first_end next (since + lan_hold_max_ms))

abbrev pub wait_end_from : Option ℕ → List Device → Option ℕ
wait_end_from next [] = next
wait_end_from next (d ∷ ds) = wait_end_from (sooner next (waits_since d.lan_held_since)) ds

unfoldable pub next_wait_end : Hub → Option ℕ
next_wait_end hub = wait_end_from none hub.sockets
