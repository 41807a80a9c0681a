-- ===== src/Lan/Waiting.antt =====
-- cloudflare-control/src/org_hub.ts: a release on its way to the workstations of a site (nudgeSocket to
-- nextWaitEnd). The hub is its open workstation sockets, its alarm and the commands it has queued; a
-- handler is one step at the time `now`. `lastSeenOf` of a socket is kept beside its attachment.
pub mod Loop
pub mod Ends
pub mod Alarm
use Prim.Native.String.{String, ◌++◌ as append}
use labkiosk.Shared.{
  ℕ, ◌+◌, ◌-◌, ◌*◌, ◌≤◌, ◌<◌, ◌≡◌, ◌≢◌, refl, sym, ap, ◌∙◌, Bool, true, false, not, ◌&&◌, ◌||◌,
  Option, none, some, List, [], ◌∷◌, ◌++◌, map, ◌==◌, nat_eq, string_eq, leb, ltb, min, length,
  filter, any, All, All-snoc, option_beq, units_comparable, if◌then◌else◌, arith,
}
use labkiosk.Lan.{LanReport, site_key}
use labkiosk.Lan.Decision.{
  UpdatePhase, UpdateReport, SiteMember, Decision, go, hold, ready, error, lan_decision,
  lan_hold_max_ms, waited_long,
}

-- The attachment of a workstation's socket, as far as updates go.
pub record Device : Type 0 where
  pub socket : ℕ
  pub member : SiteMember
  pub image_version : Option String
  pub lan_held_since : Option ℕ
  pub last_seen : ℕ

pub record Command : Type 0 where
  pub target : String
  pub version : String

pub record Hub : Type 0 where
  pub lan_sharing : Option ℕ
  pub sockets : List Device
  pub alarm : Option ℕ
  pub commands : List Command
  pub statuses : List Device

pub record Due : Type 0 where
  pub version : String
  pub key : String

abbrev socket_stale_ms : ℕ
socket_stale_ms = 75000

abbrev release_nudge_ms : ℕ
release_nudge_ms = 10 * 60000

abbrev release_nudge_after_error_ms : ℕ
release_nudge_after_error_ms = 60 * 60000

-- A time of 0 is as good as none.
abbrev pub waits_since : Option ℕ → Option ℕ
waits_since none = none
waits_since (some since) = if since == 0 then none else some since

-- `now - lastSeen < SOCKET_STALE_MS`
abbrev is_online : ℕ → Device → Bool
is_online now d = ltb now (d.last_seen + socket_stale_ms)

abbrev member_of : Device → SiteMember
member_of d = d.member

abbrev pub site_members : Hub → ℕ → List SiteMember
site_members hub now = map member_of (filter (is_online now) hub.sockets)

abbrev ensure_alarm : ℕ → ℕ → Option ℕ → Option ℕ
ensure_alarm delay now none = some (now + delay)
ensure_alarm delay now (some current) =
    if ltb (now + delay) current then some (now + delay) else some current

abbrev pub with_held : Device → Option ℕ → Device
with_held d since = record {
  socket = d.socket;
  member = d.member;
  image_version = d.image_version;
  lan_held_since = since;
  last_seen = d.last_seen;
}

abbrev pub reminded : Device → ℕ → String → Device
reminded d now key = record {
  socket = d.socket;
  member = record {
    client_id = d.member.client_id;
    ip = d.member.ip;
    lan = d.member.lan;
    update = d.member.update;
    nudged_at = some now;
    nudged_version = some key;
  };
  image_version = d.image_version;
  lan_held_since = none;
  last_seen = d.last_seen;
}

abbrev pub clear_held : Option ℕ → Device → Device
clear_held none d = d
clear_held (some since) d = with_held d none

-- A handler's effect on one socket and on what the sockets share.
pub record Nudged : Type 0 where
  pub device : Device
  pub alarm : Option ℕ
  pub commands : List Command
  pub statuses : List Device

abbrev pub unchanged : Hub → Device → Nudged
unchanged hub d = record {
  device = d;
  alarm = hub.alarm;
  commands = hub.commands;
  statuses = hub.statuses;
}

abbrev pub tell_of_release : Hub → Device → Due → ℕ → Nudged
tell_of_release hub d due now = record {
  device = reminded d now due.key;
  alarm = hub.alarm;
  commands = hub.commands ++ record { target = d.member.client_id; version = due.version } ∷ [];
  statuses = hub.statuses;
}

abbrev pub held_at : Option ℕ → Hub → Device → ℕ → Nudged
held_at (some since) hub d now = record {
  device = d;
  alarm = ensure_alarm lan_hold_max_ms now hub.alarm;
  commands = hub.commands;
  statuses = hub.statuses;
}
held_at none hub d now = record {
  device = with_held d (some now);
  alarm = ensure_alarm lan_hold_max_ms now hub.alarm;
  commands = hub.commands;
  statuses = hub.statuses ++ with_held d (some now) ∷ [];
}

abbrev pub wait_on : Decision → Hub → Device → ℕ → Option Nudged
wait_on go hub d now = none
wait_on hold hub d now = some (held_at (waits_since d.lan_held_since) hub d now)

-- None where the workstation does not wait.
unfoldable pub wait_for_site : Hub → Device → String → ℕ → Option Nudged
wait_for_site hub d version now =
    if option_beq hub.lan_sharing (some 1)
    then wait_on (lan_decision d.member version (site_members hub now) d.lan_held_since now) hub d
        now
    else none

abbrev pub or_tell : Option Nudged → Hub → Device → Due → ℕ → Nudged
or_tell none hub d due now = tell_of_release hub d due now
or_tell (some waits) hub d due now = waits

abbrev pub nudge_due : Option Due → Hub → Device → ℕ → Nudged
unfolding wait_for_site
nudge_due none hub d now = unchanged hub (clear_held (waits_since d.lan_held_since) d)
nudge_due (some due) hub d now =
    if due.key == due.version
    then or_tell (wait_for_site hub d due.version now) hub d due now
    else tell_of_release hub d due now

abbrev is_ready : UpdatePhase → Bool
is_ready ready = true
is_ready _ = false

abbrev is_error : UpdatePhase → Bool
is_error error = true
is_error _ = false

abbrev stage_key : Option UpdateReport → String → String
stage_key none version = version
stage_key (some update) version =
    if is_ready update.phase && option_beq update.version (some version)
    then append version ":stage"
    else version

-- How long the same reminder is not repeated.
abbrev nudge_wait : Option UpdateReport → ℕ
nudge_wait none = release_nudge_ms
nudge_wait (some update) =
    if is_error update.phase then release_nudge_after_error_ms else release_nudge_ms

abbrev reminded_lately : Option ℕ → Option UpdateReport → ℕ → Bool
reminded_lately none update now = false
reminded_lately (some at) update now = not (at == 0) && ltb now (at + nudge_wait update)

abbrev pub due_of : Option String → SiteMember → ℕ → Option Due
due_of none member now = none
due_of (some version) member now =
    let key = stage_key member.update version in
    if option_beq member.nudged_version (some key)
      && reminded_lately member.nudged_at member.update now
    then none
    else some (record { version = version; key = key })

-- `target` is the release that `releaseNudgeTarget` picks for a workstation.
module _ (target : Device → Option String) where
  abbrev pub release_nudge_due : Device → ℕ → Option Due
  release_nudge_due d now = due_of (target d) d.member now

  unfoldable pub nudge_socket : Hub → Device → ℕ → Nudged
  unfolding wait_for_site
  nudge_socket hub d now = nudge_due (release_nudge_due d now) hub d now
