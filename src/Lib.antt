-- ===== src/Lib.antt =====
-- Lab Kiosk: the control plane (cloudflare-control/src).
--
-- The control plane is one worker over a relational database. Organizations (tenants) enrol
-- workstations; the worker decides which of them have a licence, when they switch on and off, what
-- they are shown, and when an exam holds them on its site. The routes of index.ts parse a request,
-- call a function of the part concerned, and answer; a hub per organization (org_hub.ts) drives
-- what happens at a time. The parts modelled here, and their files:
--
--   Seats      plans.ts: licensed slots. `rebalance_licences` and `move_licence_to` are
--              `rebalanceLicences` and `moveLicenceTo` on the tables device_tokens,
--              client_devices and unlicensed_workstations. Tables, Order and Rebalance count who
--              is licensed, Recency and Settled compare by last contact, Move and Transfer follow
--              one licence.
--   Plans      plans.ts: `entitlement`, `trialRefusal`, `quote`, `parseQuoteInput`, on the
--              states of License (license.ts `licenseState`).
--   Power      power.ts: Clock and Days parse times and days (Days/Bits and Days/Named say what
--              the masks are), Schedules has the input and the conflict check, Saving the table
--              and the route of index.ts, Exclusive and Requests what holds after any requests,
--              Week and Followed the week that a workstation is told (`effectivePower`).
--   Exams      exams.ts: Parsing and Accepted `parseExamInput`, Sessions the table
--              (`createExam`, `endExam`, `hubExams`, `purgeOldExams`), Disjoint and Limit its
--              overlap check and limit, Phases `examPhase`, Finish and
--              Finish/Resets `finishExam`, Blocking `examBlockingBroadcast`, Board and Offline
--              `examWorkstations`, Requests the two routes of index.ts and the timers.
--   Guard      guard.ts and demo.ts: host names and `hostSubdomain` (Guard, Guard/Hosts),
--              `resolveTenant` (Tenants), sessions and permissions (Access, Access/Given,
--              Access/Permitted), names of a development machine (DevHosts), requests from other
--              sites (Sites), `requireDevice` and its cache of tokens (Devices, Devices/Vouched,
--              Devices/Trust).
--              `sha256Hex` is a parameter, and a Response is a value that says why.
--   Lan        lan_sharing.ts: addresses and sites (Lan, Lan/Addresses), `lanDecision` (Decision,
--              Holding), `lanPeers` (Peers, Copies), who is a neighbour that holds a release or
--              fetches it (Neighbours); and org_hub.ts, where the hub makes a workstation wait for
--              its site (Waiting, Waiting/Loop) and its alarm ends the waiting (Waiting/Ends,
--              Waiting/Alarm), whatever release `releaseNudgeTarget` picks.
--   Releases   releases.ts: versions (Releases, Doubles) and their order (Total, Order),
--              `majorAccess` (Majors), `offeredReleases` (Offers), `eligibleReleases` to
--              `updateTargetFor` (Eligible), what a workstation may take and what it fetches
--              (Choice, Target, Latest, Gates, Rows, Permits); and org_hub.ts `releaseNudgeTarget`,
--              `installTargetFor`, `installRefusal` (Updates) and `installUpdate` (Install, Ready,
--              Sends).
--   Web        escape.ts `safeHttpUrl`, db.ts `normalizeDomain`, HOST_PATTERN of exams.ts.
--   Db, Json   the rows that several parts share, and the values of a request body.
--   Shared     tests, lists, what is found in them, counting, sorting, UTF-16 texts, finite tables,
--              and results that may be thrown.
--
-- A table is the list of its rows; a statement of SQL is a filter, a map or an insertion, with the
-- primary keys and checks of cloudflare-control/migrations. A function that awaits several
-- statements runs them in order, with nothing between them. Where SQL leaves the order of rows
-- open, the rows come in the order of insertion, or in an order given as a parameter. A column that
-- holds JSON is what the JSON stands for, or that it cannot be read. Times and
-- identifiers that the code draws from the clock or at random are arguments, and so are the
-- collation of texts, `String.prototype.toLowerCase` and `new URL`. Numbers are whole and not
-- negative; where the source admits a negative number or a fraction in a request, Json has it.
-- Fuel: `broadcast_in_batches` has one round per client, which is enough, since each takes at least
-- one; `excess_bits`, by which a version's identifier is rounded as `Number` rounds it, halves a
-- number 54 times, enough for its 32 digits (Releases/Doubles).
-- In the hub, one handler runs to its end at one time before the next.
--
-- Not modelled: the text of an exam's report, the power reports, calendar dates, billing, manifests
-- and the synchronisation of releases, and the rest of the hub: its sockets, frames and storage; the
-- pages (ui*.ts), what only calls another service (mail, single sign-on, WebAuthn, payments), the
-- kiosk image in Python and shell (distro-builder), and the documentation.
pub mod Shared
pub mod Json
pub mod Db
pub mod License
pub mod Plans
pub mod Seats
pub mod Power
pub mod Web
pub mod Exams
pub mod Guard
pub mod Lan
pub mod Releases
