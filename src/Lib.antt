-- ===== src/Lib.antt =====
-- samohost runs small apps on virtual machines: it provisions a machine, deploys apps to it over SSH,
-- and keeps a preview environment for each branch or pull request. This library models the part of
-- the program that decides: the documents on the operator's disk, the provisioning of a machine, the
-- gates before a deploy, the reading of what a remote script printed, the cycle that deploys and heals
-- by itself, and the passes over preview environments.
--
-- Parts and files. The paths on the right are those of the repository.
--   Prelude        numbers, texts, lists and keyed lists that the parts share
--   Records        src/types.ts: VmRecord, AppRecord, EnvRecord and what they contain
--   Lifecycle      src/orchestrator/lifecycle.ts: canTransition, assertTransition
--   LinuxUser      src/app/linux-user.ts: linuxAppUserError
--   State.Atomic   src/state/atomic.ts: readDoc, writeDoc, and crashes of writeDoc
--   State.Disk     the read, change and write of each store method
--   State.Vms, State.Apps, State.Envs, State.Domains
--                  src/state/store.ts, apps.ts, envs.ts, domains.ts: the methods of the stores
--   Markers        the marker lines of src/app/script.ts and src/env/script.ts, and the regular
--                  expression that finds them
--   Deploy.Phases  src/app/parse.ts: parsePhaseStream, deployOutcome, parseDeployOutcome
--   Deploy.CiGate  src/app/cigate.ts and src/app/release-policy.ts: checkCiGreen, decide
--   Deploy.ReleaseTag
--                  src/commands/app.ts: isDateReleaseTag, SHA_RE
--   Deploy.Tags    src/commands/app.ts: parseSemver, compareSemver, compareReleaseTags,
--                  selectLatestTag
--   Deploy.Run     src/commands/app.ts: runAppDeploy
--   Deploy.Register
--                  src/commands/app.ts: runAppRegister; src/app/static-root.ts: validateStaticRoot
--   Deploy.Heal    src/commands/app.ts: runAppHeal, parseHealOutcome
--   Deploy.ClearFailed
--                  src/commands/app.ts: runAppClearFailed
--   Preview.Phases src/env/parse.ts: parseEnvPhaseStream, envOutcome, parseEnvOutcome
--   Preview.Gc     src/commands/env.ts: runEnvGc, classifyVm
--   Preview.Heal   src/preview/heal.ts: runHealPass
--   Preview.Pr     src/preview/pr.ts: runPrPreviewPass
--   Preview.Idle   src/commands/env-idle.ts: runEnvIdleGc, stampLastAccess, idleSinceMs
--   Preview.Ports  src/env/ports.ts: allocatePort
--   Preview.Target src/commands/env.ts: deriveTarget, isValidPreviewDomain; src/env/script.ts:
--                  targetFromRecord
--   Preview.Create, Preview.Create.Removal
--                  src/commands/env.ts: runEnvCreate, runEnvDestroy
--   Preview.Names  src/env/name.ts: fnv1a, branchLabel, envName
--   Trigger.Decide, Trigger.Cycle
--                  src/commands/trigger.ts, runTriggerRun: the decision about one app, and the
--                  deploy loop with its report
--   Trigger.Passes, Trigger.Heal
--                  the same function: the pass of branch-gone environments, and the pass that heals
--                  the configuration of apps
--   Provision, Provision.Data, Provision.Labels
--                  src/commands/provision.ts: runProvision, its data, validateCustomLabels
--   Destroy        src/commands/destroy.ts: runDestroy
--   Ssh.Budget     src/ssh/runner.ts: ConnectionBudget
--   Services       src/app/services.ts: servicesOf
--   Manifest       src/manifest/toml.ts: validateServicesTopology, validateStaticNoDb
--   Auth           packages/auth/src: throttle.ts, session.ts, cookie.ts, middleware.ts
--   Dns.Preflight  src/dns/preflight.ts: classifyAuthority, evaluateWildcard, evaluateDnsPreflight
--   Examples       the theorems at concrete inputs
-- A module's children hold its theorems.
--
-- How the parts interact. A store method reads its document, changes a list of records, and writes
-- the document (State.Disk over State.Atomic). A deploy reads a machine and an app, passes the gates
-- (Deploy.CiGate, Deploy.ReleaseTag), sends one script, reads its markers (Markers, Deploy.Phases),
-- and upserts the app. The trigger's cycle decides about each app and then calls that deploy, which is
-- a parameter of the cycle, as it is in the source; its other passes work on the cycle's results. A
-- provisioning persists each of its steps through the machine store. The passes over preview
-- environments read and change the environment store. A creation takes the services of the app
-- (Services), which a registration has validated (Manifest), gives each listener a port of the pool
-- (Preview.Target), sends one script and upserts the environment (Preview.Create). The guard of the
-- auth package reads the cookie and looks the session up (Auth).
--
-- How state and effects are modelled. A record is a record and a union of literals a data type. A
-- store's document is a list of records; an operation gives its result and, if it writes, the next
-- list. The network, the remote shell, the clock and the code host are functions that the operations
-- take as parameters, where `none` or a constructor of its own stands for a throw. A pass is a
-- function from one state to the next, with the calls that it made as a list in the state. Log lines
-- and JSON reports on the terminal are left out.
--
-- Bounds and fuel. Numbers are natural: ports, counts, and times in milliseconds; a subtraction of
-- times stops at 0, as `Math.max` makes it in the source. The scan for markers runs on fuel, the
-- length of the text, and each of its steps drops a code unit. The loop that waits for a new machine
-- runs on fuel, the time that it may take and one round more, which is enough where the clock moves on
-- from one test of its deadline to the next. Every other loop is over a list. The numbers in a tag are exact, as a JavaScript
-- number is below 2 ^ 53, and the hash of a branch is computed modulo 2 ^ 32.
--
-- Not modelled: the command line, the generators of shell scripts and of server configuration, the
-- HTTP clients, the TOML parser, the trigger's passes over previews and idle environments, and the
-- Postgres classes of the auth package. The test of a tag against the pattern of release tags is a parameter.
pub mod Prelude
pub mod Records
pub mod Lifecycle
pub mod LinuxUser
pub mod State
pub mod Markers
pub mod Deploy
pub mod Preview
pub mod Trigger
pub mod Destroy
pub mod Provision
pub mod Ssh
pub mod Services
pub mod Manifest
pub mod Auth
pub mod Dns
pub mod Examples
