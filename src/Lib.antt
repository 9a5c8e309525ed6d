-- ===== src/Lib.antt =====
-- Verification of the NCN platform: the load balancer `core-console/lb` and core parts of the
-- control server `core-console/backend`.
--
-- The parts and their interplay. The load balancer watches the control servers and runs a failover
-- script. The control server scrapes the nodes that its registry lists; each scrape is a tick of the
-- alert engine, which evaluates the rules that the rule store holds, keeps the active events and
-- their history, and sends messages. The on-call loop reads the active events that nobody
-- acknowledged and escalates them. The rate limiter guards the public looking glass. Operators sign in
-- with a password and a one-time code, by a trusted device or by a bearer token, and the guards of the
-- routes ask for a session and a role; a recovery code or a recovery link resets a password. The
-- administrators keep the incidents of the status page, and failed actions are logged and reported.
-- The heartbeat samples the nodes and the public services and shows their uptime.
--
-- Which file models what (paths from the repository's root):
--   Base            shared names, Boolean tests, lists, Go's integers, texts, maps, keyed slices.
--   Lb/Config       core-console/lb/main.go: config, defaultConfig, loadConfig.
--   Lb/Controller   core-console/lb/main.go: newController, probe, sweep, reconcileLocked,
--                   byPriorityLocked; `run_sweeps` is the ticker's loop in main.
--   RateLimit       core-console/backend/ratelimit.go: newRateLimiter, Allow.
--   Alerts/Rule     core-console/backend/alerts.go, alertrules.go: alertRule, ruleGroup,
--                   evalRuleSafe; bot_tg.go: sevWeight.
--   Alerts/Event    alertEvent, alertEngine, and what the engine sends.
--   Alerts/Debounce, Alerts/Evolve, Alerts/Engine   the body of tickOnce, in the source's order.
--   Alerts/Notify   maybeFireTG and inhibitedLocked.
--   Alerts/Dispatch flushFires, dispatchFire, dispatchGroup, groupTitle, markPosted.
--   Alerts/Admin    handleAlertAck, evictNode, activeUnacked.
--   RuleStore       core-console/backend/alertrules.go: ruleDef, validateRule, validateGroup and
--                   the six operations of alertRuleStore.
--   Recovery        core-console/backend/recover_bootstrap.go: verify, usedNonceStore,
--                   handlePreview, handleSubmit.
--   Nodes           core-console/backend/noderegistry.go: nodeRecord and the operations of
--                   nodeRegistry.
--   Oncall          core-console/backend/oncall.go: currentOncall, page, tick, handleOncallSet.
--   Auth            core-console/backend/auth.go, auth_apitoken.go: Auth/Operator the records;
--                   Auth/Startup loadAuthStore without the session secret, bootstrap,
--                   migrateRecoveryCodes; Auth/Accounts handleOperatorsCreate, -Update, -Delete,
--                   promoteFirstAdminIfNone; Auth/Password handleRecoverPassword,
--                   handleChangePassword, handleTOTPSetupConfirm; Auth/Identity bindIdentity,
--                   findOperatorByIdentity and the like; Auth/Devices checkDeviceTrust,
--                   registerTrustedDevice, handleRevokeDevice; Auth/Session the tokens; Auth/Totp
--                   verifyTOTP; Auth/Login handleLogin, handleLoginVerifyTOTP, requireAuth,
--                   requireRole; Auth/ApiToken verifyAPIToken and the tokens' requests; Auth/Calls
--                   the requests as steps of one state.
--   Incidents       core-console/backend/incidents.go: Incident and the requests of Incidents/Admin.
--   OpFailures      core-console/backend/opfailures.go: the ring and opFailureShouldNotify.
--   Heartbeat       core-console/backend/heartbeat.go: newHeartbeatStore, define, ensurePop, sample,
--                   record, anchorLatency; Heartbeat/Summary: summary. The days are numbers
--                   from the year 0 on.
-- The modules below these hold the proofs; the modules named Tests hold runs on concrete values.
--
-- How the code is read. State is a record that each operation takes and returns; a mutex makes an
-- operation one step, and a handler that takes its lock more than once is one step too. A map is an
-- association list whose order stands for the order in which Go visits the entries, which Go leaves
-- open; where the code sorts what it visited, that order is an argument. Times are natural numbers (nanoseconds, or seconds where the code keeps seconds); a field
-- that a user can make negative is an integer. Machine integers are taken as unbounded: the counters
-- grow by one per tick or sweep. A goroutine that is started, a message and a webhook are outputs of
-- the step. What the clock, the network, the file system and the database answer are arguments.
-- A slice that is filtered in place is written out as the array that the record in the map still
-- sees. Loops are recursions on lists. The one fuel is in `itoa`, which prints a number: it is the number
-- plus one, and no number has more digits than that.
--
-- What is not modelled: HTTP handlers and their JSON, storage in files and PostgreSQL, the triage of
-- alerts by a language model, the EWMA baselines and metric values (64-bit floats), the fleet
-- scraper, sign-in by passkeys, SSH keys and external providers, router configuration, and the front
-- ends. bcrypt, HMAC, base64, base32, JSON, the text and the floats of the heartbeat, and the rounding
-- of durations in floats by the on-call loop are arguments; the theorems say what they need of them.
pub mod Base
pub mod Lb
pub mod RateLimit
pub mod Alerts
pub mod RuleStore
pub mod Recovery
pub mod Nodes
pub mod Oncall
pub mod Auth
pub mod Incidents
pub mod OpFailures
pub mod Heartbeat
