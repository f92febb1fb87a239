-- ===== src/Lib.antt =====
-- The AICW MPC node and its reshare orchestrator.
--
-- A network of nodes runs threshold-signature ceremonies for wallets; each wallet has a committee of
-- nodes. pkg/committee chooses committees deterministically. A node (pkg/mpc, pkg/identity) keeps
-- the registry of its peers, their readiness in Consul and the symmetric keys of the ECDH exchange,
-- and gates ceremonies on them. The orchestrator (pkg/orchestrator) watches the committees, decides
-- by a trigger matrix when one needs a reshare, takes a lock in Consul, publishes the reshare,
-- awaits its results, verifies them, and sets a cooldown. The code runs on mpcium and Consul, which
-- stand in the model as parameters.
--
-- Base: lists, strings (as lists of character codes), orders and the stable sort, sets of ids, Go
--   maps as association lists, the int of Go as ℤ (its counts stay far below 2^63,
--   and so do the durations but those of Lock and Settings, which are int64 by their bits), and
--   results with errors.
-- Consul: the KV client and its documented laws, and JSON codecs, as records.
-- Committee: pkg/committee/committee.go. Policy has Policy, Validate, TierFor, TargetSize and Hash;
--   Select has SelectCommittee, each of its steps a function. Choose, Pool, Tiers, Plan, Members and
--   Determinism hold the proofs. Settings is pkg/committee/config.go.
-- Orchestrator: pkg/orchestrator. Trigger is trigger.go; Wallets is types.go with preflightReady;
--   KeyTypes, Publisher are publisher.go; Lock, Sweeper are lock.go and sweeper.go; Freeze,
--   StringSets, Verify are verifier.go; Progress is progress.go; Reconcile is reconcileOnce of
--   reconciler.go, with what happens beside it as an argument of each turn; RunReshare is its
--   runReshare, with audit.go; Authorizers is authorizer.go, Inventory is inventory.go, Liveness is
--   liveness.go. Race has several orchestrators over one Consul, as a step relation of the requests
--   of their lock calls, the sweeps, and the losses of sessions; its children are on it. The other
--   children hold the proofs; Settings is config.go, with Durations on it.
-- Recovery: pkg/recovery/recovery.go. Manager has the cache of the peers and the recovery of a
--   node; Restored holds the proofs.
-- Identity: pkg/identity/dynamic_store.go, its keys. Directory has the load, the watch and the
--   writing of the peer directory; Signatures the messages of peers; Authorization the initiators
--   and authorizers; Node the start from settings; Crypto the cryptography that is called.
--   Authorized, Watched, Loaded, Verified and Started hold the proofs.
-- Types: Messages is pkg/types/initiator_msg.go; Participants and Signed hold the proofs.
-- Eligibility: pkg/eligibility. Keys and Membership are whitelist_membership.go; Initiators has
--   whitelist_initiator.go, legacy.go and NewInitiatorVerifier of factory.go; Verifiers the rest
--   of factory.go, membership.go and stake_stub.go. Members and Accepted hold the proofs.
-- Mpc: pkg/mpc. Session is dynamic_ecdh_session.go; Registry and Gates are dynamic_registry.go, what
--   its mutex guards being one step; Presence has its ready entry, Rebroadcast the rounds of its
--   broadcast loop, Watch the callbacks of the directory. The other children hold the proofs.
-- Config: pkg/config/load.go, its legacy settings; Normalized holds the proofs.
-- Ping: pkg/nodeweb/ping.go; Started holds the proof.
-- Examples: concrete inputs.
--
-- State is passed explicitly: an operation takes a record or Consul's state and returns the next
-- one. Loops are structural recursion on what they range over; the retries of a reshare recurse on
-- the tries left (reshareMaxTries), the backoff on the failures, and the wait of a ceremony gate on
-- the list of polls before its deadline, so that no loop runs out of fuel. Times are numbers of
-- nanoseconds. The order of a range over a Go map is the order of a list, which the theorems leave
-- arbitrary.
--
-- Not modelled: sha256, JSON, ed25519 and P-256, AES, HTTP, viper and files (parameters, or left
-- out); goroutines that only poll or renew; cmd; aicw-node-gui.
pub mod Base
pub mod Consul
pub mod Committee
pub mod Orchestrator
pub mod Identity
pub mod Mpc
pub mod Types
pub mod Eligibility
pub mod Recovery
pub mod Config
pub mod Ping
pub mod Examples
