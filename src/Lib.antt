-- ===== src/Lib.antt =====
-- A model of PaneFleet's own logic: the server that shows and steers coding agents in tmux panes.
--
-- The parts and the files that model them (a path is from the repository's root):
-- * delivery-run.js, the life of an approved delivery plan: Delivery. A run is a record (Types), its
--   fields are texts that Fields checks and normalizes, Validate is validateDeliveryRun with the checks
--   of tasks, outbox items, verification records and aborts in its children. Create, Mission, Verify
--   and Close hold createDeliveryRun, linkDeliveryRunMission,
--   markDeliveryRunMissionReconcileRequired, captureDeliveryRunImplementation,
--   recordDeliveryRunVerification, abortDeliveryRun and markDeliveryRunOffCourse under the same names
--   in snake case; Run and Evidence hold the helpers that they share. Steps inverts a successful
--   operation, and Lifecycle is the step relation of the operations.
-- * delivery-plan.js, the plan that a run executes, its approval and its phases: Plan. Types holds the
--   data, Canonical the canonical JSON, Normal, Checks, Shape and Approval normalizeDeliveryPlan and
--   validateDeliveryPlan, Discovery and Ready the lint, Legal the table of phases, Definition the
--   digest, and Update, Transition and Envelope the operations of these names. Stages is an abstract
--   machine of the phases, History follows the operations through it, Errors and Effects state what a
--   transition refuses and does, and Outcomes describes its edges and gates. Its canonical JSON is
--   independent of the run's model, and it uses the field checks of Delivery.
-- * agent-commons.js, the message board of the agents: Commons. Lifecycle holds the states and who may
--   change them, Validate the check of a store, Repository the calls create, reply, acknowledge and
--   transition with their log of operations, Changes the changes they make, Inbox the snapshot and the
--   inbox of a session, Help the recommendation of a helper.
-- * terminal-ansi.js, the parser of captured panes: Terminal.
-- * prompt-schedule.js, cron schedules of prompts: Schedule.
-- * agent-recovery.js, the slots of sessions that the server may restart: Recovery.
-- * snapshot-events.js and runtime-retention.js, what the server sends to browsers and which agent
--   samples it keeps: Runtime.
-- Base holds the shared lists, texts, results and tests, Numbers the reading of numbers, Samples the
-- concrete inputs.
--
-- How the code is read: a string is the list of its UTF-16 units; an exception is a value of the
-- component's error type; a mutated object is a state that is passed on; an object with arbitrary keys
-- is a list of entries in insertion order. A record stands for an object whose keys the source has
-- checked, so the errors on a wrong shape do not occur. Times are natural numbers of milliseconds.
-- Outside the model, as fields of a record that the definitions take: Date.parse and toISOString of
-- runs, slots and samples, case mapping, localeCompare, path.normalize, hashing, JSON and UTF-8
-- lengths, and the two functions on workspace baselines.
--
-- Loops are structural. The scan of terminal text and of SGR parameters passes a count of units that a
-- sequence has consumed. The minutes of a schedule's search are counted by the source's own bound of
-- eight years, and the values of a cron field's range by the field's maximum plus one: a step is at
-- least 1, so that the range ends before.
--
-- Not modelled: the stores and their files, git, processes, HTTP, the page, and the planning
-- conversation. Of agent-commons.js the spool and a failed write are left out. The resource gate of
-- agent-recovery.js divides in floating point. The archive functions of runtime-retention.js work on
-- files. The socket behind writeSnapshotEvent is a parameter.
pub mod Base
pub mod Numbers
pub mod Delivery
pub mod Terminal
pub mod Schedule
pub mod Recovery
pub mod Runtime
pub mod Samples
pub mod Plan
pub mod Commons
