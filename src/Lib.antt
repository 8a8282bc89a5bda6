-- ===== src/Lib.antt =====
-- PRO-THESIS: a property-based harness that runs a distributed system under faults and judges each
-- run with oracles. The library models the parts that decide what a run's verdict may be.
--
-- Linear: the reference linearizability checker, cmd/thesis-oracle-linearizable.
--   Value, Model: register values and operations (value.go, load.go) and `alternatives` of search.go.
--   Memo, Links: the bounded memo table and the doubly linked event list of search.go; a node is a
--     number and a pointer field is a function.
--   Search, Search/*: `run`, `tryFrom` and `noteBest` as one state passed from turn to turn, and the
--     proof that the search decides an order-free specification (Search/Spec).
--   Events, Events/*: `newSearcher`: the sort of the events and their threading.
--   Correct: one key's search, from the operations to the answer.
--   RealTime, RealTime/*, Verdict: linearizability stated over the operations alone, and the answer
--     set against it.
--   Budget, Check, Check/Sound: the shared state allowance, the loop over the keys and the reported
--     status (check.go).
--   Load, Load/*: the pairing of records, the single-key precondition and the rules for ok, fail
--     and info (load.go). History: the check of a whole history.
-- Schema: verdicts, exit codes, agent actions and oracle statuses (pkg/schema/exit.go, enums.go,
--   oracle.go).
-- Control: outcomes, budget and tracker, the loop over worlds and the verdict
--   (internal/control/outcome.go, budget.go, runner.go, verdict.go, seams.go). Control/Phase: the
--   lifecycle phase log (phase.go), a state that calls step from one to the next.
-- Shrink: the minimization of a violating world (internal/shrink).
--   Ddmin: `DDMin`, `partition`, `complements` (ddmin.go); the subset test keeps a state of its own.
--   Budget: the budget and its ledger (budget.go). Policy: the knobs (policy.go).
--   Identity: when two violations are the same (identity.go). Attempt: `Classify` (candidate.go).
--     Attempt/Shown: the same judgement, told by what an execution observed.
--   Prober, Judge: execution against the ledger, divergences, calibration of the identity level,
--     and `firstReproducing` with its tallies (probe.go), as one state that is passed on.
--     Judge/Logged sets its counts against a log of what was executed.
--   Narrow: the searches for shorter fault windows (narrow.go). Confirm: the gate (confirm.go).
-- Recorder: the ChaCha20 block function, the streams over it, and bounded and weighted
--   draws and shuffles (internal/recorder/prng.go).
-- Samples: the theorems at concrete inputs.
--
-- The checker's answer on each key goes to `check`, whose status reaches the controller as the status
-- of an oracle; the controller folds the outcomes of its worlds and turns the result into a verdict
-- and an exit code.
--
-- Fuel: the loop of `run` takes at most `search_fuel` turns: each state that the ceiling allows is
-- entered and left at most once, and between two such turns the entry only moves down the event
-- list.
--
-- `DDMin` is given `ddmin_fuel` rounds: each round shortens the list, or raises the granularity,
-- which is at most the length. `Read` of k bytes takes at most k rounds. The redraws of `Uint64n`
-- have no bound, and the fuel of `uint64n` is what a caller allows.
--
-- Given from outside: the reading of raw JSON text (`micro_keys`, `canonical_value`, and what a
-- line decodes to), the standard library's sort of strings, FNV (`hash`), the readings of the clock
-- (`expired`, `wall_left`, the `elapsed` of a round), the quoting of fmt, and what a world's run, a
-- container runtime or a driver does. The shrinker is given its executor, its clock, the
-- cancellation of its context and the equality of candidates' cache keys. Narrowing is given the
-- parser, the printer and the validation of a fault (pkg/schema/fault.go, not modelled), and assumes
-- no law of them. int64 counters and timestamps are mathematical
-- integers: they are compared, and counters grow by one.
-- A bitset is a list of bits, in place of 64-bit words.
--
-- Not modelled: JSON and YAML decoding, the grammar of faults, the text of explanations, the containers, fault injection,
-- telemetry, the search over fault schedules, batches of candidates, and the stages that compose the
-- shrinker's parts (stages.go, pipeline.go).
pub mod Prelude
pub mod Linear
pub mod Schema
pub mod Control
pub mod Shrink
pub mod Recorder
mod Samples
