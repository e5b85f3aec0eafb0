-- ===== src/Lib.antt =====
-- A task inbox whose tasks a simulated agent works on. A task is claimed by an attempt (a run), whose
-- worker holds a lease under an owner token; the agent's session pays for its steps out of a window
-- of tokens; a run that halts is finalized by its owner, or by recovery when its lease is over, and
-- the policy of continuations says when a failed task is resumed.
--
-- The parts, and the code that each is about (all under internal/ but the last of Cli):
--   Domain      domain/types.go: statuses, outcomes and continuations, the sentinel errors, the
--               policy DecideAttemptCompletion with TerminalState, and Transition.
--   Agent       agent/agent.go: Plan (parseDirectives, buildSteps, StepCount), Session (Start,
--               Restore, BeginAttempt, ContinueAttempt, BindAttempt, AttemptCheckpoint), File
--               (persist, Load and generateID over a file system), Commit (commitState over a
--               host) and Run (RunFenced, Run, run). Agent.Run.Machine gives the state machine that
--               the loop implements as a relation, and its Causes and Rounds the cause of each
--               round: the host's answers, and which of the sink and the file comes first; Rule and
--               Results what its moves keep, Quiet, Processed and Liveness when it completes.
--   Store       store/attempt_repo.go over the tables of store/migrations.go: Table and Database
--               (rows, transactions, faults), Progress (UpdateProgress, RenewLease), Finish
--               (FinishAttempt, RecoverExpiredAttempt), Start (startOwnedAttempt and its callers),
--               Candidate (GetResumeCandidate), Selection (NextExpired, and Next of
--               store/continuation_repo.go), Continuations (InitializeUnscheduled, Current and
--               Stopped of it), Tasks (store/task_repo.go) with Order for ORDER BY, Runs
--               (store/run_repo.go), Comments (store/comment_repo.go), Migrations and Open (migrate,
--               Open and enableWAL of store/db.go). Invariant and Fencing hold what the tables
--               keep; System is the relation of all the writes that processes make, in any order.
--   Runner      runner/runner.go: Terminalize (terminalizeCheckpoint), Recover (RecoverExpired),
--               Resume (the checks of resume and the window it opens, startAttempt), World (what
--               surrounds a process), Attempt (runAttempt with its fence, its sink and the
--               renewals of renewLease; Attempt.Calm says what disturbs no attempt) and Launch (Execute,
--               resume and its callers; Launch.Alone is a process without others).
--   Server      server/server.go: New, and the loop of Run.
--   Cli         cli/: Print (the printer of helpers.go, and relativeTime), Table (padRight and
--               printTable), Shell (App, and what surrounds the process), and the commands in Add
--               (add, run and resume), List, Show, Status, Serve and Work, named for their files;
--               Main is cmd/agent-inbox/main.go, from the arguments to the exit code.
--   Base        names and lemmas that the parts share. Tests holds runs at concrete inputs.
-- The server initializes, recovers and resumes in this order, a round at a time; the runner starts an
-- attempt in the store, drives the agent's loop over a host that the store fences, reads the
-- session's checkpoint, turns it by the domain's policy into the attempt's completion, and hands
-- that to the store, which writes run, task and comment in one transaction.
-- A command of the process parses its arguments, calls the store, the runner or the server, and
-- prints what they give.
--
-- How the code is read:
--   * A named string type is a data type with one constructor for each constant and `other` for any
--     other text. An error is the sentinel that it wraps; the text round it is left out, and so is
--     the error of a rollback that Go joins to the first one.
--   * A time is a number of nanoseconds since Go's zero time, so that 0 is the zero time, and a time
--     has one representation, UTC. A duration is an integer. Counts of tokens and steps are natural
--     numbers.
--   * A table is a list of rows, the newest first, beside the last id that AUTOINCREMENT gave out. A
--     handle has the committed tables and those of the open transaction, and each call of SQL may
--     fail: Faults says which do. A COMMIT that fails is taken to write nothing and to close the
--     transaction, after which the deferred Rollback of database/sql answers ErrTxDone. The dates of
--     SQLite, the order of stored texts and the instant that the database's clock shows are parameters
--     (SqlDates), and so are encoding/json (Json), the verb %q (quote) and the random owner token of
--     a start.
--   * A host stands for what surrounds the loop: the context, the sleep between steps, the fence and
--     the sink of commits (absent or present), the session file and the clock. Each of its operations
--     reads and changes the host's own state, so that it may answer otherwise at each call.
--   * A process runs in a world: the committed tables, and a moment that counts its operations. Env
--     says what the surroundings do at each moment: which calls fail, what the other processes
--     commit (`others`), whether the ticker of the renewals fires, whether the context has ended,
--     and what the files, the clocks and the random ids give. In front of every operation of an
--     attempt the others act, the goroutine of the renewals may act, and the others act again. A
--     process has one clock, which is also Options.Now.
--   * TaskRepo.Transition is called by tests only, so that it is no step of System.
--   * The loop of `run` is recursion on fuel, one more than the number of steps that are left; a run
--     never ends for want of fuel, as Agent.Run.Rule shows. The server's loop may run for ever, so
--     that server_rounds is its first n rounds, for any n, and work_rounds is that of RunWork.
--
--   * The file system under the session files is a record of the calls of os with a state of its own
--     (FileSystem); IsLawful of Agent.File.Laws states what its calls do to the contents of files. In
--     the agent's loop the write of the session file is an operation of the host. A path is joined
--     with a slash, where filepath.Join would clean a directory that is not clean.
--   * enableWAL sleeps 10 milliseconds after a refusal and gives up 5 seconds after its start, so that
--     502 rounds are enough, as Store.Open.Laws shows for a clock that the sleeps move on.
--   * A console takes the whole text of a write or none of it. The flag package, ParseInt,
--     ParseDuration, the RFC 3339 format, the number of days in a duration (which Go computes on
--     floats) and the answers of the environment are parameters (Shell, Process). What main hands to
--     Open comes back as a parameter too, so that a process starts on tables that are open.
--
-- Not modelled: standard error, logging, the end of the handles, and Go's runtime.
pub mod Base
pub mod Domain
pub mod Store
pub mod Agent
pub mod Runner
pub mod Server
pub mod Cli
pub mod Tests
