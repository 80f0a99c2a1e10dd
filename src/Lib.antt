-- ===== src/Lib.antt =====
-- A verification library for Remote-Host-MCP: the audit log that the execution server writes, the
-- sidecar agent that reports it to the Hub, durable jobs, uploads, terminals, leases, files,
-- and the execution of commands.
--
-- The parts and how they interact:
--   * `AuditWriter` (src/remote_host_mcp/audit.py) appends one line per tool call to `calls.jsonl`
--     and rotates the file by size. Audit.antt: `record` is `record_event`, `_rotate_files` is
--     `rotate_files`; Audit/Rotation, Audit/Records and Audit/Retention hold the proofs.
--   * `AuditTail` (src/remote_host_mcp/report_agent.py) reads that log by byte offset, notices a
--     rotation, and catches up on the rotated files. Tail.antt: a method keeps its name without
--     the underscore; Tail/State is the reader's state. Tail/Main, Tail/Drain, Tail/Plan, Tail/Ends,
--     Tail/Lines and Tail/Suffix hold the proofs.
--   * `HubClient` turns the answers of the Hub into values and exceptions. Hub.antt.
--   * `prepare_event` trims an event and has it redacted (src/remote_host_mcp/redact.py).
--     Agent/Events.antt, Redact.antt and, for the patterns, Redact/Rules.antt.
--   * `ReportAgent` queues the events of the reader, sends batches and keeps the cursor file.
--     Agent/State is its state, Agent.antt the methods; Agent/Queue, Agent/Delivery, Agent/Queued,
--     Agent/Replay, Agent/Backoff, Agent/Loop, Agent/Cycle, Agent/PushedConfig and Agent/Payloads
--     hold the proofs.
--   * `HubSettings` (src/remote_host_mcp/hub_settings.py) reads the RHMCP_HUB_* variables that the
--     agent and the writer are built from. HubSettings.antt, with HubSettings/Parsers for what it
--     uses of `int` and `urlparse`; HubSettings/Bounds and HubSettings/Modes hold the proofs.
--   * src/remote_host_mcp/jobs.py keeps durable jobs as directories, and
--     src/remote_host_mcp/job_worker.py runs one of them; the two meet in the directory.
--     Jobs/State is the directory and what `job_status` makes of it, Jobs/Admission the checks of a
--     request, Jobs.antt `start_job` and `cleanup_job`, Jobs/Cancel `cancel_job`, Jobs/Listing
--     `list_jobs`, Jobs/Reading `job_read`, Redact/PathKey the `_redact` of its answers; Jobs/Active
--     says which jobs are active, and Jobs/Observing, Jobs/Reads, Jobs/Starts, Jobs/Twice,
--     Jobs/Cleanup, Jobs/Signals and Jobs/Cancelled hold the proofs. Worker.antt with Worker/Capture and Worker/Outcome.
--   * src/remote_host_mcp/transfer.py receives a file in chunks. Upload/State is an upload's
--     directory, Upload.antt the operations, Upload/Chunks and Upload/Finish the proofs.
--   * src/remote_host_mcp/terminal.py keeps a shell per session. Terminal/Markers is the stripping of
--     the OSC 133 markers, Terminal/State a session and the reading of its output,
--     Terminal/Commands `exec`, its monitor and the notes of `signal`, Terminal/Table the sessions
--     and the janitor. Terminal/Stream is what a reader may rely on, an abstract terminal; the
--     proofs are in Terminal/Stripping, Terminal/Printing, Terminal/Refine, Terminal/Following,
--     Terminal/Output, Terminal/Outcome, Terminal/Events, Terminal/Answer and Terminal/Sessions.
--   * src/remote_host_mcp/agent_ops.py grants leases on named resources, in a registry file.
--     Leases.antt and Leases/Held.
--   * src/remote_host_mcp/executor.py runs a command with both streams in one budget.
--     Executor.antt, Executor/Budgets and Executor/Results.
--   * src/remote_host_mcp/filesystem.py reads and writes files, and `apply_line_patch` of agent_ops.py
--     edits them. Files/Reading with the loops of `read_text_file`, Files/Writing with
--     `write_text_file` and what other processes do meanwhile, Files/Patch; Files/Lines,
--     Files/Rounds, Files/Scanning, Files/Returned, Files/Guarded, Files/Splicing and
--     Files/Patching hold the proofs.
--   * `open_beneath` of src/remote_host_mcp/secure_paths.py opens what is beneath an allowed root.
--     Paths.antt, and Paths/Beneath for the proof.
--   * `Settings` of src/remote_host_mcp/config.py reads the variables of the server. Config/Variables
--     reads one, Config.antt all of them; Config/Groups, Config/Bounds and Config/Names hold the
--     proofs.
--   * src/remote_host_mcp/tasks_extension.py shows the jobs as tasks of the protocol. Tasks.antt and
--     Tasks/Final.
--   * src/remote_host_mcp/system_helpers.py shows the command lines of processes without their
--     secrets. SystemHelpers.antt says which names are sensitive, SystemHelpers/Redaction is the
--     redaction; SystemHelpers/Secrets and SystemHelpers/Unseen hold the proofs.
--   * src/remote_host_mcp/ssh_helpers.py checks the parts of a remote target and makes the arguments
--     of ssh and scp of them. Ssh.antt, with Ssh/Spec for the proofs.
-- Disk.antt is the directory of the log that writer and reader share, Json.antt the decoded JSON
-- values, Prelude the shared names and lemmas, Samples.antt the inputs of the tests.
--
-- How the code is modelled: state is a record that an operation takes and returns. What a system
-- call or the Hub answers is an input, so a theorem holds for every answer; the decoder of JSON
-- (`json.loads`) is a parameter, as are `bytes.decode` where `job_read`, `exec` and `run_shell`
-- use it, and whether `urlparse` accepts the base URL of the Hub. A generator is the list of what
-- it yields, each with the reader's state at that yield, so that a caller that stops early is
-- modelled too. Numbers are natural numbers without bound, as Python's are; times are in
-- milliseconds where the code has floats.
--
-- Fuel: the loop of `_drain_step` gets two rounds more than the plan has entries, since each round
-- but the last drops an entry; the loop of `cycle` gets one more than the queue is long, since each
-- round sends at least one event. Both are shown to be enough. The first loop of `cancel_job` runs
-- over the looks that its deadline leaves time for, the second over 20 rounds, as in the code. The
-- wait of `read_slice` runs over the wake-ups that its deadline leaves time for. The inner loop
-- of `read_text_file` gets a round per byte of its chunk, since each round takes a byte at least.
--
-- Not modelled: the HTTP transport, logging, `run` and the command line; changes of the directory
-- during one call of the reader; lines of the log on which `json.loads` raises anything but
-- UnicodeDecodeError and JSONDecodeError; the decoding of the output of `read_text_file`; a cursor
-- file that cannot be written; text beyond ASCII in the patterns and in `strip` and `lower`;
-- `download_info`; writes of a job's or an upload's state that fail. SHA-256 and the path policy
-- are parameters. Of a terminal: the delivery of signals and of input, the shell and the screen.
-- Of agent_ops.py: batches and snapshots. Of filesystem.py: moves, copies, removals and
-- directories. Of system_helpers.py and ssh_helpers.py: everything that runs a program or reads
-- /proc. `urlsplit`, `urlunsplit` and `ipaddress.ip_address` are parameters there. The tools of
-- the server have no model.
pub mod Prelude
pub mod Disk
pub mod Audit
pub mod Json
pub mod SystemHelpers
pub mod Tail
pub mod Terminal
pub mod Leases
pub mod Executor
pub mod Files
pub mod Config
pub mod Paths
pub mod Redact
pub mod Hub
pub mod Agent
pub mod Samples
pub mod HubSettings
pub mod Worker
pub mod Jobs
pub mod Tasks
pub mod Ssh
pub mod Upload
