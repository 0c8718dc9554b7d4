-- ===== src/Lib.antt =====
-- Sandcamp runs several processes in one sandbox: `campd` (cmd/campd) decodes a declaration,
-- validates it, starts its sidecars, jobs and main processes in order, probes the services, and
-- tells at a ready endpoint whether all is well; `sandrun` (cmd/sandrun) is the program by which
-- campd starts each sidecar in the root of an image. This library models the Rust code of both, and
-- the command line between them.
--
-- Files and code:
--   Base          Booleans, lists, members, results and loops that the modules share.
--   Rust          what the code uses of the standard library: bytes of `str`, `Path::components`
--                 with equality and `starts_with`, `Path::join`, `parent` and
--                 `file_name`, `u32` parsing and printing, UTF-8, lines and white space.
--   Campd.Spec    cmd/campd/src/spec.rs: the types (`Spec`), `Text` the character classes,
--                 `Validate` the checks, one function per part of `validate`; below it the
--                 description `IsValid` of what is accepted.
--   Campd.Passwd  cmd/campd/src/runtime.rs, `resolve_main_users` and `parse_main_passwd`.
--   Campd.Launch  `flatten`, `from_sidecar`, `from_main`, `build_command`.
--                 `Read` is `read_main_passwd`.
--   Campd.Identity  `apply_main_identity`, over the system of the sandbox.
--   Campd.Prober  `http_probe`, `sleep_with_cancel`, and the loop of `spawn_probe_worker`.
--   Campd.Ready   cmd/campd/src/ready.rs, the answer to a request.
--   Campd.Probe   `ProbeState`, with `observe` split into the new state and the change.
--   Campd.Supervisor  `Supervisor`: `Reap` (exits, events, cleanups), `Drive` (one turn and the
--                 waits for a service and a job), `Startup` (`spawn` and `run`), `Shutdown`. `Keeps`
--                 holds what every turn leaves as it was.
--   Sandrun       cmd/sandrun/src/lib.rs: `Config` the paths and targets, `Args` `parse_args`.
--   Sandrun.Resolve  cmd/sandrun/src/linux.rs, `resolve_target` and, in `Targets`,
--                 `validate_resolved_mount_targets`, over a file system that does not change
--                 while they run.
--   Sandrun.Passwd  cmd/sandrun/src/linux.rs, `parse_passwd`.
--   Sandrun.Sandbox  cmd/sandrun/src/linux.rs, `run` and all that it calls: `Places` (the root, the
--                 targets, the command), `Identity` (`resolve_user`, `apply_identity`), `Encoding`
--                 (`overlay_identity`, `hex_lower`, the mount options), `Overlay`, `Binds`, `Mounts`,
--                 and `Launch` with `run`. `Protocol` is the order that the effects of a run keep to.
--   Handoff       `build_command` of campd against `parse_args` of sandrun.
--   Tests         a declaration, a small machine, an image with links, and runs on them.
--
-- State is passed on explicitly. The kernel, the clock, the channel of probe events and the threads
-- are a record `Os` over a type `World` that every call may change; the theorems hold for every such
-- record, and hypotheses on it are named in `Drive.Returns.Finite`. A message of an error is a
-- constructor over what is written into it; log lines are left out. A panic is a result of its own.
-- `HashSet` and `BTreeMap` are lists.
--
-- The sandbox is set up on a record `Kernel`. A call that changes the system is a value of `Effect`;
-- an act returns a result and a `Trace`, the world with all effects that were tried, and the theorems
-- hold for every kernel. A look at the file system does not change the world, and the world stays as
-- it is between an act's looks and its next effect. A successful `exec` is the result `ok`.
-- `fcntl` on a lock is one effect; a file descriptor is named by its path. SHA-256 is a parameter.
--
-- Fuel: each loop below `run` takes at most `rounds` rounds, and `supervise` as many turns as its
-- first argument; out of them the result is the error `out_of_rounds`, which the code does not have.
-- The loops of a turn consume a report of the system in every round, so as many rounds as there are
-- reports, and one more, are enough. `supervise` is meant to go on until a signal comes. The loops
-- of the shutdown just stop when their rounds are used up, as they do at their deadlines. The loop
-- of `parse_args` takes an argument in every round and has as many rounds as arguments. That of
-- `resolve_target` follows a link in every round but the last and refuses the 41st. A new overlay
-- workspace has the 128 attempts of the code.
--
-- Integers: ids, ports and durations are natural numbers; widths matter in `parse_u32`, in the
-- checked sum of the startup budget and in the saturating counters of a probe. Durations are in
-- milliseconds.
--
-- A probe runs on a record `Net` of the socket, the clock and the channel, in which each call may
-- change the world. A probe's buffer has 128 bytes and each read takes one or more, so that 128 rounds
-- are enough; a sleep of `sleep_with_cancel` takes one millisecond or more, so it has as many rounds as
-- its duration has milliseconds, and one more. The thread of a probe runs until it is cancelled.
--
-- Not modelled: JSON and base64 (parameters of `decode`), the accept loop of the ready endpoint and
-- the start of threads, campd's signal handlers and subreaper (system calls), help and version texts,
-- the display of errors. The Go SDK, the launcher in C, scripts and tests are other languages or test
-- material.
pub mod Base
pub mod Rust
pub mod Campd
pub mod Sandrun
pub mod Handoff
pub mod Tests
