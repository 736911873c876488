-- ===== src/Lib.antt =====
-- A model of gdev, a tool for development environments, and what is proved of it.
--
-- Parts, with paths from the repository's root:
-- - Pm: the process manager, addons/pm. Pm/Api is api/child.go. Pm/Child and Pm/Run are
--   server/child.go: the manager goroutine `child.run` is a step function `handle` on its local
--   state, with a handler for each case of its `select`; an event is a command, a timer, the
--   exit of a process, or a health check's answer. Pm/Daemon is server/daemon.go, requests over
--   the managers; Pm/Daemon/Terminate is its `Terminate`. Pm/Http is server/http.go and
--   client/http.go over any API. Pm/Resource is resource/resource-pm.go: the readiness of a
--   child on the states of Pm/Run, and the loops of `Start` and `Stop` over the requests of
--   Pm/Daemon.
-- - Bootstrap: addons/bootstrap. Step is step.go, Plan is plan.go: steps with constraints, which
--   `Ready` orders and `Run` executes.
-- - Textedit: addons/bootstrap/textedit. An editor (Simple, Range, Replace) turns lines into
--   lines; File edits a file by it.
-- - Apt: addons/bootstrap/apt. Stanza is deb822.go, Source is source.go, Installer is
--   source-installer.go, and Packages is steps-packages.go and conditional.go, whose steps are
--   those of Bootstrap/Step. Cache is state.go, the reports of dpkg and apt that a run keeps;
--   Download is install-deb.go and steps-sources.go. Text has the string functions that they
--   call.
-- - Gocache: addons/gocache. Backend is the interface of storage-api.go; Layered is
--   layered-backend.go, which implements it over two backends; Frontend is storage-fronend.go, a
--   client of it. Server is server.go: its loop and goroutines are steps in any order. Disk is
--   disk-storage-backend.go, another implementation of the interface. Chain is addon.go: the
--   remotes of a run, stacked over the disk. Http/Client is http/backend.go and http/writer.go,
--   whose requests go to any server; Http/Server is http/server/main.go, a directory of files.
-- - Build: addons/build. Strategy and Order are addon.go and strategy.go; Services is
--   services.go. BeforeStart is before-start.go, the hook that builds what the services need.
-- - Stack: Registry, Stop and Start are services.go, stop.go and start.go of addons/stack, and
--   Start/Hooks is hooks.go there, and Start/Ran what its hooks have done. Mode is
--   service/mode.go and mode-config.go, and Mode/Saved how modes are written and loaded;
--   Resources is service/basic.go and context.go with resource/resource-anti.go; Context is
--   resource/context.go.
-- - Diags: addons/diags. Contents and Collector are file-collector.go, a tar file that sources
--   write to; Collection is collection.go, a run of sources over a collector.
-- - Iter: internal/iter.go, a reader over an iterator of chunks, and a search.
-- - Shx: lib/shx. Command is cmd.go and options.go, from the options of a command up to its
--   start; Capture is capture.go, output that is kept in memory or in a file.
-- - Sys: lib/sys/sudo-io.go, files that are written and read as root.
-- - Config: lib/config. Keys, values, and their loading and saving are keys.go, init.go and
--   persistence.go.
-- - Base: tests on numbers, lists measured by native numbers, Go maps as association lists, sets
--   of names.
-- The Tests modules run the definitions on small inputs.
--
-- Conventions. `none`, or a constructor named for it, is a Go panic where a file says so. Go
-- maps are association lists: where the code ranges over one, the order is that of the list.
-- Calls of the operating system and of Go's library answer by parameters: `World` and `Faults`
-- hold what they return, and `trim`, `scan`, `hash`, `sort` and `clean` stand for the functions
-- the files name. Timers and concurrent calls are explicit events. A timer is armed or not; when
-- it fires is not modelled. The reached states of Pm.Run.Reach are those where a restart comes
-- only when no process runs; Pm.Run.Stop shows what happens otherwise. The start of the stack is
-- a log of calls, and the answer to a call may depend on all those before it. The texts of Apt
-- are lists of code points.
--
-- Fuel. `resolve` of Bootstrap/Plan has fuel for each pending step, and every round but the last
-- places one (Bootstrap/Plan/Ready). `add_default_steps` has fuel for each default that is not
-- in the plan, and every turn but the last adds one (Bootstrap/Plan/Defaults). `visit` of
-- Build/Strategy has fuel for the number of strategies, since no strategy is twice on a path
-- (Build/Order/Fuel). The waits of a start have no bound in the code: `poll` of Stack/Start has
-- fuel for each question, and it is enough for a context that is done after as many calls
-- (Stack/Start/Success). The loops of Pm/Resource take a list of turns, and the wait of
-- `terminate` a list of the events before each tick.
--
-- Not modelled: command lines, logging, progress output, terminal input, cloud and container
-- clients and the addons over them, JSON, the tasks of the daemon, and the remote backends of
-- s3, gcs and sftp.
pub mod Base
pub mod Pm
pub mod Bootstrap
pub mod Textedit
pub mod Gocache
pub mod Build
pub mod Stack
pub mod Apt
pub mod Iter
pub mod Diags
pub mod Shx
pub mod Sys
pub mod Config
