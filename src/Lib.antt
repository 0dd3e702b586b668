-- ===== src/Lib.antt =====
-- A model of vibepod: a daemon that runs a pod on one machine, composes the directories of other
-- machines into it, and keeps a copy of that composition on every machine where commands run.
--
-- The parts and where they are modelled; paths are from the repository's root.
--
-- * internal/config/config.go reads vibepod.yaml into mounts, ports and tools. Config.Guard has
--   `GuardPath` (guard_path), Config.Remote has `ParseRemote` (parse_remote), and Config.Resolve has
--   `Resolve` (resolve): its loops over the mounts and the host access are place_all and place_access,
--   over the two maps of the source (claimed, origins); `HostList` is host_list, `ParsePort` is
--   parse_port. A refusal is a value of ResolveError.
-- * internal/route/route.go is the path map: which machine owns a directory, what it calls it there.
--   Route.Defs has `New`, `Owner`, `Dir`, `Suggest` (new, owner_of, dir, suggest). A nil table is none.
-- * internal/term/ring.go is the scrollback of a detached session: Ring.Defs.
-- * internal/daemon/env.go decides which variables go with a command to another machine: Daemon.Env.
-- * internal/daemon/daemon.go gives a session its environment (`sessionEnv`: Daemon.SessionEnv),
--   and lists the machines of a pod (`hostList`: Daemon.Hosts).
-- * internal/daemon/mount.go holds the daemon's live list of mounts: Daemon.Mounts has
--   `checkNewMount` and `addMount`, Daemon.Unmount has `removeMount` (remove_mount).
-- * internal/daemon/reconcile.go and relay.go derive from that list what a machine should hold
--   (`desired`, `isWriter`, `releaseWriter`, `via`: Daemon.Writers), and bring the machine there
--   (`reconcile` with its requests: Daemon.Reconcile).
-- * internal/daemon/backend.go says which machine a session is on and who may move it, and
--   internal/daemon/ports.go forwards ports from machines: Daemon.Backends;
--   `dispatch`, up to the start of the command, is Daemon.Dispatch.
-- * internal/event/event.go is the bus of events, with its history: Event.
-- * internal/node/node.go is the other end: the list that a node holds, and the requests that read and
--   change it (`handle`, `addMount`, `removeMount`: Node).
-- * internal/daemon/session.go keeps the shells of a session and the terminals that watch it:
--   Daemon.Sessions has `switchTo`, `pump` (read_chunk, pass_on, pump_end), `attach`, `resize` and the marks
--   of `frameMark` and `show`; shells are shared, so they stand in a store under numbers.
-- * internal/daemon/tracker.go records the commands of a pod: Daemon.Tracker has `recordExec`,
--   `finishExec`, a round of `watchExits`, and the forest that `tree` builds. Records are shared, too.
-- * internal/remote/exec.go and shell.go write the command lines for ssh: Remote.Defs. Remote.Words
--   says how a POSIX shell cuts a line into words, and is independent of the program.
-- * internal/complete/complete.go reads what a shell offers for a line: Complete has `Parse` (parse).
-- * internal/config/sshconfig.go reads the machines of the ssh config with its includes
--   (`readSSHHosts`: Config.SshHosts), and mount.go's `mountAllowed` asks for them (Daemon.Mounts).
-- * cmd/vibepod/view.go filters what `vp tree` shows: View.Filter has `treeFilter.apply` (apply).
-- * internal/ui/frame.go moves output from the screen to the terminal's scrollback: Ui.Screen has
--   `print`, `fit` and `frameWrite`, and in Ui.Screen.Device a terminal to run their writes on.
-- * internal/ui/commands.go and shell.go edit the line of `vp shell`: Ui.Input has the menu over it
--   (`syncSlashMenu`, `menuKey`), the keys at an idle prompt (`key`, `submit`: press) and what completion
--   puts in (`completed`, `commonPrefix`, `shellWord`). Texts are lists of runes there.
-- * internal/config/save.go and mount.go's `saveState` write the pod back: Config.Save has `Render`, up to
--   the yaml (saved_config), and Daemon.Saved reads it again with `Resolve`.
-- * internal/ui/handover.go keeps the history of typed lines in a file: Ui.History has
--   `appendHistory` and `loadHistory`.
-- * internal/sys/mountflags.go finds the flags that a read-only remount has to keep: Sys has
--   `currentFlags` (current_flags) and the flags of `RemountReadOnly` (remount_flags).
-- * internal/ui/marks.go parses the output of a shell: Ui.Marks has `Parser.Feed` (feed), and
--   Ui.Marks.Scan a reading byte by byte to compare it with. Ui.Frames reads with it the marks that
--   the daemon writes.
-- * internal/proto/proto.go has the records that cross between them: Proto.
--
-- They meet as in the program: `Resolve` and `addMount` use the guard; `desired` reads the live
-- list; `reconcile` runs the node's `handle` through requests that may be lost on either way. The
-- state of reconcile.go is Net: what the daemon knows of the node, the node, and the number of
-- requests sent; its functions are in the monad M of state and failure.
--
-- Strings are lists of bytes. Go maps are association lists (Base.Dict), and where the source ranges
-- over a map the model takes the list as it stands, so that a theorem is about every order. Go's
-- library functions on strings and paths that the source uses are in Strings and Filepath. Locks are
-- left out: an operation runs whole where the source holds the lock, and `desired`, `reconcile` and
-- `dispatch`, which take it for one step at a time, run with nothing else in between. A session is
-- modelled in the steps of its goroutines (Daemon.Sessions.Steps): what `switchTo`, `openShell`, `pump`
-- and `attach` do under one hold of its lock is one step, and each write to a ring or to a
-- terminal is one, with any steps of others in between. One loop needs fuel, that of `Feed`, as much as it has
-- bytes; that of `replaceWord` has the source's bound of 1000 rounds; every other runs over a list.
--
-- What is not under the repository's control is a parameter: Os (home, working directory, `os.Stat`,
-- durations, `fmt.Sscan`), TextArea (the library's text area), Files (what the ssh config's files hold), Calls and Outcomes (whether file systems mount and bind), World (whether
-- requests and replies arrive, whether tunnels can be set up), and can_reach (whether one machine
-- reaches another by ssh). How the swap of a shell, the build of a node's pod and the opening of a
-- port turn out, which processes are alive, which terminals can be written to, the lines of mountinfo,
-- and the time, are arguments of the operations.
--
-- Not modelled: the parts that consist of system calls, processes, sockets and terminals
-- (internal/pod, the rest of internal/sys, internal/fs, the ssh pool of internal/remote), the drawing
-- of internal/ui, the commands under cmd, the yaml that `Render` writes, and so far the search among
-- sessions and the node's lease.
pub mod Base
pub mod Strings
pub mod Filepath
pub mod Route
pub mod Ring
pub mod Event
pub mod Proto
pub mod Config
pub mod Node
pub mod Remote
pub mod Sys
pub mod View
pub mod Complete
pub mod Ui
pub mod Daemon
pub mod Tests
