-- ===== src/Pm/Tests/Requests.antt =====
-- addons/pm/server/daemon.go: requests to a daemon with a small child.
use gdev.Base.{[], ◌∷◌}
use gdev.Pm.Child.{Manager}
use gdev.Pm.Daemon.{Daemon, Entry}
use gdev.Pm.Tests.{web, web_stopped}

abbrev of_manager : Manager → Daemon
of_manager m = record { children = ("web", record { def = web; manager = m }) ∷ [] }

abbrev at_rest : Entry
at_rest = record { def = web; manager = web_stopped }
