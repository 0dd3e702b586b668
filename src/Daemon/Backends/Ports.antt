-- ===== src/Daemon/Backends/Ports.antt =====
-- internal/daemon/ports.go: the forwards that a pod has open.
use vibepod.Base.{ℕ, Bool, not, ◌&&◌, Option, none, some, List, [], ◌∷◌, ◌++◌}
use vibepod.Base.{Text, ◌==◌, if◌then◌else◌, text_eq, nat_eq, ltb, sort_by}
use vibepod.Proto.{PortSpec}
use vibepod.Daemon.Backends.Defs.{Backends, known_backend}

pub data Forwarded : Type 0 where
  unknown_host : Text → Forwarded
  taken_by : PortSpec → Forwarded
  not_open : Forwarded
  forwarded : Forwarded

-- The forward at a local port: the loop of `forward`.
unfoldable pub port_at : List PortSpec → ℕ → Option PortSpec
port_at [] n = none
port_at (p ∷ ps) n = if p.local_port == n then some p else port_at ps n

unfoldable pub same_port : PortSpec → PortSpec → Bool
same_port p q = p.host == q.host && p.remote_port == q.remote_port && p.local_port == q.local_port

unfoldable pub open_port :
    Bool → List PortSpec → PortSpec → Option PortSpec → Forwarded × List PortSpec
open_port opened ps p (some have) = (if same_port have p then forwarded else taken_by have, ps)
open_port opened ps p none = if opened then (forwarded, ps ++ p ∷ []) else (not_open, ps)

-- `forward`; `opened` is whether the machine answers and ssh opens the port.
unfoldable pub forward : Bool → Backends → List PortSpec → PortSpec → Forwarded × List PortSpec
forward opened s ps p =
    if not (known_backend s p.host)
    then (unknown_host p.host, ps)
    else open_port opened ps p (port_at ps p.local_port)

-- `portList`
unfoldable pub port_list : List PortSpec → List PortSpec
port_list ps = sort_by (λ p q. ltb p.local_port q.local_port) ps
