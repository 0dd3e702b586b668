-- ===== src/Daemon/Backends/PortLaws.antt =====
-- internal/daemon/ports.go, `forward`.
use vibepod.Base.{
  ℕ, Bool, true, false, not, Option, none, some, List, [], ◌∷◌, ◌++◌, ◌≡◌, refl, ◌∙◌, ◌≢◌,
}
use vibepod.Base.{◌==◌, if◌then◌else◌, text_eq, nat_eq, arith, if_cases}
use vibepod.Proto.{PortSpec}
use vibepod.Daemon.Backends.Defs.{Backends, known_backend}
use vibepod.Daemon.Backends.Ports.{
  Forwarded, unknown_host, taken_by, not_open, forwarded, port_at, same_port, open_port, forward,
}

-- No two forwards share a local port.
abbrev pub PortsDistinct : List PortSpec → Type 0
PortsDistinct [] = Unit
PortsDistinct (p ∷ ps) = (port_at ps p.local_port ≡ none) × PortsDistinct ps

port_at-snoc :
    (ps : List PortSpec) (p : PortSpec) (n : ℕ)
    → port_at ps n ≡ none
    → port_at (ps ++ p ∷ []) n ≡ (if p.local_port == n then some p else none)
unfolding port_at
port_at-snoc [] p n h = refl
port_at-snoc (q ∷ ps) p n h = ground (arith, port_at-snoc ps p n)

port_at_apart :
    (q : PortSpec) (ps : List PortSpec) (n : ℕ)
    → port_at (q ∷ ps) n ≡ none
    → (q.local_port ≢ n) × (port_at ps n ≡ none)
unfolding port_at
port_at_apart q ps n h = (ground arith, ground arith)

PortsDistinct-snoc :
    (ps : List PortSpec) (p : PortSpec)
    → port_at ps p.local_port ≡ none
    → PortsDistinct ps
    → PortsDistinct (ps ++ p ∷ [])
PortsDistinct-snoc [] p h u = (unfold port_at in refl, tt)
PortsDistinct-snoc (q ∷ ps) p h (fresh, u) =
    let (ne, rest) = port_at_apart q ps p.local_port h in
    (port_at-snoc ps p q.local_port fresh ∙ ground arith, PortsDistinct-snoc ps p rest u)

-- What a call of `forward` leaves, by its answer.
abbrev pub ForwardResult : Backends → List PortSpec → PortSpec → Forwarded × List PortSpec → Type 0
ForwardResult s ps p (unknown_host h, ps') = (known_backend s p.host ≡ false) × (ps' ≡ ps)
ForwardResult s ps p (taken_by q, ps') = (port_at ps p.local_port ≡ some q) × (ps' ≡ ps)
ForwardResult s ps p (not_open, ps') = (port_at ps p.local_port ≡ none) × (ps' ≡ ps)
ForwardResult s ps p (forwarded, ps') =
    (known_backend s p.host ≡ true)
    × ((q : PortSpec) × (port_at ps' p.local_port ≡ some q)
        × (q.host ≡ p.host)
        × (q.remote_port ≡ p.remote_port))
    × PortsDistinct ps'

open_port-ForwardResult :
    (opened : Bool) (s : Backends) (ps : List PortSpec) (p : PortSpec) (have : Option PortSpec)
    → known_backend s p.host ≡ true
    → PortsDistinct ps
    → port_at ps p.local_port ≡ have
    → ForwardResult s ps p (open_port opened ps p have)
unfolding open_port
open_port-ForwardResult opened s ps p (some q) k u h =
    if_cases (λ a. ForwardResult s ps p (a, ps)) (same_port q p) _ _
      (λ y. unfold same_port in (k, (q, h, ground arith, ground arith), u)) (λ _. (h, refl))
open_port-ForwardResult opened s ps p none k u h =
    if_cases (ForwardResult s ps p) opened _ _
      (λ _. (
        k,
        (p, port_at-snoc ps p p.local_port h ∙ ground arith, refl, refl),
        PortsDistinct-snoc ps p h u,
      ))
      (λ _. (h, refl))

-- From forwards at distinct local ports, `forward` answers with success only for a machine that is
-- known, and then the local port leads to the port and machine that were asked for, and the local
-- ports are distinct still. When it answers with an error the forwards are as they were: the machine
-- is not known, the local port is held by the forward that the error names, or the port is free and
-- could not be opened.
pub forward_result :
    (opened : Bool) (s : Backends) (ps : List PortSpec) (p : PortSpec)
    → PortsDistinct ps
    → ForwardResult s ps p (forward opened s ps p)
unfolding forward
forward_result opened s ps p u =
    if_cases (ForwardResult s ps p) (not (known_backend s p.host)) _ _ (λ e. (ground arith, refl))
      (λ e. open_port-ForwardResult opened s ps p (port_at ps p.local_port) (ground arith) u refl)
