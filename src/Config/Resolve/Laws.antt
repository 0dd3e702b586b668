-- ===== src/Config/Resolve/Laws.antt =====
-- What a resolved config promises.
use vibepod.Base.{true, none, List, [], ◌∷◌}
use vibepod.Base.{Text, contains, text_eq, nat_eq, All}
use vibepod.Base.{◌≡◌, sym, arith, Option-cases, inl, inr, ◌⊎◌}
use mathlib.Core.Path.{subst}
use vibepod.Base.Dict.{Dict}
use vibepod.Route.{pod}
use vibepod.Proto.{PortSpec}
use vibepod.Config.Resolve.Defs.{
  ok, Result-cases, Placing, Os, Config, Resolved, resolve, finish_resolve,
}
use vibepod.Config.Resolve.Defs.{
  place_all, place_access, parse_ports, check_known, host_list, stray_tool, assemble, or_text,
}

-- What the final steps of `Resolve` leave of the placed mounts.
finish_ok :
    (os : Os) (c : Config) (p : Placing) (r : Resolved)
    → finish_resolve os c p ≡ ok r
    → (ports : List PortSpec) × (r ≡ assemble c p ports)
      × (check_known (host_list c) c.remote_tools.hosts (or_text c.exec_default pod) ≡ none)
unfolding finish_resolve
finish_ok os c p r h = elim (Result-cases (parse_ports os c.ports)) [
  | inl (x, e) ↦ absurd (ground arith)
  | inr (ports, e) ↦ (ports, ground arith, ground arith)
]

abbrev empty_placing : Placing
empty_placing = record { claimed = []; origins = []; mounts = [] }

-- The steps of a `Resolve` that succeeds.
resolve_ok :
    (os : Os) (c : Config) (r : Resolved)
    → resolve os c ≡ ok r
    → (p : Placing) × (q : Placing) × (place_all os empty_placing c.mounts ≡ ok p)
      × (place_access os p c.host_access ≡ ok q)
      × (finish_resolve os c q ≡ ok r)
unfolding resolve
resolve_ok os c r h = elim (Result-cases (place_all os empty_placing c.mounts)) [
  | inl (x, e) ↦ absurd (ground arith)
  | inr (p, e) ↦ elim (Result-cases (place_access os p c.host_access)) [
    | inl (x, e') ↦ absurd (ground arith)
    | inr (q, e') ↦ (p, q, e, e', ground arith)
  ]
]

stray_tool-none :
    (known : List Text) (tools : Dict Text Text)
    → stray_tool known tools ≡ none
    → All (λ (_, host). contains known host ≡ true) tools
unfolding stray_tool
stray_tool-none known [] h = tt
stray_tool-none known ((tool, host) ∷ tools) h = ground (arith, stray_tool-none known tools)

check_known-none :
    (known : List Text) (tools : Dict Text Text) (default : Text)
    → check_known known tools default ≡ none
    → ((default ≡ pod) ⊎ (contains known default ≡ true))
      × All (λ (_, host). contains known host ≡ true) tools
unfolding check_known
check_known-none known tools default h = elim (Option-cases (stray_tool known tools)) [
  | inl e ↦ (ground arith, stray_tool-none known tools e)
  | inr ((t, m), e) ↦ absurd (ground arith)
]

-- In a config that `Resolve` accepts a new session opens in the pod or on a machine that the
-- config mentions, and every tool is on a machine that it mentions.
pub resolve_known :
    (os : Os) (c : Config) (r : Resolved)
    → resolve os c ≡ ok r
    → ((r.default ≡ pod) ⊎ (contains r.machines r.default ≡ true))
      × All (λ (_, host). contains r.machines host ≡ true) r.tool_hosts
unfolding assemble
resolve_known os c r h =
    let (p, q, e, e', f) = resolve_ok os c r h in
    let (ports, same, k) = finish_ok os c q r f in
    subst
      (λ (x : Resolved).
        ((x.default ≡ pod) ⊎ (contains x.machines x.default ≡ true))
        × All (λ (_, host). contains x.machines host ≡ true) x.tool_hosts)
      (sym same)
      (check_known-none (host_list c) c.remote_tools.hosts (or_text c.exec_default pod) k)
