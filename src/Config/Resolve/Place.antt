-- ===== src/Config/Resolve/Place.antt =====
-- What the loops of `Resolve` keep true of the mounts placed so far.
use vibepod.Base.{none, List, [], ◌∷◌, ◌++◌}
use vibepod.Base.{Text, text_eq, nat_eq, All}
use vibepod.Base.{◌≡◌, refl, sym, ap, ◌∙◌, ◌≢◌, arith, Option-cases, Bool-cases, inl, inr}
use mathlib.Core.Path.{subst}
use vibepod.Base.Dict.{lookup, insert, lookup-insert, lookup-insert_self}
use vibepod.Proto.{MountSpec}
use vibepod.Config.Remote.{Remote, parse_remote, parse_remote-host}
use vibepod.Config.Resolve.Defs.{
  ok, Result-cases, local_spec, identity_spec, local_at, Placing, claim, overlap, Os, Mount, expand,
}
use vibepod.Config.Resolve.Defs.{
  place_local, place_parsed, place_remote, place, place_all, place_access, place_identity,
}
use vibepod.Config.Resolve.Defs.{claim_identity, remote_spec, remote_at}
use vibepod.Config.Resolve.Claims.{IsSound, claim_ok, append-IsSound, ok-injective, claim_then}

pub place_local-IsSound :
    (os : Os) (p p' : Placing) (m : Mount) → place_local os p m ≡ ok p' → IsSound p → IsSound p'
unfolding place_local
place_local-IsSound os p p' m h s = elim (Result-cases (expand os m.local)) [
  | inl (x, e) ↦ absurd (ground arith)
  | inr (src, e) ↦ elim (Result-cases (claim p (local_at m src) m.local)) [
    | inl (x, e') ↦ absurd (ground arith)
    | inr (q, e') ↦
        let same : record q { mounts = q.mounts ++ local_spec m src (local_at m src) ∷ [] } ≡ p' =
          ground arith in
        subst IsSound same (
          unfold local_spec in claim_then p q (local_spec m src (local_at m src)) m.local e' refl s)
  ]
]

pub place_identity-IsSound :
    (os : Os) (p p' : Placing) (path : Text)
    → place_identity os p path ≡ ok p'
    → IsSound p
    → IsSound p'
unfolding place_identity claim_identity
place_identity-IsSound os p p' path h s = elim (Result-cases (expand os path)) [
  | inl (x, e) ↦ absurd (ground arith)
  | inr (src, e) ↦ elim (Bool-cases (os.exists src)) [
    | inr skip ↦ subst IsSound (ground arith) s
    | inl here ↦ elim (Result-cases (claim p src path)) [
      | inl (x, e') ↦ absurd (ground arith)
      | inr (q, e') ↦
          let same : record q { mounts = q.mounts ++ identity_spec src ∷ [] } ≡ p' = ground arith in
          subst IsSound same
            (unfold identity_spec in claim_then p q (identity_spec src) path e' refl s)
    ]
  ]
]

-- What `place_parsed` did, if it succeeded.
place_parsed_ok :
    (p p' : Placing) (m : Mount) (r : Remote)
    → place_parsed p m r ≡ ok p'
    → (q : Placing) × (claim p (remote_at m r) m.remote ≡ ok q)
      × (overlap q.origins r.host r.path ≡ none)
      × (p' ≡ record q {
        origins = insert (r.host ++ b':' ∷ r.path) m.remote q.origins;
        mounts = q.mounts ++ remote_spec m r (remote_at m r) ∷ [];
      })
unfolding place_parsed
place_parsed_ok p p' m r h = elim (Result-cases (claim p (remote_at m r) m.remote)) [
  | inl (x, e) ↦ absurd (ground arith)
  | inr (q, e) ↦ (q, e, ground arith, ground arith)
]

remote_spec_fields :
    (m : Mount) (r : Remote) (at : Text)
    → ((remote_spec m r at).at ≡ at)
      × ((remote_spec m r at).host ≡ r.host)
      × ((remote_spec m r at).path ≡ r.path)
unfolding remote_spec
remote_spec_fields m r at = (refl, refl, refl)

place_parsed-IsSound :
    (p p' : Placing) (m : Mount) (r : Remote)
    → All (λ c. c ≢ b':') r.host
    → place_parsed p m r ≡ ok p'
    → IsSound p
    → IsSound p'
unfolding remote_spec
place_parsed-IsSound p p' m r one h s =
    let (q, c, o, e) = place_parsed_ok p p' m r h in
    let (g, u, e') = claim_ok p q (remote_at m r) m.remote c in
    let spec : MountSpec = remote_spec m r (remote_at m r) in
    let key : Text = r.host ++ b':' ∷ r.path in
    subst IsSound
      (sym (
        e
        ∙ ap
            (λ (z : Placing). record z {
              origins = insert key m.remote z.origins;
              mounts = z.mounts ++ spec ∷ [];
            })
            e'))
      (append-IsSound p spec m.remote (insert key m.remote p.origins)
        (record {
          guarded = g;
          unclaimed = u;
          one_host = one;
          alone = λ ne. ap (λ (z : Placing). overlap z.origins r.host r.path) (sym e') ∙ o;
        })
        (λ k known. known_still k key known) (λ ne. absent_not key) s)
  where
    known_still :
        (k key : Text) → lookup k p.origins ≢ none → lookup k (insert key m.remote p.origins) ≢ none
    known_still k key known = ground (arith, lookup-insert k key m.remote p.origins)

    absent_not : (key : Text) → lookup key (insert key m.remote p.origins) ≢ none
    absent_not key = ground (arith, lookup-insert_self key m.remote p.origins)

pub place_remote-IsSound :
    (p p' : Placing) (m : Mount) → place_remote p m ≡ ok p' → IsSound p → IsSound p'
unfolding place_remote
place_remote-IsSound p p' m h s = elim (Option-cases (parse_remote m.remote)) [
  | inl e ↦ absurd (ground arith)
  | inr (r, e) ↦ place_parsed-IsSound p p' m r (parse_remote-host m.remote r e).1 (ground arith) s
]

-- One round of the loop over the mounts keeps them sound.
pub place-IsSound :
    (os : Os) (p p' : Placing) (m : Mount) → place os p m ≡ ok p' → IsSound p → IsSound p'
unfolding place
place-IsSound os p p' m h s =
    ground (arith, place_local-IsSound os p p' m, place_remote-IsSound p p' m)

pub place_all-IsSound :
    (os : Os) (ms : List Mount) (p p' : Placing)
    → place_all os p ms ≡ ok p'
    → IsSound p
    → IsSound p'
unfolding place_all
place_all-IsSound os [] p p' h s = subst IsSound (ok-injective p p' h) s
place_all-IsSound os (m ∷ ms) p p' h s = elim (Result-cases (place os p m)) [
  | inl (x, e) ↦ absurd (ground arith)
  | inr (q, e) ↦ place_all-IsSound os ms q p' (ground arith) (place-IsSound os p q m e s)
]

pub place_access-IsSound :
    (os : Os) (ss : List Text) (p p' : Placing)
    → place_access os p ss ≡ ok p'
    → IsSound p
    → IsSound p'
unfolding place_access
place_access-IsSound os [] p p' h s = subst IsSound (ok-injective p p' h) s
place_access-IsSound os (t ∷ ss) p p' h s = elim (Result-cases (place_identity os p t)) [
  | inl (x, e) ↦ absurd (ground arith)
  | inr (q, e) ↦
      place_access-IsSound os ss q p' (ground arith) (place_identity-IsSound os p q t e s)
]
