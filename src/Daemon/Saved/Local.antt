-- ===== src/Daemon/Saved/Local.antt =====
-- internal/daemon/mount.go, internal/config/save.go and `Resolve`: a saved mount of a directory of this
-- machine that is meant to run elsewhere.
use vibepod.Base.{Bool, true, false, Option, []}
use vibepod.Base.{◌≡◌, ◌≢◌, refl, sym, arith, inl, inr, Bool-cases, not, ◌&&◌, if_cases}
use mathlib.Core.Path.{subst}
use vibepod.Base.{Text, ◌==◌, if◌then◌else◌, text_eq}
use vibepod.Route.{pod}
use vibepod.Config.Resolve.{
  Mount, Os, Placing, Result, ok, err, ◌>>=◌, exposed, expand, place_local, place,
}
use vibepod.Config.Save.{zero_mount, unless_same, shorten_home, saved_mount}
use vibepod.Daemon.Mounts.{MountRec}
use vibepod.Daemon.Saved.Defs.{snap_mount}

-- A result that is an error.
abbrev pub IsErr {ℓ} : {A : Type ℓ} → Result A → Type 0
IsErr (ok a) = ⊥
IsErr (err e) = Unit

bind-IsErr :
    {A B : Type 0} (r : Result A) (f : A → Result B) → ((a : A) → IsErr (f a)) → IsErr (r >>= f)
bind-IsErr (ok a) f h = h a
bind-IsErr (err e) f h = tt

unexposed-IsErr :
    {B : Type 0} (b : Bool) (x : Result B) (y : Result B)
    → b ≡ false
    → IsErr y
    → IsErr (if b then x else y)
unexposed-IsErr true x y e h = absurd (cc)
unexposed-IsErr false x y e h = h

place_local-IsErr :
    (os : Os) (p : Placing) (m : Mount) → exposed m ≡ false → IsErr (place_local os p m)
unfolding place_local
place_local-IsErr os p m e =
    bind-IsErr (expand os m.local) _
      (λ src. bind-IsErr _ _ (λ q. unexposed-IsErr (exposed m) _ _ e tt))

place-IsErr :
    (os : Os) (p : Placing) (m : Mount) → m.remote ≡ [] → exposed m ≡ false → IsErr (place os p m)
unfolding place
place-IsErr os p m r e =
    if_cases IsErr (not (m.local == []) && not (m.remote == [])) _ _ (λ _. tt)
      (λ _.
        if_cases IsErr (not (m.local == [])) _ _ (λ _. place_local-IsErr os p m e)
          (λ _. if_cases IsErr (not (m.remote == [])) _ _ (λ y. absurd (none_there y)) (λ _. tt)))
  where
    none_there : not (m.remote == []) ≡ true → ⊥
    none_there y = absurd (ground arith)

saved_mount-local :
    (home : Option Text) (m : MountRec)
    → m.owner ≡ pod
    → saved_mount home (snap_mount m) ≡ record zero_mount {
      read_only = m.read_only;
      exec_on = m.exec_on;
      local = shorten_home home m.src;
      at = unless_same m.at (shorten_home home m.src);
    }
unfolding saved_mount snap_mount
saved_mount-local home m e = elim (Bool-cases (m.owner == pod)) [
  | inl y ↦ rw y refl
  | inr n ↦ absurd (ground arith)
]

exposed-saved :
    (local at exec_on : Text) (ro : Bool)
    → exec_on ≢ []
    → exposed (record zero_mount { read_only = ro; exec_on = exec_on; local = local; at = at })
      ≡ false
unfolding exposed
exposed-saved local at exec_on ro ne = ground arith

-- Of a directory of this machine whose commands are meant for another machine, the configuration that is
-- saved is refused by Resolve, wherever it is read and whatever stands before it: what is
-- saved does not say to whom the directory is exposed.
pub place-saved_local :
    (os : Os) (home : Option Text) (p : Placing) (m : MountRec)
    → m.owner ≡ pod
    → m.exec_on ≢ []
    → IsErr (place os p (saved_mount home (snap_mount m)))
place-saved_local os home p m e ne =
    subst (λ w. IsErr (place os p w)) (sym (saved_mount-local home m e))
      (place-IsErr os p _ refl (
        exposed-saved (shorten_home home m.src) (unless_same m.at (shorten_home home m.src))
          m.exec_on m.read_only ne))
