-- ===== src/Daemon/Unmount/Laws.antt =====
-- internal/daemon/mount.go, `removeMount`: what it leaves, by its result.
use vibepod.Base.{ℕ, suc, Bool, false, Option, none, some, List, [], ◌∷◌}
use vibepod.Base.{
  ◌≡◌, ◌≢◌, ◌↔◌, refl, sym, ap, ◌∙◌, arith, inl, inr, Bool-cases, Option-cases, All, All-In, In,
  Pairwise,
}
use vibepod.Base.{Text, ◌==◌, ==_iff, if_cases, text_eq, nat_eq}
use vibepod.Base.Dict.{Dict, lookup}
use vibepod.Daemon.Mounts.{MountRec, Live}
use vibepod.Daemon.Backends.{Backends}
use vibepod.Daemon.Unmount.Defs.{
  rebuild_routes, hits, session_in, UnmountError, nothing_mounted, session_works_in, unbind_failed,
  busy, drop_mount, unmount_all, unmounted, unless_busy, remove_found, remove_mount,
}
use vibepod.Daemon.Unmount.Home.{IsSettled, settle-IsSettled}

-- Every mount was added under a generation of its own.
abbrev pub GenDistinct : List MountRec → Type 0
GenDistinct ms = Pairwise (λ m n. m.gen ≢ n.gen) ms

drop_head :
    (g : ℕ) (m x : MountRec) (ms : List MountRec)
    → x.gen ≡ g
    → All (λ n. x.gen ≢ n.gen) ms
    → In m ms ↔ (In m (x ∷ ms) × (m.gen ≢ g))
drop_head g m x ms e far = (
  (λ i. (inr i, (λ em. All-In (λ n. x.gen ≢ n.gen) m ms far i (e ∙ sym em)))),
  (λ h. elim h.0 [ inl same ↦ absurd (h.1 (ap (λ (q : MountRec). q.gen) same ∙ e)) | inr i ↦ i ]),
)

drop_tail :
    (g : ℕ) (m x : MountRec) (ms rest : List MountRec)
    → x.gen ≢ g
    → In m rest ↔ (In m ms × (m.gen ≢ g))
    → In m (x ∷ rest) ↔ (In m (x ∷ ms) × (m.gen ≢ g))
drop_tail g m x ms rest ne ih = (
  (λ i. elim i [
    | inl same ↦ (inl same, (λ em. ne (sym (ap (λ (q : MountRec). q.gen) same) ∙ em)))
    | inr j ↦ (inr (ih.0 j).0, (ih.0 j).1)
  ]),
  (λ h. elim h.0 [ inl same ↦ inl same | inr j ↦ inr (ih.1 (j, h.1)) ]),
)

In-drop_mount :
    (g : ℕ) (m : MountRec) (ms : List MountRec)
    → GenDistinct ms
    → In m (drop_mount g ms) ↔ (In m ms × (m.gen ≢ g))
unfolding drop_mount
In-drop_mount g m [] d = ((λ h. absurd h), (λ h. absurd h.0))
In-drop_mount g m (x ∷ ms) (far, d) = elim (Bool-cases (x.gen == g)) [
  | inl y ↦ rw y (drop_head g m x ms ((==_iff x.gen g).0 y) far)
  | inr n ↦ rw n (drop_tail g m x ms (drop_mount g ms) (ground arith) (In-drop_mount g m ms d))
]

All-drop_mount :
    (P : MountRec → Type 0) (g : ℕ) (ms : List MountRec) → All P ms → All P (drop_mount g ms)
unfolding drop_mount
All-drop_mount P g [] h = tt
All-drop_mount P g (x ∷ ms) (px, h) =
    if_cases (All P) (x.gen == g) _ _ (λ _. h) (λ _. (px, All-drop_mount P g ms h))

drop_mount-GenDistinct :
    (g : ℕ) (ms : List MountRec) → GenDistinct ms → GenDistinct (drop_mount g ms)
unfolding drop_mount
drop_mount-GenDistinct g [] h = tt
drop_mount-GenDistinct g (x ∷ ms) (far, d) =
    if_cases GenDistinct (x.gen == g) _ _ (λ _. d)
      (λ _. (All-drop_mount (λ n. x.gen ≢ n.gen) g ms far, drop_mount-GenDistinct g ms d))

-- The list that the loop leaves.
abbrev pub Dropped :
    (Text → Bool) → List MountRec → List MountRec → Option UnmountError × List MountRec → Type 0
Dropped unbinds hs ms (none, left) =
    (m : MountRec) → In m left ↔ (In m ms × All (λ h. m.gen ≢ h.gen) hs)
Dropped unbinds hs ms (some (unbind_failed at), left) =
    (unbinds at ≡ false)
    × ((m : MountRec) → In m left → In m ms)
    × ((m : MountRec) → In m ms → All (λ h. m.gen ≢ h.gen) hs → In m left)
Dropped unbinds hs ms (some (nothing_mounted what), left) = ⊥
Dropped unbinds hs ms (some (session_works_in id at), left) = ⊥

Dropped-cons :
    (unbinds : Text → Bool) (h : MountRec) (hs ms : List MountRec)
    (r : Option UnmountError × List MountRec)
    → GenDistinct ms
    → Dropped unbinds hs (drop_mount h.gen ms) r
    → Dropped unbinds (h ∷ hs) ms r
Dropped-cons unbinds h hs ms (some (unbind_failed at), left) d k = (
  k.0,
  (λ m i. ((In-drop_mount h.gen m ms d).0 (k.1 m i)).0),
  (λ m i all. k.2 m ((In-drop_mount h.gen m ms d).1 (i, all.0)) all.1),
)
Dropped-cons unbinds h hs ms (some (nothing_mounted what), left) d k = k
Dropped-cons unbinds h hs ms (some (session_works_in id at), left) d k = k
Dropped-cons unbinds h hs ms (none, left) d k = λ m. (
  (λ i.
      let (j, all) = (k m).0 i in let (l, ne) = (In-drop_mount h.gen m ms d).0 j in (l, (ne, all))),
  (λ x. (k m).1 ((In-drop_mount h.gen m ms d).1 (x.0, x.1.0), x.1.1)),
)

unmount_all-Dropped :
    (unbinds : Text → Bool) (hs ms : List MountRec)
    → GenDistinct ms
    → Dropped unbinds hs ms (unmount_all unbinds hs ms)
unfolding unmount_all
unmount_all-Dropped unbinds [] ms d = λ m. ((λ i. (i, tt)), (λ h. h.0))
unmount_all-Dropped unbinds (h ∷ hs) ms d =
    if_cases (Dropped unbinds (h ∷ hs) ms) (unbinds h.at) _ _
      (λ _.
        Dropped-cons unbinds h hs ms (unmount_all unbinds hs (drop_mount h.gen ms)) d (
          unmount_all-Dropped unbinds hs (drop_mount h.gen ms) (drop_mount-GenDistinct h.gen ms d)))
      (λ e. (e, (λ m i. i), (λ m i all. i)))

-- What a call of `removeMount` that finds the mounts `hs` leaves, by its result.
abbrev pub UnmountResult :
    (Text → Bool)
    → Dict Text Text
    → List MountRec
    → Live
    → Backends
    → Option UnmountError × Live × Backends
    → Type 0
UnmountResult unbinds cwds hs s b (none, s', b') =
    (hs ≢ [])
    × All (λ h. session_in cwds h.at ≡ none) hs
    × (s'.gen ≡ suc s.gen)
    × ((m : MountRec) → In m s'.mounts ↔ (In m s.mounts × All (λ h. m.gen ≢ h.gen) hs))
    × ((id x : Text)
        → id ≢ []
        → lookup id b'.backends ≡ some x
        → IsSettled (rebuild_routes s' b) hs id x)
UnmountResult unbinds cwds hs s b (some (nothing_mounted what), s', b') =
    (hs ≡ []) × (s' ≡ s) × (b' ≡ b)
UnmountResult unbinds cwds hs s b (some (session_works_in id at), s', b') =
    (session_in cwds at ≡ some id) × (s' ≡ s) × (b' ≡ b)
UnmountResult unbinds cwds hs s b (some (unbind_failed at), s', b') =
    (unbinds at ≡ false)
    × (s'.gen ≡ s.gen)
    × (b' ≡ b)
    × ((m : MountRec) → In m s'.mounts → In m s.mounts)
    × ((m : MountRec) → In m s.mounts → All (λ h. m.gen ≢ h.gen) hs → In m s'.mounts)

-- What `busy` answers.
abbrev IsBusy : Dict Text Text → List MountRec → Option UnmountError → Type 0
IsBusy cwds hs none = All (λ h. session_in cwds h.at ≡ none) hs
IsBusy cwds hs (some (session_works_in id at)) = session_in cwds at ≡ some id
IsBusy cwds hs (some (nothing_mounted what)) = ⊥
IsBusy cwds hs (some (unbind_failed at)) = ⊥

IsBusy-cons :
    (cwds : Dict Text Text) (h : MountRec) (hs : List MountRec) (o : Option UnmountError)
    → session_in cwds h.at ≡ none
    → IsBusy cwds hs o
    → IsBusy cwds (h ∷ hs) o
IsBusy-cons cwds h hs none e k = (e, k)
IsBusy-cons cwds h hs (some (session_works_in id at)) e k = k
IsBusy-cons cwds h hs (some (nothing_mounted what)) e k = k
IsBusy-cons cwds h hs (some (unbind_failed at)) e k = k

busy-IsBusy : (cwds : Dict Text Text) (hs : List MountRec) → IsBusy cwds hs (busy cwds hs)
unfolding busy
busy-IsBusy cwds [] = tt
busy-IsBusy cwds (h ∷ hs) = elim (Option-cases (session_in cwds h.at)) [
  | inl e ↦ rw e (IsBusy-cons cwds h hs (busy cwds hs) e (busy-IsBusy cwds hs))
  | inr (id, e) ↦ rw e e
]

unmounted-UnmountResult :
    (unbinds : Text → Bool) (switched : Text → Bool) (cwds : Dict Text Text) (h : MountRec)
    (hs : List MountRec) (s : Live) (b : Backends) (r : Option UnmountError × List MountRec)
    → Dropped unbinds (h ∷ hs) s.mounts r
    → All (λ h. session_in cwds h.at ≡ none) (h ∷ hs)
    → UnmountResult unbinds cwds (h ∷ hs) s b (unmounted switched (h ∷ hs) s b r)
unfolding unmounted
unmounted-UnmountResult unbinds switched cwds h hs s b (none, left) k free =
    ((λ e. cc), free, refl, k, (λ id x ne e. settle-IsSettled switched (h ∷ hs) _ id x ne e))
unmounted-UnmountResult unbinds switched cwds h hs s b (some (unbind_failed at), left) k free =
    (k.0, refl, refl, k.1, k.2)
unmounted-UnmountResult unbinds switched cwds h hs s b (some (nothing_mounted what), left) k free =
    absurd k
unmounted-UnmountResult unbinds switched cwds h hs s b (some (session_works_in id at), left) k
      free =
    absurd k

unless_busy-UnmountResult :
    (unbinds : Text → Bool) (switched : Text → Bool) (cwds : Dict Text Text) (h : MountRec)
    (hs : List MountRec) (s : Live) (b : Backends) (o : Option UnmountError)
    → GenDistinct s.mounts
    → IsBusy cwds (h ∷ hs) o
    → UnmountResult unbinds cwds (h ∷ hs) s b (unless_busy unbinds switched (h ∷ hs) s b o)
unfolding unless_busy
unless_busy-UnmountResult unbinds switched cwds h hs s b none d k =
    unmounted-UnmountResult unbinds switched cwds h hs s b (unmount_all unbinds (h ∷ hs) s.mounts)
      (unmount_all-Dropped unbinds (h ∷ hs) s.mounts d) k
unless_busy-UnmountResult unbinds switched cwds h hs s b (some (session_works_in id at)) d k =
    (k, refl, refl)
unless_busy-UnmountResult unbinds switched cwds h hs s b (some (nothing_mounted what)) d k =
    absurd k
unless_busy-UnmountResult unbinds switched cwds h hs s b (some (unbind_failed at)) d k = absurd k

remove_found-UnmountResult :
    (unbinds : Text → Bool) (switched : Text → Bool) (cwds : Dict Text Text) (what : Text)
    (hs : List MountRec) (s : Live) (b : Backends)
    → GenDistinct s.mounts
    → UnmountResult unbinds cwds hs s b (remove_found unbinds switched cwds what hs s b)
unfolding remove_found
remove_found-UnmountResult unbinds switched cwds what [] s b d = (refl, refl, refl)
remove_found-UnmountResult unbinds switched cwds what (h ∷ hs) s b d =
    unless_busy-UnmountResult unbinds switched cwds h hs s b (busy cwds (h ∷ hs)) d
      (busy-IsBusy cwds (h ∷ hs))

-- For mounts added under generations of their own. removeMount that succeeds has found mounts in
-- which no session began; it takes just these out of the list, under the next generation, and a
-- session that is then recorded on a machine is on one that is still known, or was there before and
-- is on no machine that a mount taken out came from. Where nothing is mounted and where a session
-- began in a mount, nothing changes; where the pod refuses to unbind a mount, the list has lost some
-- of those found and no other, while the routes, the generation and the sessions stay.
pub remove_mount_result :
    (unbinds : Text → Bool) (switched : Text → Bool) (cwds : Dict Text Text) (what : Text)
    (s : Live) (b : Backends)
    → GenDistinct s.mounts
    → UnmountResult unbinds cwds
        (hits what s.mounts)
        s
        b
        (remove_mount unbinds switched cwds what s b)
unfolding remove_mount
remove_mount_result unbinds switched cwds what s b d =
    remove_found-UnmountResult unbinds switched cwds what (hits what s.mounts) s b d
