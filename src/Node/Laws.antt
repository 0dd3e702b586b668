-- ===== src/Node/Laws.antt =====
-- What a node holds, as a map from paths, under the requests that change it.
use vibepod.Base.{true, false, Option, none, some, List, [], ◌∷◌, ◌++◌, ◌≡◌, refl, ◌≢◌}
use vibepod.Base.{Text, ◌==◌, if◌then◌else◌, text_eq, arith, All}
use vibepod.Proto.{MountSpec, Held}
use vibepod.Node.Defs.{Node, Outcomes, remembered, add_mount, holds_at, remove_first, remove_mount}

-- The mount held at a path.
unfoldable pub find_at : List Held → Text → Option Held
find_at [] at = none
find_at (h ∷ hs) at = if h.at == at then some h else find_at hs at

-- No two mounts are held at one path.
abbrev pub OnePerPath : List Held → Type 0
OnePerPath [] = Unit
OnePerPath (h ∷ hs) = (find_at hs h.at ≡ none) × OnePerPath hs

pub find_at-remove_first :
    (hs : List Held) (at a : Text)
    → OnePerPath hs
    → find_at (remove_first hs at) a ≡ (if a == at then none else find_at hs a)
unfolding find_at remove_first
find_at-remove_first [] at a u = ground arith
find_at-remove_first (h ∷ hs) at a (fresh, u) = ground (arith, find_at-remove_first hs at a u)

pub find_at-append :
    (hs : List Held) (h : Held) (a : Text)
    → find_at hs h.at ≡ none
    → find_at (hs ++ h ∷ []) a ≡ (if a == h.at then some h else find_at hs a)
unfolding find_at
find_at-append [] h a fresh = ground arith
find_at-append (g ∷ hs) h a fresh = ground (arith, find_at-append hs h a)

pub remove_first-OnePerPath :
    (hs : List Held) (at : Text) → OnePerPath hs → OnePerPath (remove_first hs at)
unfolding remove_first
remove_first-OnePerPath [] at u = tt
remove_first-OnePerPath (h ∷ hs) at (fresh, u) =
    ground (arith, remove_first-OnePerPath hs at u, find_at-remove_first hs at h.at u)

find_at-append_none :
    (hs : List Held) (h : Held) (a : Text)
    → find_at hs a ≡ none
    → a ≢ h.at
    → find_at (hs ++ h ∷ []) a ≡ none
unfolding find_at
find_at-append_none [] h a n ne = ground arith
find_at-append_none (g ∷ hs) h a n ne = ground (arith, find_at-append_none hs h a)

pub append-OnePerPath :
    (hs : List Held) (h : Held) → OnePerPath hs → find_at hs h.at ≡ none → OnePerPath (hs ++ h ∷ [])
append-OnePerPath [] h u fresh = (unfold find_at in refl, tt)
append-OnePerPath (g ∷ hs) h (n, u) fresh =
    let (there, apart) = parts_of (unfold find_at in fresh) in
    (find_at-append_none hs h g.at n (λ e. apart e), append-OnePerPath hs h u there)
  where
    parts_of :
        (if g.at == h.at then some g else find_at hs h.at) ≡ none
        → (find_at hs h.at ≡ none) × (g.at ≢ h.at)
    parts_of e = ground arith

-- What the node then holds at each path, if a mount request succeeds.
pub add_mount_ok :
    (o : Outcomes) (n n' : Node) (m : MountSpec)
    → add_mount o n m ≡ (true, n')
    → n' ≡ record n { held = n.held ++ remembered n.name m ∷ [] }
unfolding add_mount
add_mount_ok o n n' m h = ground arith

pub remove_mount_ok :
    (o : Outcomes) (n n' : Node) (at : Text)
    → remove_mount o n at ≡ (true, n')
    → n' ≡ record n { held = remove_first n.held at }
unfolding remove_mount
remove_mount_ok o n n' at h = ground arith

-- The node remembers of a mount its path, its source and whether it is read-only.
pub remembered_fields :
    (name : Text) (m : MountSpec)
    → ((remembered name m).at ≡ m.at)
      × ((remembered name m).host ≡ m.host)
      × ((remembered name m).path ≡ m.path)
      × ((remembered name m).read_only ≡ m.read_only)
unfolding remembered
remembered_fields name m = ground arith

pub holds_at-find_at : (hs : List Held) (a : Text) → holds_at hs a ≡ false → find_at hs a ≡ none
unfolding holds_at find_at
holds_at-find_at [] a h = refl
holds_at-find_at (g ∷ hs) a h = ground (arith, holds_at-find_at hs a)

All-found_after :
    (h : Held) (seen hs : List Held)
    → All (λ g. find_at seen g.at ≢ none) hs
    → All (λ g. find_at (h ∷ seen) g.at ≢ none) hs
All-found_after h seen [] there = tt
All-found_after h seen (g ∷ hs) (here, there) =
    (λ e. here (unfold find_at in ground arith), All-found_after h seen hs there)

-- What is held is found at its path.
pub All-found : (hs : List Held) → All (λ g. find_at hs g.at ≢ none) hs
All-found [] = tt
All-found (h ∷ hs) = (unfold find_at in (λ e. ground arith), All-found_after h hs hs (All-found hs))
