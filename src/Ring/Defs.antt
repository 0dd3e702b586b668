-- ===== src/Ring/Defs.antt =====
-- internal/term/ring.go, with the lock left out: each operation runs under it, whole.
use vibepod.Base.{ℕ, zero, suc, ◌+◌, ◌-◌, Bool, true, false, List, [], ◌∷◌, ◌++◌, Text, ◌==◌}
use vibepod.Base.{if◌then◌else◌, nat_eq, length, take, drop, leb}

pub record Ring : Type 0 where
  pub buf : Text
  pub size : ℕ
  pub full : Bool
  pub pos : ℕ

abbrev pub replicate : ℕ → ℕ → Text
replicate zero b = []
replicate (suc n) b = b ∷ replicate n b

-- An assignment through an index; out of range it would be a panic, and changes nothing here.
abbrev pub set : Text → ℕ → ℕ → Text
set [] i b = []
set (x ∷ xs) zero b = b ∷ xs
set (x ∷ xs) (suc i) b = x ∷ set xs i b

-- `NewRing`.
unfoldable pub new_ring : ℕ → Ring
new_ring size = record { buf = replicate size 0; size = size; full = false; pos = 0 }

-- One round of the loop of `Write`.
unfoldable pub write_byte : Ring → ℕ → Ring
write_byte r b =
    let pos = r.pos + 1 in
    if pos == r.size
    then record r { buf = set r.buf r.pos b; pos = 0; full = true }
    else record r { buf = set r.buf r.pos b; pos = pos }

unfoldable pub write_loop : Ring → Text → Ring
unfolding write_byte
write_loop r [] = r
write_loop r (b ∷ p) = write_loop (write_byte r b) p

-- `Write`; `copy` fills the buffer from its start. The count returned is always `len(p)`.
unfoldable pub write : Ring → Text → Ring
unfolding write_loop
write r p =
    if leb r.size (length p)
    then (let src = drop (length p - r.size) p in
        record r { buf = src ++ drop (length src) r.buf; pos = 0; full = true })
    else write_loop r p

-- `Snapshot`.
unfoldable pub snapshot : Ring → Text
snapshot r = if r.full then drop r.pos r.buf ++ take r.pos r.buf else take r.pos r.buf

-- A sequence of writes.
unfoldable pub write_all : Ring → List Text → Ring
write_all r [] = r
write_all r (p ∷ ps) = write_all (write r p) ps
