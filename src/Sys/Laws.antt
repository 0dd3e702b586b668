-- ===== src/Sys/Laws.antt =====
-- internal/sys/mountflags.go: which line of mountinfo `currentFlags` reads.
use vibepod.Base.{ℕ, true, false, Option, none, some, List, ◌∷◌, ◌++◌, ◌≤◌, ◌<◌}
use vibepod.Base.{◌≡◌, ◌⊎◌, All}
use vibepod.Base.{Text, text_eq, nat_eq, length}
use vibepod.Strings.Space.{fields}
use vibepod.Sys.Defs.{options_flags, point_opts, covers, Found}

-- A bound on the mount points, of the lines that cover a path.
abbrev pub IsNoLonger : Text → ℕ → Option (Text × Text) → Type 0
IsNoLonger abs n none = Unit
IsNoLonger abs n (some (point, opts)) = covers abs point ≡ true → length point ≤ n

abbrev pub IsShorter : Text → ℕ → Option (Text × Text) → Type 0
IsShorter abs n none = Unit
IsShorter abs n (some (point, opts)) = covers abs point ≡ true → length point < n

abbrev pub IsElsewhere : Text → Option (Text × Text) → Type 0
IsElsewhere abs none = Unit
IsElsewhere abs (some (point, opts)) = covers abs point ≡ false

-- The flags are those of the last among the lines with the longest mount point that covers the path,
-- and 0 where no line does.
abbrev pub InForce : Text → List Text → ℕ → Type 0
InForce abs lines flags =
    (All (λ l. IsElsewhere abs (point_opts (fields l))) lines × (flags ≡ 0))
    ⊎ ((before : List Text) × (line : Text) × (after : List Text) × (point : Text) × (opts : Text)
        × (lines ≡ before ++ (line ∷ after))
        × (point_opts (fields line) ≡ some (point, opts))
        × (covers abs point ≡ true)
        × (flags ≡ options_flags opts)
        × All (λ l. IsNoLonger abs (length point) (point_opts (fields l))) before
        × All (λ l. IsShorter abs (length point) (point_opts (fields l))) after)

-- What a run of the loop leaves, by the line that it took last.
abbrev Scanned : Text → List Text → Found → Found → Type 0
Scanned abs lines f r =
    ((r ≡ f) × All (λ l. IsShorter abs (length f.best) (point_opts (fields l))) lines)
    ⊎ ((before : List Text) × (line : Text) × (after : List Text) × (point : Text) × (opts : Text)
        × (lines ≡ before ++ (line ∷ after))
        × (point_opts (fields line) ≡ some (point, opts))
        × (covers abs point ≡ true)
        × (r.flags ≡ options_flags opts)
        × (length f.best ≤ length point)
        × All (λ l. IsNoLonger abs (length point) (point_opts (fields l))) before
        × All (λ l. IsShorter abs (length point) (point_opts (fields l))) after)

-- What one line does.
abbrev Seen : Text → Option (Text × Text) → Found → Found → Type 0
Seen abs o f r =
    ((r ≡ f) × IsShorter abs (length f.best) o)
    ⊎ ((point : Text) × (opts : Text) × (o ≡ some (point, opts))
        × (covers abs point ≡ true)
        × (length f.best ≤ length point)
        × (r ≡ record { best = point; flags = options_flags opts }))
