-- ===== src/Filepath/Defs.antt =====
-- What the program uses of Go's package path/filepath, on Unix: a path's components, one at a time.
use mathlib.Core.List.{reverse}
use vibepod.Base.{Bool, true, false, List, [], ◌∷◌, ◌++◌, Text, ◌==◌}
use vibepod.Base.{if◌then◌else◌, text_eq}
use vibepod.Strings.{has_prefix, split, join}

abbrev pub slash : Text
slash = b'/' ∷ []

abbrev pub dot : Text
dot = b'.' ∷ []

abbrev pub dotdot : Text
dotdot = b'.' ∷ b'.' ∷ []

unfoldable pub is_abs : Text → Bool
unfolding has_prefix
is_abs p = has_prefix p slash

-- One component onto the stack of those kept, the last one first: an empty one and `.` vanish,
-- `..` takes the one before it away, stays at the front of a relative path, and is dropped at `/`.
unfoldable pub clean_step : Bool → List Text → Text → List Text
clean_step rooted [] c =
    if c == []
    then []
    else if c == dot
    then []
    else if c == dotdot
    then (if rooted then [] else dotdot ∷ [])
    else c ∷ []
clean_step rooted (t ∷ out) c =
    if c == []
    then t ∷ out
    else if c == dot
    then t ∷ out
    else if c == dotdot
    then (if t == dotdot then dotdot ∷ t ∷ out else out)
    else c ∷ t ∷ out

unfoldable pub clean_loop : Bool → List Text → List Text → List Text
unfolding clean_step
clean_loop rooted out [] = out
clean_loop rooted out (c ∷ cs) = clean_loop rooted (clean_step rooted out c) cs

-- The components that `Clean` keeps, first one first.
unfoldable pub parts : Text → List Text
unfolding clean_loop split is_abs
parts p = reverse (clean_loop (is_abs p) [] (split p b'/'))

-- A path from its components.
unfoldable pub render : Bool → List Text → Text
unfolding join
render true [] = slash
render false [] = dot
render true (c ∷ cs) = slash ++ join (c ∷ cs) slash
render false (c ∷ cs) = join (c ∷ cs) slash

-- `filepath.Clean`.
unfoldable pub clean : Text → Text
unfolding parts render is_abs
clean p = render (is_abs p) (parts p)

-- `filepath.Join(a, b)`: an empty element is left out.
unfoldable pub join_path : Text → Text → Text
unfolding clean
join_path [] [] = []
join_path [] (c ∷ b) = clean (c ∷ b)
join_path (c ∷ a) [] = clean (c ∷ a)
join_path (c ∷ a) (d ∷ b) = clean ((c ∷ a) ++ slash ++ (d ∷ b))
