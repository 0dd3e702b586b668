-- ===== src/Filepath/Laws.antt =====
-- The laws of the functions on paths.
use mathlib.Core.List.{reverse}
use vibepod.Base.{◌≡◌, refl, codes, text_eq, nat_eq}
use vibepod.Filepath.Defs.{clean, join_path}

clean_tests :
    (clean (codes "/a//b/./c/../d/") ≡ codes "/a/b/d")
    × (clean (codes "") ≡ codes ".")
    × (clean (codes "../../x") ≡ codes "../../x")
    × (clean (codes "/..") ≡ codes "/")
    × (join_path (codes "/home/u") (codes "/x") ≡ codes "/home/u/x")
unfolding clean join_path reverse text_eq nat_eq
clean_tests = (refl, refl, refl, refl, refl)
