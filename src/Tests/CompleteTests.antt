-- ===== src/Tests/CompleteTests.antt =====
-- internal/complete/complete.go, `Parse`, at a concrete output.
use vibepod.Base.{[], ◌∷◌, ◌++◌, ◌≡◌, refl, Text, codes, text_eq, nat_eq, Pairwise, ◌≢◌}
use vibepod.Strings.{split}
use vibepod.Complete.{
  trim_right, is_blank, candidate, add_candidate, parse_line, parse_lines, parse, offers, firsts,
  parse-firsts,
}

abbrev lf : Text
lf = 0x0a ∷ []

abbrev output : Text
output =
    codes "ls -- list files "
    ++ (lf ++ (codes "  " ++ (lf ++ (codes "echo " ++ (lf ++ codes "ls -- again")))))

parse_example :
    parse output
    ≡ record { word = codes "ls"; desc = codes "list files" }
      ∷ record { word = codes "echo"; desc = [] }
      ∷ []
unfolding parse parse_lines parse_line add_candidate candidate trim_right is_blank split text_eq
    nat_eq
parse_example = refl

parse-firsts_example :
    (parse output ≡ firsts (offers (split output 0x0a)))
    × Pairwise (λ c d. c.word ≢ d.word) (parse output)
parse-firsts_example = parse-firsts output
