-- ===== src/Tests/UiTests.antt =====
-- internal/ui/marks.go at concrete inputs.
use vibepod.Base.{◌≤◌, true, false, some, List, [], ◌∷◌, ◌++◌, ◌≡◌, refl, arith}
use vibepod.Base.{Text, codes, text_eq, nat_eq, length}
use vibepod.Strings.{has_prefix, trim_prefix, split, split_from, cut, cut_text, until_byte}
use vibepod.Ui.Marks.{
  Event, text, done, cwd_at, backend_is, max_osc, osc_end, more_body, uint_from, clamp, digits,
  atoi, done_code, parse_133, key_value, backend_fields, parse_home, parse_7717, parse_osc,
  osc_round, sequence_round, round, flush, after_round, feed_loop, Parser, fed, feed, copied, scan,
  spell, feed_loop_total, feed_bound, feed-scan, feed-feed,
}

abbrev start : Parser
start = record { pend = [] }

-- `ESC ] 133;D;2 ST`, with text around it.
abbrev output : Text
output = b'o' ∷ b'k' ∷ 0x1b ∷ (codes "]133;D;-12" ++ 0x1b ∷ b'\\' ∷ b'$' ∷ [])

feed_run :
    feed start output
    ≡ some (
      text (codes "ok") ∷ done (record { negative = true; magnitude = 12 }) ∷ text (codes "$") ∷ [],
      start,
    )
unfolding feed feed_loop fed round osc_round sequence_round flush after_round until_byte osc_end
    more_body parse_osc parse_133 done_code atoi clamp digits uint_from has_prefix trim_prefix split
    split_from text_eq nat_eq
feed_run = refl

backend_run :
    parse_osc (codes "7717;backend=gpu03;ended=aiot")
    ≡ some (backend_is (codes "gpu03") (codes "aiot"))
unfolding parse_osc parse_7717 backend_fields key_value cut has_prefix trim_prefix split split_from
    text_eq nat_eq
backend_run = refl

home_run : parse_osc (codes "7717;home=/h;cwd=/h/a;b") ≡ some (cwd_at (codes "/h") (codes "/h/a;b"))
unfolding parse_osc parse_7717 parse_home cut_text has_prefix trim_prefix text_eq nat_eq
home_run = refl

big_run :
    atoi (codes "99999999999999999999x")
    ≡ record { negative = false; magnitude = 9223372036854775807 }
unfolding atoi clamp digits uint_from nat_eq
big_run = refl

feed_loop_total_example :
    (x : List Event × Text) × (feed_loop (length output) output [] [] ≡ some x)
    × (feed_loop 40 output [] [] ≡ some x)
feed_loop_total_example = feed_loop_total 40 output [] [] (omega arith)

feed_bound_run :
    (evs : List Event) × (p' : Parser) × (feed start output ≡ some (evs, p'))
    × (length p'.pend ≤ max_osc)
feed_bound_run = feed_bound start output

feed-scan_example :
    (evs : List Event) × (feed start output
      ≡ some (evs, record { pend = (scan output copied 0).rest }))
    × (spell evs ≡ (scan output copied 0).items)
feed-scan_example = feed-scan start output

feed-feed_example :
    (first : List Event) × (second : List Event) × (both : List Event) × (p1 : Parser)
    × (p2 : Parser) × (feed start (b'o' ∷ 0x1b ∷ b']' ∷ []) ≡ some (first, p1))
    × (feed p1 (codes "133;A" ++ 0x07 ∷ []) ≡ some (second, p2))
    × (feed start ((b'o' ∷ 0x1b ∷ b']' ∷ []) ++ (codes "133;A" ++ 0x07 ∷ [])) ≡ some (both, p2))
    × (spell both ≡ spell first ++ spell second)
feed-feed_example =
    feed-feed start (b'o' ∷ 0x1b ∷ b']' ∷ []) (codes "133;A" ++ 0x07 ∷ [])
      (unfold max_osc in omega arith)
