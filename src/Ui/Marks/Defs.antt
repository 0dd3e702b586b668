-- ===== src/Ui/Marks/Defs.antt =====
-- internal/ui/marks.go: the events of a shell's output, and `Parser.Feed`.
use vibepod.Base.{
  ℕ, zero, suc, ◌+◌, ◌-◌, ◌*◌, ◌^◌, Bool, true, false, not, ◌&&◌, Option, none, some, List, [], ◌∷◌,
  ◌++◌,
}
use vibepod.Base.{Text, codes, ◌==◌, if◌then◌else◌, text_eq, nat_eq, ltb, leb, length, take, drop}
use vibepod.Strings.{has_prefix, trim_prefix, split, cut, cut_text, until_byte}

-- An `int`.
pub record Signed : Type 0 where
  pub negative : Bool
  pub magnitude : ℕ

-- `Event`: each `Kind` with the fields that it uses. `text` is `Text`.
pub data Event : Type 0 where
  text : Text → Event
  prompt input exec replayed : Event
  done : Signed → Event
  cwd_at : Text → Text → Event
  backend_is : Text → Text → Event
  fpath : Text → Event

-- `maxOSC`
unfoldable pub max_osc : ℕ
max_osc = 65536

-- `oscEnd`: the body before the terminator and the length with it; `none` where it has not come.
unfoldable pub more_body : ℕ → Option (Text × ℕ) → Option (Text × ℕ)
more_body c none = none
more_body c (some (body, n)) = some (c ∷ body, suc n)

unfoldable pub osc_end : Text → Option (Text × ℕ)
unfolding more_body
osc_end [] = none
osc_end (c ∷ []) = if c == 0x07 then some ([], 1) else none
osc_end (c ∷ d ∷ b) =
    let rest = more_body c (osc_end (d ∷ b)) in
    if c == 0x07 then some ([], 1) else if c == 0x1b && d == b'\\' then some ([], 2) else rest

-- The loop of `strconv.ParseUint` in base 10, for 64 bits; `none` is a syntax error.
unfoldable pub uint_from : ℕ → Text → Option ℕ
uint_from n [] = some n
uint_from n (c ∷ s) =
    let next = uint_from (n * 10 + (c - b'0')) s in
    if not (leb b'0' c && leb c b'9')
    then none
    else if ltb (n * 10 + (c - b'0')) (2 ^ 64)
    then next
    else some (2 ^ 64 - 1)

-- A magnitude that does not fit is the nearest that does.
unfoldable pub clamp : Bool → Option ℕ → Signed
clamp neg none = record { negative = false; magnitude = 0 }
clamp neg (some n) =
    if neg
    then record { negative = not (n == 0); magnitude = if ltb (2 ^ 63) n then 2 ^ 63 else n }
    else record { negative = false; magnitude = if ltb n (2 ^ 63) then n else 2 ^ 63 - 1 }

unfoldable pub digits : Text → Option ℕ
digits [] = none
digits (c ∷ s) = uint_from 0 (c ∷ s)

-- `strconv.Atoi`, whose error is dropped: the value is 0 at a syntax error.
unfoldable pub atoi : Text → Signed
unfolding clamp digits
atoi [] = clamp false none
atoi (c ∷ s) =
    if c == b'-'
    then clamp true (digits s)
    else if c == b'+'
    then clamp false (digits s)
    else clamp false (digits (c ∷ s))

-- The code of `133;D`.
unfoldable pub done_code : List Text → Event
done_code [] = done (record { negative = false; magnitude = 0 })
done_code (f ∷ fs) = done (atoi f)

unfoldable pub parse_133 : List Text → Option Event
unfolding done_code
parse_133 [] = none
parse_133 (f ∷ fs) =
    if f == codes "A"
    then some prompt
    else if f == codes "B"
    then some input
    else if f == codes "C"
    then some exec
    else if f == codes "D"
    then some (done_code fs)
    else none

-- `k, v, _ := strings.Cut(f, "=")`
unfoldable pub key_value : Text → Text × Text
key_value f = elim (cut f b'=') [ none ↦ (f, []) | some kv ↦ kv ]

-- The loop over the fields of `7717;backend=`.
unfoldable pub backend_fields : List Text → Text → Text → Event
unfolding key_value
backend_fields [] backend ended = backend_is backend ended
backend_fields (f ∷ fs) backend ended =
    let (k, v) = key_value f in
    backend_fields fs (if k == codes "backend" then v else backend)
      (if k == codes "ended" then v else ended)

unfoldable pub parse_home : Text → Event
parse_home rest = elim (cut_text rest (codes ";cwd=")) [
  | none ↦ cwd_at rest []
  | some (home, cwd) ↦ cwd_at home cwd
]

unfoldable pub parse_7717 : Text → Option Event
unfolding backend_fields parse_home
parse_7717 kv =
    if kv == codes "replayed"
    then some replayed
    else if has_prefix kv (codes "backend=")
    then some (backend_fields (split kv b';') [] [])
    else if has_prefix kv (codes "fpath=")
    then some (fpath (trim_prefix kv (codes "fpath=")))
    else if has_prefix kv (codes "home=")
    then some (parse_home (trim_prefix kv (codes "home=")))
    else none

-- `parseOSC`
unfoldable pub parse_osc : Text → Option Event
unfolding parse_133 parse_7717
parse_osc body =
    if has_prefix body (codes "133;")
    then parse_133 (split (trim_prefix body (codes "133;")) b';')
    else if has_prefix body (codes "7717;")
    then parse_7717 (trim_prefix body (codes "7717;"))
    else none

-- One round of the loop of `Feed`, on the text from the first escape on: it ends with what waits
-- for more, passes a part of the text on, or finds a mark.
pub data Round : Type 0 where
  wait : Text → Round
  pass : Text → Text → Round
  mark : Event → Text → Round

-- A terminated sequence is a mark, or text.
unfoldable pub sequence_round : Text → ℕ → Option Event → Round
sequence_round esc n none = pass (take (suc (suc n)) esc) (drop (suc (suc n)) esc)
sequence_round esc n (some ev) = mark ev (drop (suc (suc n)) esc)

unfoldable pub osc_round : Text → Option (Text × ℕ) → Round
unfolding sequence_round
osc_round esc none = if ltb max_osc (length esc) then pass (take 2 esc) (drop 2 esc) else wait esc
osc_round esc (some (body, n)) = sequence_round esc n (parse_osc body)

unfoldable pub round : Text → Round
unfolding osc_round
round [] = wait []
round (e ∷ []) = wait (e ∷ [])
round (e ∷ c ∷ s) =
    if not (c == b']') then pass (e ∷ c ∷ []) s else osc_round (e ∷ c ∷ s) (osc_end s)

-- `flush`
unfoldable pub flush : List Event → Text → List Event
flush out [] = out
flush out (c ∷ t) = out ++ text (c ∷ t) ∷ []

-- What a round leads to; `go` is the rest of the loop, `t` and `out` are the text and the events
-- so far.
unfoldable pub after_round :
    (Text → Text → List Event → Option (List Event × Text))
    → Text
    → List Event
    → Round
    → Option (List Event × Text)
unfolding flush
after_round go t out (wait p) = some (flush out t, p)
after_round go t out (pass chunk rest) = go rest (t ++ chunk) out
after_round go t out (mark ev rest) = go rest [] (flush out t ++ ev ∷ [])

-- The loop of `Feed`; `none` is fuel run out.
unfoldable pub feed_loop : ℕ → Text → Text → List Event → Option (List Event × Text)
unfolding flush after_round
feed_loop fuel [] t out = some (flush out t, [])
feed_loop zero (c ∷ s) t out = none
feed_loop (suc fuel) (c ∷ s) t out =
    let (pre, esc) = until_byte (c ∷ s) 0x1b in
    after_round (feed_loop fuel) (t ++ pre) out (round esc)

pub record Parser : Type 0 where
  pub pend : Text

unfoldable pub fed : Option (List Event × Text) → Option (List Event × Parser)
fed none = none
fed (some (evs, p)) = some (evs, record { pend = p })

-- `Feed`. Each round but the last takes a byte at least, so there are at most as many as bytes.
unfoldable pub feed : Parser → Text → Option (List Event × Parser)
unfolding feed_loop fed
feed p b = fed (feed_loop (length (p.pend ++ b)) (p.pend ++ b) [] [])
