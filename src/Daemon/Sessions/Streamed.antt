-- ===== src/Daemon/Sessions/Streamed.antt =====
-- internal/daemon/session.go: the stream of output to one terminal: what is on its way, what is read, and what
-- the terminal has got.
use vibepod.Base.{ℕ, Bool, true, false, ◌&&◌, Option, none, some, List, [], ◌∷◌, ◌++◌}
use vibepod.Base.{◌≡◌, refl, sym, ap, ◌∙◌, arith, inl, inr, Bool-cases}
use vibepod.Base.{append_assoc, append-nil}
use vibepod.Base.{Text, ◌==◌, ==_iff, if◌then◌else◌, nat_eq, text_eq}
use mathlib.Core.Path.{subst}
use vibepod.Base.Dict.{Dict, lookup}
use vibepod.Daemon.Sessions.Defs.{Shell, Client, LiveSession, Task, writing, each_client, is_none}
use vibepod.Daemon.Sessions.Steps.{
  Step, switch, proceed, read, pass, end_pump, join_client, leave, set_size, session_step,
}

-- The steps of pumps, whose writes to the terminal `k` succeed, and of the goroutine `t`.
abbrev pub IsStreaming : ℕ → ℕ → Step → Type 0
IsStreaming t k (switch u b) = ⊥
IsStreaming t k (proceed works u) = (u ≡ t) × (works ≡ true)
IsStreaming t k (read i chunk) = Unit
IsStreaming t k (pass works i) = works k ≡ true
IsStreaming t k (end_pump u i code) = ⊥
IsStreaming t k (join_client u j framed) = ⊥
IsStreaming t k (leave j) = ⊥
IsStreaming t k (set_size rows cols) = ⊥

-- What `pump` of the shell `i` has put into the ring and not yet handed on.
unfoldable pub or_nothing : Option Text → Text
or_nothing none = []
or_nothing (some chunk) = chunk

unfoldable pub under_way : ℕ → LiveSession → Text
unfolding or_nothing
under_way i w = or_nothing (lookup i w.chunks)

-- What the pump of the shell `i`, that runs or not, reads in a step and in several.
unfoldable pub chunk_read : ℕ → Bool → Step → LiveSession → List Text
unfolding is_none
chunk_read i running (switch u b) w = []
chunk_read i running (proceed works u) w = []
chunk_read i running (read j chunk) w =
    if j == i && (running && is_none (lookup i w.chunks)) then chunk ∷ [] else []
chunk_read i running (pass works j) w = []
chunk_read i running (end_pump u j code) w = []
chunk_read i running (join_client u j framed) w = []
chunk_read i running (leave j) w = []
chunk_read i running (set_size rows cols) w = []

unfoldable pub chunks_read : ℕ → Bool → List Step → LiveSession → List Text
unfolding chunk_read
chunks_read i running [] w = []
chunks_read i running (s ∷ steps) w =
    chunk_read i running s w ++ chunks_read i running steps (session_step s w)

unfoldable pub joined : List Text → Text
joined [] = []
joined (t ∷ ts) = t ++ joined ts

-- The goroutine of `attach`, before and after it has written `shown`; and what the terminal has got.
pub data Shows (k : ℕ) (text : Bool → Text) (shown before after : Text)
    : Option Task → Text → Type 0 where
  waits : after ≡ [] → Shows k text shown before after (some (writing (k ∷ []) text false)) before
  drew : Shows k text shown before after (some (writing [] text false)) (before ++ (shown ++ after))
  ended : Shows k text shown before after none (before ++ (shown ++ after))

-- The state of the stream to the terminal `k`: `all` is what was under way at `attach`, and what was read since.
pub record IsStreamed (i k t : ℕ) (framed : Bool) (text : Bool → Text) (sh : Shell) (all : Text)
    (w : LiveSession) : Type 0 where
  pub before : Text
  pub after : Text
  pub out : Text
  pub cur : w.sess.cur ≡ some i
  pub handle : lookup i w.sess.handles ≡ some sh
  pub client :
      lookup k w.sess.clients ≡ some (record { framed = framed; out = out; stopped = false })
  pub phase : Shows k text (text framed) before after (lookup t w.tasks) out
  pub kept : before ++ (after ++ under_way i w) ≡ all

pub lookup-each_client :
    (f : ℕ → Client → Client) (k : ℕ) (cs : Dict ℕ Client) (c : Client)
    → lookup k cs ≡ some c
    → lookup k (each_client f cs) ≡ some (f k c)
unfolding lookup each_client
lookup-each_client f k [] c e = cc
lookup-each_client f k ((j, d) ∷ cs) c e = elim (Bool-cases (j == k)) [
  | inl b ↦ rw b (subst (λ x. some (f x d) ≡ some (f k c)) (sym ((==_iff j k).0 b)) (ground arith))
  | inr b ↦ rw b (lookup-each_client f k cs c (ground arith))
]

-- A chunk more, wherever the goroutine of `attach` is.
pub Shows-append :
    {k : ℕ} {text : Bool → Text} {shown before after : Text} {o : Option Task} {out : Text}
    (chunk : Text)
    → Shows k text shown before after o out
    → (before' : Text) × (after' : Text) × Shows k text shown before' after' o (out ++ chunk)
      × (before' ++ (after' ++ []) ≡ before ++ (after ++ chunk))
Shows-append {before} {after} chunk (waits e) =
    (before ++ chunk, [], waits refl, rw e (append-nil (before ++ chunk)))
Shows-append {k} {text} {shown} {before} {after} chunk drew = (
  before,
  after ++ chunk,
  subst (Shows k text shown before (after ++ chunk) _)
      (sym (
        append_assoc before (shown ++ after) chunk
        ∙ ap (λ x. before ++ x) (append_assoc shown after chunk)))
      drew,
  ap (λ x. before ++ x) (append-nil (after ++ chunk)),
)
Shows-append {k} {text} {shown} {before} {after} chunk ended = (
  before,
  after ++ chunk,
  subst (Shows k text shown before (after ++ chunk) _)
      (sym (
        append_assoc before (shown ++ after) chunk
        ∙ ap (λ x. before ++ x) (append_assoc shown after chunk)))
      ended,
  ap (λ x. before ++ x) (append-nil (after ++ chunk)),
)
