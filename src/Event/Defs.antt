-- ===== src/Event/Defs.antt =====
-- internal/event/event.go. Each operation runs whole under the lock, but for the sends of `Publish`:
-- a channel is a bounded queue, and a send that would block drops the event.
use vibepod.Base.{ℕ, suc, ◌-◌, Option, List, [], ◌∷◌, ◌++◌}
use vibepod.Base.{Text, ◌==◌, if◌then◌else◌, text_eq, nat_eq, ltb, length, drop}
use vibepod.Base.Dict.{Dict, insert, erase}

-- `Event`, with the numbers that Go leaves out when they are zero; a nil `Code` is none.
pub record Event : Type 0 where
  pub v : ℕ
  pub kind : Text
  pub time : Text
  pub pod : Text
  pub pid : ℕ
  pub ppid : ℕ
  pub argv : List Text
  pub cwd : Text
  pub target : Text
  pub code : Option ℕ
  pub elapsed_ms : ℕ
  pub session : Text
  pub detail : Text

-- A subscriber's channel, by what is in its buffer.
pub record Bus : Type 0 where
  pub next : ℕ
  pub subs : Dict ℕ (List Event)
  pub recent : List Event
  pub max : ℕ

unfoldable pub new_bus : ℕ → Bus
new_bus history = record { next = 0; subs = []; recent = []; max = history }

abbrev pub version : ℕ
version = 1

-- The room in a channel made by `Subscribe`.
abbrev pub channel_room : ℕ
channel_room = 256

-- The stamp that `Publish` puts on; `now` is the time it is given where it has none.
unfoldable pub stamp : Text → Event → Event
stamp now e = record e { v = version; time = if e.time == [] then now else e.time }

-- The history, trimmed to the last `max`.
unfoldable pub remember : ℕ → List Event → Event → List Event
remember max recent e =
    let all = recent ++ e ∷ [] in if ltb max (length all) then drop (length all - max) all else all

-- A send that does not block.
unfoldable pub send : List Event → Event → List Event
send queue e = if ltb (length queue) channel_room then queue ++ e ∷ [] else queue

unfoldable pub send_all : Dict ℕ (List Event) → Event → Dict ℕ (List Event)
send_all [] e = []
send_all ((id, queue) ∷ subs) e = (id, send queue e) ∷ send_all subs e

-- `Publish`
unfoldable pub publish : Text → Bus → Event → Bus
publish now b e = record b {
  recent = remember b.max b.recent (stamp now e);
  subs = send_all b.subs (stamp now e);
}

-- `Subscribe`: the subscriber's number, by which it stops.
unfoldable pub subscribe : Bus → ℕ × Bus
subscribe b = (b.next, record b { next = suc b.next; subs = insert b.next [] b.subs })

unfoldable pub stop : Bus → ℕ → Bus
stop b id = record b { subs = erase id b.subs }

-- `History`
unfoldable pub history : Bus → List Event
history b = b.recent

-- A sequence of events, each with the time at which it is published.
unfoldable pub publish_all : Bus → List (Text × Event) → Bus
publish_all b [] = b
publish_all b ((now, e) ∷ es) = publish_all (publish now b e) es
