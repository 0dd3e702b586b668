-- ===== src/Tests/EventTests.antt =====
-- internal/event/event.go at concrete inputs.
use vibepod.Base.{Text, codes, nat_eq, some, none, [], List, ◌∷◌, ◌≡◌, take}
use vibepod.Base.Dict.{lookup}
use vibepod.Event.{
  Event, new_bus, channel_room, publish_all, history, subscribe, stamped, last_events,
  history-publish_all, subscribe-publish_all,
}

abbrev notice : Text → Event
notice detail = record {
  v = 0;
  kind = codes "notice";
  time = [];
  pod = codes "demo";
  pid = 0;
  ppid = 0;
  argv = [];
  cwd = [];
  target = [];
  code = none;
  elapsed_ms = 0;
  session = [];
  detail = detail;
}

abbrev three : List (Text × Event)
three =
    (codes "t1", notice (codes "a"))
    ∷ (codes "t2", notice (codes "b"))
    ∷ (codes "t3", notice (codes "c"))
    ∷ []

history-publish_all_example :
    history (publish_all (new_bus 2) three) ≡ last_events 2 (stamped three)
history-publish_all_example = history-publish_all 2 three

subscribe-publish_all_example :
    lookup (new_bus 2).next (publish_all (subscribe (new_bus 2)).1 three).subs
    ≡ some (take channel_room (stamped three))
subscribe-publish_all_example = subscribe-publish_all (new_bus 2) three
