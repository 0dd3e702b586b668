-- ===== src/Event/Delivery.antt =====
-- internal/event/event.go, a subscriber's channel after a sequence of `Publish`.
use vibepod.Base.{
  ℕ, zero, suc, true, false, some, List, [], ◌∷◌, ◌++◌, append_assoc, append-nil, ◌≡◌, refl, sym,
  ap, ◌∙◌, inl, inr,
}
use vibepod.Base.{Text, ◌==◌, if◌then◌else◌, nat_eq, ltb, length, take, arith, Bool-cases}
use vibepod.Base.Dict.{Dict, lookup, lookup-insert_self}
use vibepod.Event.Defs.{
  Event, Bus, channel_room, stamp, send, send_all, publish, subscribe, publish_all,
}
use vibepod.Event.History.{stamped}

abbrev put : ℕ → List Event → Event → List Event
put room queue e = if ltb (length queue) room then queue ++ e ∷ [] else queue

take-nil : (r : ℕ) → take {A = Event} r [] ≡ []
take-nil zero = refl
take-nil (suc r) = refl

put-suc : (r : ℕ) (x : Event) (q : List Event) (e : Event) → put (suc r) (x ∷ q) e ≡ x ∷ put r q e
put-suc r x q e = elim (Bool-cases (ltb (length q) r)) [
  | inl y ↦
      ap (λ b. if b then x ∷ (q ++ e ∷ []) else x ∷ q) {y = true} (ground arith)
      ∙ ap (λ b. x ∷ (if b then q ++ e ∷ [] else q)) (sym y)
  | inr n ↦
      ap (λ b. if b then x ∷ (q ++ e ∷ []) else x ∷ q) {y = false} (ground arith)
      ∙ ap (λ b. x ∷ (if b then q ++ e ∷ [] else q)) (sym n)
]

put-take : (r : ℕ) (all : List Event) (e : Event) → put r (take r all) e ≡ take r (all ++ e ∷ [])
put-take zero all e = ground arith
put-take (suc r) [] e =
    ap (λ b. if b then e ∷ [] else []) {y = true} (ground arith)
    ∙ ap (λ es. e ∷ es) (sym (take-nil r))
put-take (suc r) (x ∷ all) e = put-suc r x (take r all) e ∙ ap (λ es. x ∷ es) (put-take r all e)

lookup-send_all :
    (id : ℕ) (subs : Dict ℕ (List Event)) (e : Event) (q : List Event)
    → lookup id subs ≡ some q
    → lookup id (send_all subs e) ≡ some (send q e)
unfolding lookup send_all
lookup-send_all id [] e q h = absurd (ground arith)
lookup-send_all id ((i, p) ∷ subs) e q h = elim (Bool-cases (i == id)) [
  | inl y ↦ let same : p ≡ q = ground arith in ground (arith, ap (λ x. some (send x e)) same)
  | inr n ↦ ground (arith, lookup-send_all id subs e q)
]

queue_from :
    (es : List (Text × Event)) (b : Bus) (id : ℕ) (all : List Event)
    → lookup id b.subs ≡ some (take channel_room all)
    → lookup id (publish_all b es).subs ≡ some (take channel_room (all ++ stamped es))
unfolding publish_all
queue_from [] b id all h = h ∙ ap (λ q. some (take channel_room q)) (sym (append-nil all))
queue_from ((now, e) ∷ es) b id all h =
    queue_from es (publish now b e) id (all ++ stamp now e ∷ []) (after_one h)
    ∙ ap (λ q. some (take channel_room q)) (append_assoc all (stamp now e ∷ []) (stamped es))
  where
    after_one :
        lookup id b.subs ≡ some (take channel_room all)
        → lookup id (publish now b e).subs ≡ some (take channel_room (all ++ stamp now e ∷ []))
    after_one h =
        unfold publish send in
        lookup-send_all id b.subs (stamp now e) (take channel_room all) h
        ∙ ap some (put-take channel_room all (stamp now e))

-- A subscriber that has taken nothing yet has in its channel the first events since it subscribed,
-- in order and as they were stamped: as many as the channel holds, and nothing from before. It stays
-- subscribed when its channel is full, and the events behind those are lost to it.
pub subscribe-publish_all :
    (b : Bus) (es : List (Text × Event))
    → lookup b.next (publish_all (subscribe b).1 es).subs ≡ some (take channel_room (stamped es))
subscribe-publish_all b es = queue_from es (subscribe b).1 b.next [] (
    unfold subscribe in lookup-insert_self b.next [] b.subs ∙ ap some (sym (take-nil channel_room)))
