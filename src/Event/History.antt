-- ===== src/Event/History.antt =====
-- internal/event/event.go, `History` after a sequence of `Publish`.
use vibepod.Base.{
  ℕ, zero, suc, ◌-◌, ◌+◌, true, false, List, [], ◌∷◌, ◌++◌, map, append_assoc, append-nil, ◌≡◌,
  refl, sym, ap, ◌∙◌,
}
use vibepod.Base.{
  Text, if◌then◌else◌, nat_eq, ltb, length, drop, arith, if_cases, length-append, length-drop,
  drop-append_le,
}
use vibepod.Event.Defs.{Event, Bus, new_bus, stamp, remember, publish, history, publish_all}

-- The last `n` events, or all of them.
abbrev pub last_events : ℕ → List Event → List Event
last_events n es = drop (length es - n) es

-- What was published, as it was stamped.
abbrev pub stamped : List (Text × Event) → List Event
stamped es = map (λ (now, e). stamp now e) es

drop-nil : (k : ℕ) → drop {A = Event} k [] ≡ []
drop-nil zero = refl
drop-nil (suc k) = refl

drop-drop : (n k : ℕ) (xs : List Event) → drop k (drop n xs) ≡ drop (n + k) xs
drop-drop zero k xs = ap (λ i. drop i xs) (omega arith)
drop-drop (suc n) k [] = drop-nil k ∙ sym (drop-nil (suc n + k))
drop-drop (suc n) k (x ∷ xs) =
    drop-drop n k xs ∙ sym (ap (λ i. drop i (x ∷ xs)) {y = suc (n + k)} (omega arith))

-- The history after one more event, from its last events on.
trimmed :
    (max d : ℕ) (all : List Event)
    → (ltb max (length (drop d all)) ≡ true → d + (length (drop d all) - max) ≡ length all - max)
    → (ltb max (length (drop d all)) ≡ false → d ≡ length all - max)
    → (if ltb max (length (drop d all))
        then drop (length (drop d all) - max) (drop d all)
        else drop d all)
      ≡ last_events max all
trimmed max d all long short =
    if_cases (λ es. es ≡ last_events max all) (ltb max (length (drop d all))) _ _
      (λ y. drop-drop d (length (drop d all) - max) all ∙ ap (λ i. drop i all) (long y))
      (λ n. ap (λ i. drop i all) (short n))

remember-last_events :
    (max : ℕ) (all : List Event) (e : Event)
    → remember max (last_events max all) e ≡ last_events max (all ++ e ∷ [])
remember-last_events max all e =
    let d = length all - max in
    let more = all ++ e ∷ [] in
    let joined : last_events max all ++ e ∷ [] ≡ drop d more =
      sym (drop-append_le d all (e ∷ []) (omega arith)) in
    let size : length more ≡ length all + 1 = length-append all (e ∷ []) in
    let left : length (drop d more) ≡ length more - d = length-drop d more in
    unfold remember in
    ap (λ es. if ltb max (length es) then drop (length es - max) es else es) joined
    ∙ trimmed max d more
        (λ y. long max (length all) (length more) (length (drop d more)) size left y)
        (λ n. short max (length all) (length more) (length (drop d more)) size left n)
  where
    long :
        (max a m l : ℕ)
        → m ≡ a + 1
        → l ≡ m - (a - max)
        → ltb max l ≡ true
        → (a - max) + (l - max) ≡ m - max
    long max a m l h k y = ground arith

    short : (max a m l : ℕ) → m ≡ a + 1 → l ≡ m - (a - max) → ltb max l ≡ false → a - max ≡ m - max
    short max a m l h k y = ground arith

history_from :
    (es : List (Text × Event)) (b : Bus) (all : List Event)
    → b.recent ≡ last_events b.max all
    → history (publish_all b es) ≡ last_events b.max (all ++ stamped es)
unfolding publish_all history
history_from [] b all h = h ∙ ap (last_events b.max) (sym (append-nil all))
history_from ((now, e) ∷ es) b all h =
    history_from es (publish now b e) (all ++ stamp now e ∷ []) (after_one h)
    ∙ unfold publish in ap (last_events b.max) (append_assoc all (stamp now e ∷ []) (stamped es))
  where
    after_one :
        b.recent ≡ last_events b.max all
        → (publish now b e).recent ≡ last_events (publish now b e).max (all ++ stamp now e ∷ [])
    after_one h =
        unfold publish in
        ap (λ r. remember b.max r (stamp now e)) h ∙ remember-last_events b.max all (stamp now e)

-- After any sequence of events on a new bus, `History` is the last `max` of them, in order and as they
-- were stamped, or all of them if they are fewer.
pub history-publish_all :
    (max : ℕ) (es : List (Text × Event))
    → history (publish_all (new_bus max) es) ≡ last_events max (stamped es)
unfolding new_bus
history-publish_all max es = history_from es (new_bus max) [] (sym (drop-nil (0 - max)))
