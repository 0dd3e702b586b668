-- ===== src/Ring/Refine.antt =====
-- A sequence of writes to a ring of internal/term/ring.go, and its snapshot.
use vibepod.Base.{ℕ, suc, ◌+◌, ◌-◌, ◌≤◌, ◌<◌, ◌≡◌, refl, sym, ap, ◌∙◌, ◌⊎◌, inl, inr}
use vibepod.Base.{true, false, List, [], ◌∷◌, ◌++◌, append_assoc, append-nil, Text}
use vibepod.Base.{nat_eq, length, drop, length-append, length-drop, arith}
use vibepod.Base.{drop-append_ge, Bool-cases}
use mathlib.Core.List.{flatten}
use mathlib.Core.Path.{subst}
use vibepod.Base.{◌≢◌}
use vibepod.Ring.Defs.{Ring, new_ring, write_byte, write_loop, write, snapshot, set}
use vibepod.Ring.Defs.{write_all}
use vibepod.Ring.Window.{
  last, set-append_self, Holds, new_ring-Holds, last_of_short, snapshot-Holds, last_snoc,
  length-set,
}

-- The parts of `Holds` over the cell that is about to be written.
module _ (r : Ring) (all : Text) (b : ℕ) (front back : Text) (x : ℕ)
    (buffer : r.buf ≡ front ++ x ∷ back) (at : length front ≡ r.pos) (sized : length r.buf ≡ r.size)
    (wrapped : r.full ≡ true → (last r.size all ≡ x ∷ back ++ front) × (r.size ≤ length all))
    (partial : r.full ≡ false → all ≡ front) where
  written : set r.buf r.pos b ≡ front ++ b ∷ back
  written =
      ap (λ t. set t r.pos b) buffer
      ∙ ap (λ k. set (front ++ x ∷ back) k b) (sym at)
      ∙ set-append_self front x b back

  total : length front + suc (length back) ≡ r.size
  total = omega (arith, ap length buffer, length-append front (x ∷ back))

  turned :
      back ≡ []
      → (last r.size (all ++ b ∷ []) ≡ front ++ b ∷ []) × (r.size ≤ length (all ++ b ∷ []))
  turned e = elim (Bool-cases r.full) [
    | inl f ↦
        let (l, le) = wrapped f in
        (
          last_snoc r.size all x b front le (l ∙ ap (λ t. x ∷ t ++ front) e),
          omega (arith, length-append all (b ∷ [])),
        )
    | inr f ↦
        let short : length (all ++ b ∷ []) ≡ r.size =
          omega (arith, length-append all (b ∷ []), total, ap length (partial f), ap length e) in
        (
          last_of_short r.size (all ++ b ∷ []) (omega arith) ∙ ap (λ t. t ++ b ∷ []) (partial f),
          omega arith,
        )
  ]

  moved :
      r.full ≡ true
      → (last r.size (all ++ b ∷ []) ≡ back ++ (front ++ b ∷ []))
        × (r.size ≤ length (all ++ b ∷ []))
  moved f =
      let (l, le) = wrapped f in
      (
        last_snoc r.size all x b (back ++ front) le l ∙ append_assoc back front (b ∷ []),
        omega (arith, length-append all (b ∷ [])),
      )

  end_of_buffer : r.pos + 1 ≡ r.size → back ≡ []
  end_of_buffer e = empty back (omega (arith, total))
    where
      empty : (t : Text) → length t ≡ 0 → t ≡ []
      empty [] z = refl
      empty (y ∷ t) z = absurd (omega arith)

  stored_last :
      r.pos + 1 ≡ r.size
      → Holds (record r { buf = set r.buf r.pos b; pos = 0; full = true }) (all ++ b ∷ [])
  stored_last e = record {
    front = [];
    back = front ++ b ∷ [];
    buffer = written ∙ ap (λ t. front ++ b ∷ t) (end_of_buffer e);
    at = refl;
    sized = length-set r.buf r.pos b ∙ sized;
    room = inl (omega arith);
    wrapped = λ f. (
      (turned (end_of_buffer e)).0 ∙ sym (append-nil (front ++ b ∷ [])),
      (turned (end_of_buffer e)).1,
    );
    partial = λ f. absurd (cc);
  }

  stored_inside :
      r.pos + 1 < r.size
      → Holds (record r { buf = set r.buf r.pos b; pos = r.pos + 1 }) (all ++ b ∷ [])
  stored_inside lt = record {
    front = front ++ b ∷ [];
    back = back;
    buffer = written ∙ sym (append_assoc front (b ∷ []) back);
    at = omega (arith, length-append front (b ∷ []));
    sized = length-set r.buf r.pos b ∙ sized;
    room = inl lt;
    wrapped = moved;
    partial = λ f. ap (λ t. t ++ b ∷ []) (partial f);
  }

write_byte_step :
    (r : Ring) (b : ℕ)
    → ((r.pos + 1 ≡ r.size)
        × (write_byte r b ≡ record r { buf = set r.buf r.pos b; pos = 0; full = true }))
      ⊎ ((r.pos + 1 ≢ r.size)
          × (write_byte r b ≡ record r { buf = set r.buf r.pos b; pos = r.pos + 1 }))
unfolding write_byte
write_byte_step r b = ground arith

write_byte-Holds :
    {r : Ring} {all : Text} (b : ℕ)
    → r.pos < r.size
    → Holds r all
    → Holds (write_byte r b) (all ++ b ∷ [])
write_byte-Holds {r} {all} b room h = go h.back refl
  where
    go : (t : Text) → h.back ≡ t → Holds (write_byte r b) (all ++ b ∷ [])
    go [] e = absurd (
        omega (arith, ap length h.buffer, ap length e, h.at, h.sized, length-append h.front h.back))
    go (x ∷ back) e =
        let buffer : r.buf ≡ h.front ++ x ∷ back = h.buffer ∙ ap (λ t. h.front ++ t) e in
        let wrapped : r.full ≡ true
            → (last r.size all ≡ x ∷ back ++ h.front) × (r.size ≤ length all) =
          λ f. ((h.wrapped f).0 ∙ ap (λ t. t ++ h.front) e, (h.wrapped f).1) in
        elim (write_byte_step r b) [
          | inl (last_cell, w) ↦
              rw w
                (stored_last r all b h.front back x buffer h.at h.sized wrapped h.partial last_cell)
          | inr (inside, w) ↦ rw w (
              stored_inside r all b h.front back x buffer h.at h.sized wrapped h.partial
                (omega arith))
        ]

size-write_byte : (r : Ring) (b : ℕ) → (write_byte r b).size ≡ r.size
unfolding write_byte
size-write_byte r b = ground arith

write_loop-Holds :
    (p : Text) {r : Ring} {all : Text}
    → r.size ≢ 0
    → Holds r all
    → Holds (write_loop r p) (all ++ p)
unfolding write_loop
write_loop-Holds [] {r} {all} ne h = subst (Holds r) (sym (append-nil all)) h
write_loop-Holds (b ∷ p) {r} {all} ne h =
    subst (Holds (write_loop (write_byte r b) p)) (append_assoc all (b ∷ []) p) (
      write_loop-Holds p {r = write_byte r b} {all = all ++ b ∷ []} (rw size-write_byte ne)
        (write_byte-Holds b (inside h.room) h))
  where
    inside : (r.pos < r.size) ⊎ (r.size ≡ 0) → r.pos < r.size
    inside (inl lt) = lt
    inside (inr e) = absurd (ne e)

nil_of_length : (t : Text) → length t ≡ 0 → t ≡ []
nil_of_length [] z = refl
nil_of_length (y ∷ t) z = absurd (omega arith)

-- What a write at least as long as the ring leaves.
abbrev filled : Ring → Text → Ring
filled r p =
    let src = drop (length p - r.size) p in
    record r { buf = src ++ drop (length src) r.buf; pos = 0; full = true }

write_step :
    (r : Ring) (p : Text)
    → ((r.size ≤ length p) × (write r p ≡ filled r p))
      ⊎ ((length p < r.size) × (write r p ≡ write_loop r p))
unfolding write
write_step r p = ground arith

filled-Holds :
    {r : Ring} {all : Text} (p : Text)
    → r.size ≤ length p
    → Holds r all
    → Holds (filled r p) (all ++ p)
filled-Holds {r} {all} p le h = record {
  front = [];
  back = src ++ drop (length src) r.buf;
  buffer = refl;
  at = refl;
  sized = omega (
    arith,
    full_length,
    length-append src (drop (length src) r.buf),
    length-drop (length src) r.buf,
    h.sized,
  );
  room = grind arith;
  wrapped = λ f. (tail_of_all, omega (arith, length-append all p));
  partial = λ f. absurd (cc);
}
  where
    src : Text
    src = drop (length p - r.size) p

    full_length : length src ≡ r.size
    full_length = omega (arith, length-drop (length p - r.size) p)

    rest : drop (length src) r.buf ≡ []
    rest =
        nil_of_length (drop (length src) r.buf)
          (omega (arith, length-drop (length src) r.buf, h.sized, full_length))

    tail_of_all : last r.size (all ++ p) ≡ (src ++ drop (length src) r.buf) ++ []
    tail_of_all =
        drop-append_ge (length (all ++ p) - r.size) all p (omega (arith, length-append all p))
        ∙ ap (λ k. drop k p) {y = length p - r.size} (omega (arith, length-append all p))
        ∙ sym (append-nil src)
        ∙ sym (append-nil (src ++ []))
        ∙ ap (λ t. (src ++ t) ++ []) (sym rest)

-- A write keeps the ring showing what was written.
pub write-Holds : (p : Text) {r : Ring} {all : Text} → Holds r all → Holds (write r p) (all ++ p)
write-Holds p {r} {all} h = elim (write_step r p) [
  | inl (le, e) ↦ rw e (filled-Holds p le h)
  | inr (lt, e) ↦ rw e (write_loop-Holds p (omega arith) h)
]

size-write_loop : (p : Text) (r : Ring) → (write_loop r p).size ≡ r.size
unfolding write_loop
size-write_loop [] r = refl
size-write_loop (b ∷ p) r = size-write_loop p (write_byte r b) ∙ size-write_byte r b

size-write : (r : Ring) (p : Text) → (write r p).size ≡ r.size
size-write r p = elim (write_step r p) [
  | inl (le, e) ↦ rw e
  | inr (lt, e) ↦ rw e (size-write_loop p r)
]

write_all-Holds :
    (ps : List Text) {r : Ring} {all : Text}
    → Holds r all
    → Holds (write_all r ps) (all ++ flatten ps) × ((write_all r ps).size ≡ r.size)
unfolding write_all flatten
write_all-Holds [] {r} {all} h = (subst (Holds r) (sym (append-nil all)) h, refl)
write_all-Holds (p ∷ ps) {r} {all} h =
    let (k, e) = write_all-Holds ps {r = write r p} {all = all ++ p} (write-Holds p h) in
    (
      subst (Holds (write_all (write r p) ps)) (append_assoc all p (flatten ps)) k,
      e ∙ size-write r p,
    )

-- After any sequence of writes to a new ring of `size` bytes, `Snapshot` is the last `size` bytes
-- of all that was written, in order, or all of it if it is shorter.
pub snapshot-write_all :
    (size : ℕ) (ps : List Text) → snapshot (write_all (new_ring size) ps) ≡ last size (flatten ps)
snapshot-write_all size ps =
    let (h, e) = write_all-Holds ps (new_ring-Holds size) in
    snapshot-Holds h ∙ ap (λ n. last n (flatten ps)) (e ∙ size-new size)
  where
    size-new : (n : ℕ) → (new_ring n).size ≡ n
    size-new n = unfold new_ring in refl
