-- ===== src/Watch/Delivery.antt =====
-- engine/internal/fswatch/fswatch.go: which paths the batches hold.
use syncy.Base.{
  Bytes, true, false, List, [], ◌∷◌, ◌++◌, ◌==◌, nat_eq, list_eq, bytes_lt, sort, ◌≡◌, ◌⊎◌, refl,
  ap, ◌∙◌, append-nil, append_assoc, Bool, sym, inl, inr, Any, All, Any-append_left,
  Any-append_right, sort-Any, Bool-cases, eq_of_beq, if_elim,
}
use mathlib.Core.Path.{subst}
use syncy.Watch.{
  Watcher, Input, done, event, events_closed, errors_closed, watch_error, fired, error_taken,
  add_pending, flush, round, step, run,
}

-- A batch, or the pending paths, hold a path.
abbrev pub Holds : Bytes → List Bytes → Type 0
Holds p ps = Any (λ q. q ≡ p) ps

abbrev pub Sent : Bytes → Watcher → Type 0
Sent p w = Any (Holds p) w.sent

-- The input reports a path.
abbrev pub Reports : Bytes → Input → Type 0
Reports p (event name creates visits) = name ≡ p
Reports p done = ⊥
Reports p events_closed = ⊥
Reports p errors_closed = ⊥
Reports p (watch_error e) = ⊥
Reports p (fired accepted) = ⊥
Reports p error_taken = ⊥

-- The input does not end the loop.
abbrev pub Quiet : Input → Type 0
Quiet (event name creates visits) = Unit
Quiet done = ⊥
Quiet events_closed = ⊥
Quiet errors_closed = ⊥
Quiet (watch_error e) = Unit
Quiet (fired accepted) = accepted ≡ true
Quiet error_taken = Unit

-- The loop runs, and its timer does too while there are paths to send.
abbrev pub Runs : Watcher → Type 0
Runs w = (w.stopped ≡ false) × ((w.pending ≡ []) ⊎ (w.armed ≡ true))

add_pending-Holds : (p : Bytes) (ps : List Bytes) → Holds p (add_pending p ps)
unfolding add_pending
add_pending-Holds p [] = inl refl
add_pending-Holds p (q ∷ qs) = elim (Bool-cases (p == q)) [
  | inl same ↦ rw same (inl (sym (eq_of_beq p q same)))
  | inr other ↦ rw other (inr (add_pending-Holds p qs))
]

add_pending-keeps : (q p : Bytes) (ps : List Bytes) → Holds q ps → Holds q (add_pending p ps)
unfolding add_pending
add_pending-keeps q p [] h = elim h [ ]
add_pending-keeps q p (r ∷ rs) h = elim (Bool-cases (p == r)) [
  | inl same ↦ rw same h
  | inr other ↦ rw other (elim h [ inl e ↦ inl e | inr k ↦ inr (add_pending-keeps q p rs k) ])
]

-- A path that is pending or sent.
abbrev pub Kept : Bytes → Watcher → Type 0
Kept p w = Holds p w.pending ⊎ Sent p w

flush-Runs :
    (ps : List Bytes) (w : Watcher) → w.pending ≡ ps → w.stopped ≡ false → Runs (flush ps true w)
unfolding flush
flush-Runs [] w e h = (h, inl e)
flush-Runs (p ∷ ps) w e h = (h, inl refl)

-- What has been sent at `w` is the beginning of what has been sent at `w'`.
abbrev Grows : Watcher → Watcher → Type 0
Grows w w' = (more : List (List Bytes)) × (w'.sent ≡ w.sent ++ more)

-- The batches sent between `w` and `w'` hold the path.
abbrev pub NewlySent : Bytes → Watcher → Watcher → Type 0
NewlySent p w w' = (new : List (List Bytes)) × (w'.sent ≡ w.sent ++ new) × Any (Holds p) new

Grows-same : (w w' : Watcher) → w'.sent ≡ w.sent → Grows w w'
Grows-same w w' e = ([], e ∙ sym (append-nil w.sent))

Grows-NewlySent : (p : Bytes) (u v w : Watcher) → Grows u v → NewlySent p v w → NewlySent p u w
Grows-NewlySent p u v w (more, e) (new, e', h) = (
  more ++ new,
  e' ∙ ap (λ t. t ++ new) e ∙ append_assoc u.sent more new,
  Any-append_right (Holds p) more new h,
)

NewlySent-Grows : (p : Bytes) (u v w : Watcher) → NewlySent p u v → Grows v w → NewlySent p u w
NewlySent-Grows p u v w (new, e, h) (more, e') = (
  new ++ more,
  e' ∙ ap (λ t. t ++ more) e ∙ append_assoc u.sent new more,
  Any-append_left (Holds p) new more h,
)

flush-Grows : (ps : List Bytes) (accepted : Bool) (w : Watcher) → Grows w (flush ps accepted w)
unfolding flush
flush-Grows [] accepted w = Grows-same w (flush [] accepted w) refl
flush-Grows (p ∷ ps) true w = (sort bytes_lt (p ∷ ps) ∷ [], refl)
flush-Grows (p ∷ ps) false w = Grows-same w (flush (p ∷ ps) false w) refl

flush-NewlySent :
    (p : Bytes) (ps : List Bytes) (w : Watcher) → Holds p ps → NewlySent p w (flush ps true w)
unfolding flush
flush-NewlySent p [] w h = elim h [ ]
flush-NewlySent p (q ∷ qs) w h =
    (sort bytes_lt (q ∷ qs) ∷ [], refl, inl (sort-Any bytes_lt (λ r. r ≡ p) (q ∷ qs) h))

-- A loop that has not ended makes a round.
step-round :
    (P : Watcher → Type 0) (i : Input) (w : Watcher) → Runs w → P (round i w) → P (step i w)
unfolding step
step-round P i w r h = if_elim P w.stopped w (round i w) (λ off. absurd (cc (off, r.0))) (λ on. h)

round-Runs : (i : Input) (w : Watcher) → Quiet i → Runs w → Runs (round i w)
unfolding round
round-Runs (event name creates visits) w q (on, live) = (on, inr refl)
round-Runs done w q r = elim q [ ]
round-Runs events_closed w q r = elim q [ ]
round-Runs errors_closed w q r = elim q [ ]
round-Runs (watch_error e) w q r = r
round-Runs (fired accepted) w q r =
    if_elim Runs w.armed (flush w.pending accepted w) w
      (λ ticking. rw q (flush-Runs w.pending w refl r.0)) (λ idle. r)
round-Runs error_taken w q r = r

step-Runs : (i : Input) (w : Watcher) → Quiet i → Runs w → Runs (step i w)
step-Runs i w q r = step-round Runs i w r (round-Runs i w q r)

round-Grows : (i : Input) (w : Watcher) → Grows w (round i w)
unfolding round
round-Grows (fired accepted) w =
    if_elim (Grows w) w.armed (flush w.pending accepted w) w
      (λ ticking. flush-Grows w.pending accepted w) (λ idle. Grows-same w w refl)
round-Grows done w = Grows-same w (round done w) refl
round-Grows (event name creates visits) w = Grows-same w (round (event name creates visits) w) refl
round-Grows events_closed w = Grows-same w (round events_closed w) refl
round-Grows errors_closed w = Grows-same w (round errors_closed w) refl
round-Grows (watch_error e) w = Grows-same w (round (watch_error e) w) refl
round-Grows error_taken w = Grows-same w (round error_taken w) refl

step-Grows : (i : Input) (w : Watcher) → Runs w → Grows w (step i w)
step-Grows i w r = step-round (Grows w) i w r (round-Grows i w)

-- A pending path stays pending, or a batch with it is sent.
abbrev Moves : Bytes → Watcher → Watcher → Type 0
Moves p w w' = Holds p w'.pending ⊎ NewlySent p w w'

round-Moves :
    (p : Bytes) (i : Input) (w : Watcher) → Quiet i → Holds p w.pending → Moves p w (round i w)
unfolding round
round-Moves p (event name creates visits) w q k = inl (add_pending-keeps p name w.pending k)
round-Moves p done w q h = elim q [ ]
round-Moves p events_closed w q h = elim q [ ]
round-Moves p errors_closed w q h = elim q [ ]
round-Moves p (watch_error e) w q h = inl h
round-Moves p (fired accepted) w q h =
    if_elim (Moves p w) w.armed (flush w.pending accepted w) w
      (λ ticking. rw q (inr (flush-NewlySent p w.pending w h))) (λ idle. inl h)
round-Moves p error_taken w q h = inl h

step-Moves :
    (p : Bytes) (i : Input) (w : Watcher)
    → Quiet i
    → Runs w
    → Holds p w.pending
    → Moves p w (step i w)
step-Moves p i w q r h = step-round (Moves p w) i w r (round-Moves p i w q h)

round-Reports : (p : Bytes) (i : Input) (w : Watcher) → Reports p i → Holds p (round i w).pending
unfolding round
round-Reports p (event name creates visits) w e = rw e (add_pending-Holds p w.pending)
round-Reports p done w e = elim e [ ]
round-Reports p events_closed w e = elim e [ ]
round-Reports p errors_closed w e = elim e [ ]
round-Reports p (watch_error x) w e = elim e [ ]
round-Reports p (fired accepted) w e = elim e [ ]
round-Reports p error_taken w e = elim e [ ]

step-Reports :
    (p : Bytes) (i : Input) (w : Watcher) → Reports p i → Runs w → Holds p (step i w).pending
step-Reports p i w e r = step-round (λ v. Holds p v.pending) i w r (round-Reports p i w e)

idle-Holds : (p : Bytes) (w : Watcher) → Runs w → Holds p w.pending → w.armed ≡ false → ⊥
idle-Holds p w (on, inl empty) k idle = elim (subst (Holds p) empty k) [ ]
idle-Holds p w (on, inr ticking) k idle = absurd (cc (ticking, idle))

-- When the timer fires, what is pending is sent.
step-fired :
    (p : Bytes) (w : Watcher) → Runs w → Holds p w.pending → NewlySent p w (step (fired true) w)
unfolding round
step-fired p w r h = step-round (NewlySent p w) (fired true) w r (
    if_elim (NewlySent p w) w.armed (flush w.pending true w) w
      (λ ticking. flush-NewlySent p w.pending w h) (λ idle. absurd (idle-Holds p w r h idle)))

run-Grows :
    (is : List Input) (w : Watcher)
    → All Quiet is
    → Runs w
    → Grows w (run (is ++ fired true ∷ []) w)
unfolding run
run-Grows [] w quiet r = step-Grows (fired true) w r
run-Grows (i ∷ is) w (q, quiet) r =
    let (more, e) = step-Grows i w r in
    let (rest, e') = run-Grows is (step i w) quiet (step-Runs i w q r) in
    (more ++ rest, e' ∙ ap (λ t. t ++ rest) e ∙ append_assoc w.sent more rest)

run-pending :
    (p : Bytes) (is : List Input) (w : Watcher)
    → All Quiet is
    → Runs w
    → Holds p w.pending
    → NewlySent p w (run (is ++ fired true ∷ []) w)
unfolding run
run-pending p [] w quiet r h = step-fired p w r h
run-pending p (i ∷ is) w (q, quiet) r h =
    let next = step i w in
    let last = run (is ++ fired true ∷ []) next in
    let on = step-Runs i w q r in
    elim (step-Moves p i w q r h) [
      | inl still ↦
          Grows-NewlySent p w next last (step-Grows i w r) (run-pending p is next quiet on still)
      | inr sent ↦ NewlySent-Grows p w next last sent (run-Grows is next quiet on)
    ]

-- Every change reaches the reader: while the loop is not ended and each batch is received, a path
-- that one of the inputs reports stands in a batch that is sent behind the start of the inputs, by
-- the time the timer fires after them. Batches sent before the start do not count, and the start
-- may be any moment of a running loop whose timer is on if paths are pending: so a path that was
-- sent before is sent again when it changes again.
pub run-Sent :
    (p : Bytes) (is : List Input) (w : Watcher)
    → All Quiet is
    → Runs w
    → Any (Reports p) is
    → NewlySent p w (run (is ++ fired true ∷ []) w)
unfolding run
run-Sent p [] w quiet r h = elim h [ ]
run-Sent p (i ∷ is) w (q, quiet) r h =
    let next = step i w in
    let on = step-Runs i w q r in
    Grows-NewlySent p w next (run (is ++ fired true ∷ []) next) (step-Grows i w r) (elim h [
      | inl now ↦ run-pending p is next quiet on (step-Reports p i w now r)
      | inr later ↦ run-Sent p is next quiet on later
    ])
