-- ===== src/Watch/Origin.antt =====
-- engine/internal/fswatch/fswatch.go: where the paths of a batch come from.
use syncy.Base.{
  Bytes, Bool, true, false, List, [], ◌∷◌, ◌==◌, nat_eq, list_eq, bytes_lt, sort, ◌≡◌, ◌⊎◌, refl,
  inl, inr, Any, if_elim, Any-append_or, sort-Any_back,
}
use mathlib.Core.Path.{subst}
use syncy.Watch.{
  Watcher, Input, done, event, events_closed, errors_closed, watch_error, fired, error_taken,
  add_pending, flush, round, step, run,
}
use syncy.Watch.Delivery.{Holds, Sent, Reports, Kept}

add_pending-from :
    (q p : Bytes) (ps : List Bytes) → Holds q (add_pending p ps) → Holds q ps ⊎ (p ≡ q)
unfolding add_pending
add_pending-from q p [] h = elim h [ inl e ↦ inr e | inr k ↦ elim k [ ] ]
add_pending-from q p (r ∷ rs) h =
    if_elim (λ l. Holds q l → Holds q (r ∷ rs) ⊎ (p ≡ q)) (p == r) (r ∷ rs) (r ∷ add_pending p rs)
      (λ same k. inl k)
      (λ other k. elim k [
        | inl e ↦ inl (inl e)
        | inr l ↦ elim (add_pending-from q p rs l) [ inl m ↦ inl (inr m) | inr e ↦ inr e ]
      ])
      h

flush-from :
    (p : Bytes) (ps : List Bytes) (accepted : Bool) (w : Watcher)
    → w.pending ≡ ps
    → Kept p (flush ps accepted w)
    → Holds p ps ⊎ Sent p w
unfolding flush
flush-from p [] accepted w e (inl k) = inl (subst (Holds p) e k)
flush-from p [] accepted w e (inr k) = inr k
flush-from p (q ∷ qs) true w e (inl k) = elim k [ ]
flush-from p (q ∷ qs) true w e (inr k) =
    elim (Any-append_or (Holds p) w.sent (sort bytes_lt (q ∷ qs) ∷ []) k) [
      | inl before ↦ inr before
      | inr (inl now) ↦ inl (sort-Any_back bytes_lt (λ r. r ≡ p) (q ∷ qs) now)
      | inr (inr never) ↦ elim never [ ]
    ]
flush-from p (q ∷ qs) false w e (inl k) = elim k [ ]
flush-from p (q ∷ qs) false w e (inr k) = inr k

-- What one round can add to the kept paths.
abbrev From : Bytes → Input → Watcher → Type 0
From p i w = Kept p w ⊎ Reports p i

round-From : (p : Bytes) (i : Input) (w : Watcher) → Kept p (round i w) → From p i w
unfolding round
round-From p (event name creates visits) w (inl k) = elim (add_pending-from p name w.pending k) [
  | inl m ↦ inl (inl m)
  | inr e ↦ inr e
]
round-From p (event name creates visits) w (inr k) = inl (inr k)
round-From p done w h = inl h
round-From p events_closed w h = inl h
round-From p errors_closed w h = inl h
round-From p (watch_error e) w h = inl h
round-From p (fired accepted) w h =
    if_elim (λ v. Kept p v → From p (fired accepted) w) w.armed (flush w.pending accepted w) w
      (λ ticking k. inl (flush-from p w.pending accepted w refl k)) (λ idle k. inl k) h
round-From p error_taken w h = inl h

step-From : (p : Bytes) (i : Input) (w : Watcher) → Kept p (step i w) → From p i w
unfolding step
step-From p i w h =
    if_elim (λ v. Kept p v → From p i w) w.stopped w (round i w) (λ off k. inl k)
      (λ on. round-From p i w) h

-- No path is made up: one that a run has pending or has sent was pending or sent before it, or an
-- event of the run reports it.
pub run-from :
    (p : Bytes) (is : List Input) (w : Watcher) → Kept p (run is w) → Kept p w ⊎ Any (Reports p) is
unfolding run
run-from p [] w h = inl h
run-from p (i ∷ is) w h = elim (run-from p is (step i w) h) [
  | inl k ↦ elim (step-From p i w k) [ inl m ↦ inl m | inr e ↦ inr (inl e) ]
  | inr later ↦ inr (inr later)
]
