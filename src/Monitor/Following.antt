-- ===== src/Monitor/Following.antt =====
-- engine/internal/monitor/monitor.go: a reader that makes every change it receives.
use syncy.Base.{
  Bytes, Bool, true, false, List, [], ◌∷◌, ◌++◌, ok, err, ◌≡◌, refl, ap, ◌∙◌, All, if_elim, sym,
  inl, inr, Bool-cases, list_eq, nat_eq,
}
use syncy.Base.Dict.{NodupKeys}
use syncy.Scanner.{Index}
use syncy.Scanner.Diff.{Change, diff}
use syncy.Scanner.Apply.{apply_all, hash_at, apply_all-diff_on}
use syncy.Monitor.{
  Monitor, Input, done, activity, events_closed, watch_error, error_taken, new_monitor, publish,
  round, step, run,
}

-- What a reader has who makes the changes of every list on an index.
unfoldable pub follow : List (List Change) → Index → Index
unfolding apply_all
follow [] idx = idx
follow (cs ∷ css) idx = follow css (apply_all cs idx)

follow-append :
    (css : List (List Change)) (cs : List Change) (idx : Index)
    → follow (css ++ cs ∷ []) idx ≡ apply_all cs (follow css idx)
unfolding follow
follow-append [] cs idx = refl
follow-append (ds ∷ css) cs idx = follow-append css cs (apply_all ds idx)

-- A scan holds a path once.
abbrev pub ScansOnce : Input → Type 0
ScansOnce done = Unit
ScansOnce (activity (ok idx) accepted) = NodupKeys idx
ScansOnce (activity (err e) accepted) = Unit
ScansOnce events_closed = Unit
ScansOnce watch_error = Unit
ScansOnce error_taken = Unit

module _ (start : Index) where
  -- While the loop runs, a reader that began with `start` holds the hashes of the last scan.
  abbrev pub InStep : Monitor → Type 0
  InStep m =
      NodupKeys m.baseline
      × (m.stopped ≡ false → (q : Bytes) → hash_at q (follow m.sent start) ≡ hash_at q m.baseline)

  publish-InStep :
      (accepted : Bool) (cs : List Change) (m : Monitor) (idx : Index)
      → NodupKeys idx
      → ((q : Bytes) → hash_at q (apply_all cs (follow m.sent start)) ≡ hash_at q idx)
      → InStep (publish accepted cs (record m { baseline = idx }))
  unfolding apply_all
  publish-InStep accepted [] m idx u h = (u, λ on. h)
  publish-InStep true (c ∷ cs) m idx u h =
      (u, λ on q. ap (hash_at q) (follow-append m.sent (c ∷ cs) start) ∙ h q)
  publish-InStep false (c ∷ cs) m idx u h = (u, λ on. absurd (cc on))

  round-InStep :
      (i : Input) (m : Monitor) → ScansOnce i → m.stopped ≡ false → InStep m → InStep (round i m)
  unfolding round
  round-InStep done m once on (u, h) = (u, λ k. absurd (cc k))
  round-InStep (activity (err e) accepted) m once on r = r
  round-InStep (activity (ok idx) accepted) m once on (u, h) =
      publish-InStep accepted (diff m.baseline idx) m idx once
        (λ q. apply_all-diff_on m.baseline idx q (follow m.sent start) u once (h on q))
  round-InStep events_closed m once on (u, h) = (u, λ k. absurd (cc k))
  round-InStep watch_error m once on r = r
  round-InStep error_taken m once on r = r

  step-InStep : (i : Input) (m : Monitor) → ScansOnce i → InStep m → InStep (step i m)
  unfolding step
  step-InStep i m once r =
      if_elim InStep m.stopped m (round i m) (λ off. r) (λ on. round-InStep i m once on r)

  run-InStep : (is : List Input) (m : Monitor) → All ScansOnce is → InStep m → InStep (run is m)
  unfolding run
  run-InStep [] m all r = r
  run-InStep (i ∷ is) m (once, all) r = run-InStep is (step i m) all (step-InStep i m once r)

-- The last scan among the inputs that succeeded, or else what came before them.
unfoldable pub last_scan : Index → List Input → Index
last_scan idx [] = idx
last_scan idx (activity (ok new) accepted ∷ is) = last_scan new is
last_scan idx (activity (err e) accepted ∷ is) = last_scan idx is
last_scan idx (done ∷ is) = last_scan idx is
last_scan idx (events_closed ∷ is) = last_scan idx is
last_scan idx (watch_error ∷ is) = last_scan idx is
last_scan idx (error_taken ∷ is) = last_scan idx is

publish-baseline :
    (accepted : Bool) (cs : List Change) (m : Monitor)
    → (publish accepted cs m).baseline ≡ m.baseline
publish-baseline accepted [] m = refl
publish-baseline true (c ∷ cs) m = refl
publish-baseline false (c ∷ cs) m = refl

round-last_scan :
    (i : Input) (is : List Input) (m : Monitor)
    → last_scan (round i m).baseline is ≡ last_scan m.baseline (i ∷ is)
unfolding round last_scan
round-last_scan done is m = refl
round-last_scan (activity (err e) accepted) is m = refl
round-last_scan (activity (ok idx) accepted) is m =
    ap (λ t. last_scan t is)
      (publish-baseline accepted (diff m.baseline idx) (record m { baseline = idx }))
round-last_scan events_closed is m = refl
round-last_scan watch_error is m = refl
round-last_scan error_taken is m = refl

-- A loop that has ended stays so.
run-stopped : (is : List Input) (m : Monitor) → m.stopped ≡ true → (run is m).stopped ≡ true
unfolding run step
run-stopped [] m off = off
run-stopped (i ∷ is) m off =
    if_elim (λ t. (run is t).stopped ≡ true) m.stopped m (round i m) (λ kept. run-stopped is m off)
      (λ on. absurd (cc (off, on)))

run-last_scan :
    (is : List Input) (m : Monitor)
    → (run is m).stopped ≡ false
    → (run is m).baseline ≡ last_scan m.baseline is
unfolding run step last_scan
run-last_scan [] m on = refl
run-last_scan (i ∷ is) m on = elim (Bool-cases m.stopped) [
  | inl off ↦ absurd (cc (run-stopped (i ∷ is) m off, on))
  | inr going ↦
      let next : step i m ≡ round i m = rw going in
      ap (λ t. (run is t).baseline) next
      ∙ run-last_scan is (round i m) (ap (λ t. (run is t).stopped) (sym next) ∙ on)
      ∙ round-last_scan i is m
]

-- A reader that makes every change it receives keeps up: from the first scan on and while the
-- loop runs, making the changes of the lists sent so far, in order, on the first index gives the
-- paths and hashes of the last scan among the inputs that succeeded, or of the first index where
-- none has. The scans hold each path once.
pub run-follows :
    (start : Index) (is : List Input)
    → NodupKeys start
    → All ScansOnce is
    → (run is (new_monitor start)).stopped ≡ false
    → (q : Bytes)
    → hash_at q (follow (run is (new_monitor start)).sent start) ≡ hash_at q (last_scan start is)
unfolding follow
run-follows start is u all on q =
    (run-InStep start is (new_monitor start) all (u, λ on q. refl)).1 on q
    ∙ ap (hash_at q) (run-last_scan is (new_monitor start) on)
