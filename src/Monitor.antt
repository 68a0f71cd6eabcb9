-- ===== src/Monitor.antt =====
-- engine/internal/monitor/monitor.go: the loop that turns file activity into lists of changes. An
-- `Input` is what one round of its `select` receives, with what the scan and the other end answer.
pub mod Following
use syncy.Base.{
  Bool, true, false, List, [], ◌∷◌, ◌++◌, if◌then◌else◌, Option, none, some, Result, ok, err,
}
use syncy.Scanner.{Index, ScanError}
use syncy.Scanner.Diff.{Change, diff}

pub data MonitorError : Type 0 where
  scanning : ScanError → MonitorError
  watching : MonitorError

pub record Monitor : Type 0 where
  pub baseline : Index
  -- the lists sent on `changes`, the first one first
  pub sent : List (List Change)
  -- the buffer of the channel `errs`
  pub errs : Option MonitorError
  -- `run` has returned
  pub stopped : Bool

pub data Input : Type 0 where
  -- `done` is closed
  done : Input
  -- the watcher sends a batch: what the scan then gives, and whether the changes are received
  -- before `done` is closed
  activity : Result ScanError Index → Bool → Input
  -- the watcher's batches end
  events_closed : Input
  watch_error : Input
  -- the other end takes an error
  error_taken : Input

-- `New`, behind its scan.
abbrev pub new_monitor : Index → Monitor
new_monitor idx = record { baseline = idx; sent = []; errs = none; stopped = false }

-- `emitErr`: an error is dropped when the buffer is full.
abbrev pub emit_err : MonitorError → Option MonitorError → Option MonitorError
emit_err e none = some e
emit_err e (some old) = some old

-- The send of the changes, where there are any.
abbrev pub publish : Bool → List Change → Monitor → Monitor
publish accepted [] m = m
publish true (c ∷ cs) m = record m { sent = m.sent ++ (c ∷ cs) ∷ [] }
publish false (c ∷ cs) m = record m { stopped = true }

unfoldable pub round : Input → Monitor → Monitor
round done m = record m { stopped = true }
round (activity (err e) accepted) m = record m { errs = emit_err (scanning e) m.errs }
round (activity (ok idx) accepted) m =
    publish accepted (diff m.baseline idx) (record m { baseline = idx })
round events_closed m = record m { stopped = true }
round watch_error m = record m { errs = emit_err watching m.errs }
round error_taken m = record m { errs = none }

unfoldable pub step : Input → Monitor → Monitor
unfolding round
step i m = if m.stopped then m else round i m

unfoldable pub run : List Input → Monitor → Monitor
unfolding step
run [] m = m
run (i ∷ is) m = run is (step i m)
