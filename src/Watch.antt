-- ===== src/Watch.antt =====
-- engine/internal/fswatch/fswatch.go: the loop of the watcher, which gathers changed paths and
-- sends them in batches. An `Input` is what one round of its `select` receives, with what the
-- file system and the other end of a channel answer meanwhile.
pub mod Delivery
pub mod Origin
use syncy.Base.{
  ℕ, Bytes, Bool, true, false, List, [], ◌∷◌, ◌++◌, ◌==◌, nat_eq, list_eq, if◌then◌else◌, Option,
  none, some, bytes_lt, sort,
}

-- One call of the function that `addRecursive` walks with: an entry that could not be read, a
-- file, or a directory with whether `fsw.Add` takes it.
pub data Visit : Type 0 where
  unreadable plain_file : Visit
  directory : Bytes → Bool → Visit

-- `addRecursive`: whether it succeeds, and the directories that are watched behind it.
unfoldable pub add_recursive : List Visit → List Bytes → Bool × List Bytes
add_recursive [] watched = (true, watched)
add_recursive (unreadable ∷ vs) watched = (false, watched)
add_recursive (plain_file ∷ vs) watched = add_recursive vs watched
add_recursive (directory path true ∷ vs) watched = add_recursive vs (watched ++ path ∷ [])
add_recursive (directory path false ∷ vs) watched = (false, watched)

pub record Watcher : Type 0 where
  -- the paths of the map `pending`
  pub pending : List Bytes
  -- the timer runs
  pub armed : Bool
  pub watched : List Bytes
  -- the buffer of the channel `errs`
  pub errs : Option Bytes
  -- the batches sent on `events`, the first one first
  pub sent : List (List Bytes)
  -- `run` has returned
  pub stopped : Bool

pub data Input : Type 0 where
  -- `done` is closed
  done : Input
  -- a path, whether the event creates it, and the walk of it when it is a directory
  event : Bytes → Bool → Option (List Visit) → Input
  -- the channels of the watcher below are closed
  events_closed errors_closed : Input
  watch_error : Bytes → Input
  -- the timer fires; a batch is received, or `done` is closed before
  fired : Bool → Input
  -- the other end takes an error
  error_taken : Input

-- `New` behind a walk that succeeds.
abbrev pub new_watcher : List Bytes → Watcher
new_watcher watched = record {
  pending = [];
  armed = false;
  watched = watched;
  errs = none;
  sent = [];
  stopped = false;
}

-- `New`: no watcher where the walk fails.
unfoldable pub new : List Visit → Option Watcher
unfolding add_recursive
new visits =
    let (added, watched) = add_recursive visits [] in
    if added then some (new_watcher watched) else none

-- `pending[p] = struct{}{}`
unfoldable pub add_pending : Bytes → List Bytes → List Bytes
add_pending p [] = p ∷ []
add_pending p (q ∷ qs) = let rest = add_pending p qs in if p == q then q ∷ qs else q ∷ rest

-- What a new directory adds to the watched ones: what was added stays when the walk fails.
abbrev pub created : Bool → Option (List Visit) → List Bytes → List Bytes
created true (some visits) watched = (add_recursive visits watched).1
created true none watched = watched
created false visits watched = watched

-- A send that is dropped when the buffer is full.
abbrev pub offered : Bytes → Option Bytes → Option Bytes
offered e none = some e
offered e (some old) = some old

-- The case of the timer, with the pending paths.
unfoldable pub flush : List Bytes → Bool → Watcher → Watcher
flush [] accepted w = record w { armed = false }
flush (p ∷ ps) true w = record w {
  pending = [];
  armed = false;
  sent = w.sent ++ sort bytes_lt (p ∷ ps) ∷ [];
}
flush (p ∷ ps) false w = record w { pending = []; armed = false; stopped = true }

-- One round of a loop that has not returned.
unfoldable pub round : Input → Watcher → Watcher
unfolding add_pending flush add_recursive
round done w = record w { armed = false; stopped = true }
round (event name creates visits) w = record w {
  pending = add_pending name w.pending;
  armed = true;
  watched = created creates visits w.watched;
}
round events_closed w = record w { stopped = true }
round errors_closed w = record w { stopped = true }
round (watch_error e) w = record w { errs = offered e w.errs }
round (fired accepted) w = if w.armed then flush w.pending accepted w else w
round error_taken w = record w { errs = none }

unfoldable pub step : Input → Watcher → Watcher
unfolding round
step i w = if w.stopped then w else round i w

unfoldable pub run : List Input → Watcher → Watcher
unfolding step
run [] w = w
run (i ∷ is) w = run is (step i w)
