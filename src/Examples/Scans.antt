-- ===== src/Examples/Scans.antt =====
-- A folder that changes between two scans, and the watcher and monitor that report it.
use syncy.Base.{
  ℕ, Bytes, Bool, true, false, List, [], ◌∷◌, ◌++◌, ◌≡◌, refl, Option, none, some, Result, ok, err,
  str, replicate, All, inl, inr, ◌⊎◌, Any, length, nat_eq, list_eq,
}
use syncy.Base.Dict.{NodupKeys, lookup}
use syncy.Core.{zero_time}
use syncy.Hashing.{Hash}
use syncy.Io.{piece}
use syncy.Chunker.{Chunker, default_config}
use syncy.Scanner.{FileInfo, Index, FileStat, Node, regular, directory, end, entry, scan}
use syncy.Scanner.Indexing.{IsScanned, InTree, Indexed, scan-Scans}
use syncy.Scanner.Diff.{diff}
use syncy.Scanner.Changes.{IsTrue}
use syncy.Scanner.Renames.{diff-IsTrue}
use syncy.Scanner.Apply.{apply_all, hash_at, apply_all-diff}
use syncy.Monitor
use syncy.Monitor.Following.{follow, last_scan, run-follows}
use syncy.Watch
use syncy.Watch.Delivery.{NewlySent, Kept, Reports, run-Sent}
use syncy.Watch.Origin.{run-from}

abbrev padded : Bytes → Hash
padded bs = replicate 28 1 ++ bs

abbrev info : Bytes → Bytes → FileInfo
info p body = record {
  path = p;
  size = length body;
  mod_time = zero_time;
  mode = 420;
  hash = padded body;
  blocks = [];
}

abbrev file : Bytes → Bytes → Bytes × FileInfo
file p body = (p, info p body)

-- `a` is renamed to `d`, `b` is edited, `c` is deleted, `e` is added.
abbrev before : Index
before =
    file (str "a") (str "moved") ∷ file (str "b") (str "old") ∷ file (str "c") (str "gone") ∷ []

abbrev now : Index
now = file (str "b") (str "new") ∷ file (str "d") (str "moved") ∷ file (str "e") (str "fresh") ∷ []

before-NodupKeys : NodupKeys before
unfolding lookup list_eq syncy.Base.ℕ_discrete
before-NodupKeys = (refl, (refl, (refl, tt)))

now-NodupKeys : NodupKeys now
unfolding lookup list_eq syncy.Base.ℕ_discrete
now-NodupKeys = (refl, (refl, (refl, tt)))

diff-IsTrue_example : All (IsTrue before now) (diff before now)
diff-IsTrue_example = diff-IsTrue before now before-NodupKeys now-NodupKeys

apply_all-diff_example :
    hash_at (str "d") (apply_all (diff before now) before) ≡ hash_at (str "d") now
apply_all-diff_example = apply_all-diff before now before-NodupKeys now-NodupKeys (str "d")

-- A tree with a file and a directory.
abbrev stat : Bytes → FileStat
stat body = record {
  opens = true;
  stats = true;
  size = length body;
  mod_time = zero_time;
  perm = 420;
  reader = piece body ∷ [];
}

abbrev root : Node
root = directory true (
    entry (str "a") (regular (stat (str "data")))
      (entry (str "sub") (directory true (entry (str "b") (regular (stat (str "data"))) end)) end))

abbrev chunker : Chunker
chunker = record { cfg = default_config; mask = 524287 }

abbrev shared_all : Bytes → Bool → Bool
shared_all rel is_dir = false

abbrev scan_found : Index
scan_found = elim (scan padded chunker shared_all (some root)) [ ok idx ↦ idx | err e ↦ [] ]

root-scanned : scan padded chunker shared_all (some root) ≡ ok scan_found
unfolding scan syncy.Scanner.walk_node syncy.Scanner.walk_nodes syncy.Chunker.split
    syncy.Chunker.refill syncy.Base.ℕ_discrete syncy.Chunker.collect syncy.Chunker.boundary
root-scanned = refl

scan-Scans_example :
    All (IsScanned padded chunker shared_all (InTree padded chunker shared_all root)) scan_found
    × ((p : Bytes) (st : FileStat)
        → InTree padded chunker shared_all root p st
        → shared_all p false ≡ false
        → Indexed padded chunker shared_all p scan_found)
scan-Scans_example = scan-Scans padded chunker shared_all root scan_found root-scanned

-- Two scans, and an error between them.
abbrev seen : List Monitor.Input
seen = Monitor.activity (ok now) true ∷ Monitor.watch_error ∷ Monitor.activity (ok before) true ∷ []

seen-running : (Monitor.run seen (Monitor.new_monitor before)).stopped ≡ false
unfolding Monitor.run Monitor.step Monitor.round diff syncy.Base.sort lookup list_eq
    syncy.Base.ℕ_discrete syncy.Base.bytes_lt syncy.Base.Dict.insert
seen-running = refl

run-follows_example :
    hash_at (str "c") (follow (Monitor.run seen (Monitor.new_monitor before)).sent before)
    ≡ hash_at (str "c") (last_scan before seen)
run-follows_example =
    run-follows before seen before-NodupKeys (now-NodupKeys, (tt, (before-NodupKeys, tt)))
      seen-running (str "c")

-- Two events, the second one the creation of a directory, and an error.
abbrev noticed : List Watch.Input
noticed =
    Watch.event (str "/f/b") false none
    ∷ Watch.watch_error (str "overflow")
    ∷ Watch.event (str "/f/sub") true (some (Watch.directory (str "/f/sub") true ∷ []))
    ∷ []

run-Sent_example :
    NewlySent
      (str "/f/b")
      (Watch.new_watcher (str "/f" ∷ []))
      (Watch.run (noticed ++ Watch.fired true ∷ []) (Watch.new_watcher (str "/f" ∷ [])))
run-Sent_example =
    run-Sent (str "/f/b") noticed (Watch.new_watcher (str "/f" ∷ [])) (tt, (tt, (tt, tt)))
      (refl, inl refl) (inl refl)

pending_path : Kept (str "/f/sub") (Watch.run noticed (Watch.new_watcher (str "/f" ∷ [])))
unfolding Watch.run Watch.step Watch.round Watch.add_pending list_eq syncy.Base.ℕ_discrete
pending_path = inl (inr (inl refl))

run-from_example :
    Kept (str "/f/sub") (Watch.new_watcher (str "/f" ∷ [])) ⊎ Any (Reports (str "/f/sub")) noticed
run-from_example = run-from (str "/f/sub") noticed (Watch.new_watcher (str "/f" ∷ [])) pending_path
