-- ===== src/Examples/Stores.antt =====
-- The tables of the metadata store, written and read.
use syncy.Base.{
  ℕ, Bytes, Bool, true, false, List, [], ◌∷◌, ◌++◌, ◌≡◌, ◌<◌, refl, Option, none, some, Result, ok,
  err, str, replicate, All, length, nat_eq, list_eq, arith, String,
}
use syncy.Base.Dict.{Dict, NodupKeys, lookup}
use syncy.Core.{QueuedOp, at}
use syncy.Hashing.{Hash, IsHash}
use syncy.Metadata.Synced.{get_synced_baseline, set_synced_baseline}
use syncy.Metadata.Synced.Memory.{State, memory_synced}
use syncy.Metadata.Synced.Rounds.{Writes, set_synced_baseline-Writes}
use syncy.Metadata.Synced.Reading.{ReadsBack, get_synced_baseline-set_synced_baseline}
use syncy.Metadata.Queue.Memory.{memory_queue, empty_queue, appended}
use syncy.Metadata.Queue.{row_of}
use syncy.Metadata.Queue.Refinement.{Agrees, call, ops_of, enqueue, call-Agrees}

abbrev nothing : State
nothing = λ folder. ([], tt)

abbrev base : Dict Bytes Hash
base = (str "a.txt", replicate 32 0) ∷ (str "b.txt", replicate 32 1) ∷ []

base-NodupKeys : NodupKeys base
unfolding lookup list_eq syncy.Base.ℕ_discrete
base-NodupKeys = (refl, (refl, tt))

set_synced_baseline-Writes_example :
    Writes memory_synced
      (str "f")
      base
      nothing
      (set_synced_baseline memory_synced (str "f") base nothing)
set_synced_baseline-Writes_example =
    set_synced_baseline-Writes memory_synced (str "f") base nothing base-NodupKeys

abbrev stored : State
stored = (set_synced_baseline memory_synced (str "f") base nothing).1

stored-ok : set_synced_baseline memory_synced (str "f") base nothing ≡ (ok tt, stored)
unfolding set_synced_baseline lookup list_eq syncy.Base.ℕ_discrete syncy.Base.Dict.insert
stored-ok = refl

base-IsHash : All (λ e. IsHash e.1) base
base-IsHash = ((refl, ground arith), ((refl, ground arith), tt))

get_synced_baseline-set_synced_baseline_example :
    ReadsBack memory_synced (str "f") base (get_synced_baseline memory_synced (str "f") stored)
get_synced_baseline-set_synced_baseline_example =
    get_synced_baseline-set_synced_baseline memory_synced (str "f") base nothing stored
      base-NodupKeys base-IsHash stored-ok

abbrev op : QueuedOp
op = record {
  id = 0;
  device_id = str "BOB";
  folder_id = str "f";
  kind = str "push";
  payload = [];
  created_at = at 5 1;
  attempts = 0;
}

abbrev waiting : syncy.Metadata.Queue.Memory.State
waiting = appended empty_queue (row_of op)

call-Agrees_example :
    Agrees
      (enqueue op)
      (ops_of memory_queue waiting)
      (call memory_queue (enqueue op) waiting).0
      (ops_of memory_queue (call memory_queue (enqueue op) waiting).1)
call-Agrees_example = call-Agrees memory_queue (enqueue op) waiting
