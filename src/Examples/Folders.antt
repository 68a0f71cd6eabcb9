-- ===== src/Examples/Folders.antt =====
-- A shared folder that is pulled into, with its version store and its baseline.
use syncy.Base.{
  ℕ, Bool, true, false, List, [], ◌∷◌, ◌++◌, ◌≡◌, ◌≢◌, ◌==◌, refl, Option, none, some, Result, ok,
  err, str, replicate, nat_eq, list_eq,
}
use syncy.Core.{Folder, zero_time}
use syncy.Fs.{Fs, file, path_eq}
use syncy.Fsafe.{FilePath, clean}
use syncy.Fsafe.Below.{below_dir}
use syncy.Metadata.{Store, FolderRow}
use syncy.Metadata.Folders.{get_folder}
use syncy.Metadata.Memory.{memory_database}
use syncy.Metadata.Synced.Memory.{memory_synced}
use syncy.Scanner.{regular, directory, end, entry}
use syncy.Session.Install.{IsLawful}
use syncy.Versioning.{VersionStore, Disk}
use syncy.Versioning.Owned.{archiver, archiver-IsLawful}
use syncy.Engine.{Site, World, pull_folder}
use syncy.Engine.Records.{Records, pull_folder-Records}
use syncy.Engine.Confinement.{pull_folder-Keeps}
use syncy.Examples.Pulls.{padded, peer_of, no_faults}

abbrev disk : Disk
disk = record {
  stamp_of = λ p. str "20260102-030405";
  mkdir = λ p. true;
  create = λ p. true;
  copy_stops = λ p. none;
  close = λ p. true;
  remove = λ p. true;
  read_dir = λ p. true;
  info = λ p. true;
  stat_fails = λ p. false;
  rounds = 100;
}

abbrev store : VersionStore
store = record { dir = str "/f/.syncy-versions"; keep = 10 }

abbrev a_txt : FilePath
a_txt = record { rooted = true; elems = str "f" ∷ str "a.txt" ∷ [] }

abbrev other : FilePath
other = record { rooted = true; elems = str "g" ∷ str "b.txt" ∷ [] }

abbrev files : Fs
files = (a_txt, str "mine") ∷ (other, str "private") ∷ []

archiver-IsLawful_example : IsLawful (some (archiver disk store))
archiver-IsLawful_example = archiver-IsLawful disk store (λ e. cc e)

abbrev row : FolderRow
row = record {
  label = str "F";
  path = str "/f";
  direction = str "sendreceive";
  paused = 0;
  added_at = 0;
}

abbrev shared : Folder
shared = record {
  id = str "f";
  label = str "F";
  path = str "/f";
  direction = str "sendreceive";
  paused = false;
  added_at = zero_time;
}

-- The folder holds one file, as any walk finds it.
abbrev site : Site
site = record {
  of_bytes = padded;
  local_id = str "DEVICE-1";
  stamp = str "20260102-030405";
  peer = peer_of;
  faults = no_faults;
  disk = disk;
  walk = λ fs dir. some (
      directory true (
        entry (str "a.txt")
          (regular (record {
            opens = true;
            stats = true;
            size = 0;
            mod_time = zero_time;
            perm = 420;
            reader = [];
          }))
          end));
}

abbrev world : World memory_database memory_synced
world = record {
  store = record { devices = []; folders = (str "f", row) ∷ []; requests = []; settings = [] };
  synced = λ folder. ([], tt);
  fs = files;
}

pull_folder-Records_example :
    Records site memory_database memory_synced
      (str "f")
      world
      (pull_folder site memory_database memory_synced (str "f") world)
pull_folder-Records_example = pull_folder-Records site memory_database memory_synced (str "f") world

shared-known : (get_folder memory_database (str "f") world.store).0 ≡ ok shared
unfolding get_folder syncy.Base.Dict.lookup list_eq syncy.Base.ℕ_discrete
    syncy.Metadata.Folders.scan_folder
shared-known = refl

other-outside : below_dir (str "/f") other ≡ false
unfolding below_dir syncy.Fsafe.is_abs syncy.Base.ℕ_discrete clean syncy.Fsafe.clean_onto
    syncy.Fsafe.elements syncy.Fsafe.keep list_eq
other-outside = refl

other-apart : (other == syncy.Session.Install.tmp_of (clean (str "/f"))) ≡ false
unfolding path_eq syncy.Fs.add_suffix clean syncy.Fsafe.is_abs syncy.Base.ℕ_discrete
    syncy.Base.list_dec syncy.Fsafe.clean_onto syncy.Fsafe.elements syncy.Fsafe.keep list_eq
other-apart = refl

pull_folder-Keeps_example :
    file (pull_folder site memory_database memory_synced (str "f") world).2.fs other
    ≡ file files other
pull_folder-Keeps_example =
    pull_folder-Keeps site memory_database memory_synced (str "f") world other shared (λ e. cc e)
      other-outside other-apart shared-known
