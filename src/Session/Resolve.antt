-- ===== src/Session/Resolve.antt =====
-- What `Pull` of session.go does with one remote file, given the local index and the baseline.
use syncy.Base.{
  Bytes, true, false, not, ◌&&◌, ◌||◌, ◌==◌, some, ◌≡◌, ◌≢◌, inl, inr, ◌⊎◌, Bool-cases, nat_eq,
  list_eq,
}
use syncy.Base.Dict.{Dict, lookup}
use syncy.Conflict.Name.{conflict_name, conflict_name-ne}
use syncy.Fsafe.{local}
use syncy.Hashing.{Hash, is_zero}
use syncy.Session.{FileMeta, classify, keep_local, conflict_copy}
use syncy.Scanner.{FileInfo, Index}
use syncy.Session.Transfer.{Env, Decision, skip, pull_as, resolved, against, decide, or_zero_hash}

module _ (env : Env) where
  -- A decision to skip the file, or to pull it as a conflict copy under another name than its path.
  abbrev pub Spares : Bytes → Decision → Type 0
  Spares path d = (d ≡ skip) ⊎ ((name : Bytes) × (d ≡ pull_as name true) × (name ≢ path))

  -- `edited` says that the local hash is not the baseline, or that there is no baseline.
  classify_edited :
      (mine theirs bl : Hash)
      → (not (is_zero bl) && (mine == bl)) ≡ false
      → (classify mine theirs bl ≡ keep_local) ⊎ (classify mine theirs bl ≡ conflict_copy)
  unfolding classify
  classify_edited mine theirs bl edited = elim (Bool-cases (not (is_zero bl) && (theirs == bl))) [
    | inl old ↦ inl (rw (edited, old))
    | inr new ↦ inr (rw (edited, new))
  ]

  resolved-Spares :
      (rf : FileMeta) (lf : FileInfo) (base : Dict Bytes Hash)
      (edited : (not (is_zero (or_zero_hash env (lookup rf.path base)))
          && (lf.hash == or_zero_hash env (lookup rf.path base)))
        ≡ false)
      → Spares rf.path (resolved env rf lf (some base))
  resolved-Spares rf lf base edited =
      elim (classify_edited lf.hash rf.hash (or_zero_hash env (lookup rf.path base)) edited) [
        | inl keep ↦ inl (rw keep)
        | inr both ↦ inr (
          conflict_name rf.path env.local_id env.stamp,
          rw both,
          (conflict_name-ne rf.path env.local_id env.stamp).0,
        )
      ]

  against-Spares :
      (rf : FileMeta) (lf : FileInfo) (base : Dict Bytes Hash)
      (edited : (not (is_zero (or_zero_hash env (lookup rf.path base)))
          && (lf.hash == or_zero_hash env (lookup rf.path base)))
        ≡ false)
      → env.baseline ≡ some base
      → Spares rf.path (against env rf (some lf))
  against-Spares rf lf base edited known = elim (Bool-cases (lf.hash == rf.hash)) [
    | inl same ↦ inl (rw same)
    | inr differ ↦ rw (differ, known) (resolved-Spares rf lf base edited)
  ]

  -- With a baseline, a file that stands in the local index under the very path of the remote file,
  -- and whose hash is not the baseline's (or has no baseline), is never replaced: the remote file
  -- is skipped, or pulled as a conflict copy under another name. This holds for any remote file.
  pub decide-Spares :
      (idx : Index) (rf : FileMeta) (lf : FileInfo) (base : Dict Bytes Hash)
      → lookup rf.path idx ≡ some lf
      → env.baseline ≡ some base
      → (not (is_zero (or_zero_hash env (lookup rf.path base)))
          && (lf.hash == or_zero_hash env (lookup rf.path base)))
        ≡ false
      → Spares rf.path (decide env idx rf)
  unfolding decide
  decide-Spares idx rf lf base here known edited =
      elim (Bool-cases (rf.deleted || not (local rf.path))) [
        | inl refused ↦ inl (rw refused)
        | inr fine ↦ rw (fine, here) (against-Spares rf lf base edited known)
      ]
