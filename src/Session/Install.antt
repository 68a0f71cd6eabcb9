-- ===== src/Session/Install.antt =====
-- engine/internal/session/session.go: what `pullFile` leaves behind.
use syncy.Base.{
  Bytes, false, [], ◌==◌, nat_eq, list_eq, Option, none, some, ◌≡◌, inl, inr, refl, sym, ◌∙◌,
  Result, ok, err, arith, Bool-cases, eq_of_beq, eq_refl,
}
use syncy.Base.Dict.{Dict}
use syncy.Fs.{Fs, file, set_file, remove_file, path_eq, add_suffix}
use syncy.Fs.Laws.{file-set_file, file-remove_file, add_suffix-ne}
use syncy.Fsafe.{FilePath}
use syncy.Hashing.{Hash}
use syncy.Session.{
  FileMeta, Stats, SessionError, BlockIndex, tmp_suffix, filesystem, archiving, file_mismatch,
}
use syncy.Session.Transfer.{
  Env, Archiver, Outcome, write_blocks, install, finish, finish_written, archived, exists, pull_to,
}
use syncy.Session.Files.{Assembled, Writes, write_blocks-Writes}

-- A version store changes only the files that it owns.
abbrev pub IsLawful : Option Archiver → Type 0
IsLawful none = Unit {0}
IsLawful (some a) =
    (root rel : Bytes) (fs : Fs) (q : FilePath)
    → a.owns q ≡ false
    → file (a.archive root rel fs).1 q ≡ file fs q

abbrev pub Unowned : Option Archiver → FilePath → Type 0
Unowned none q = Unit {0}
Unowned (some a) q = a.owns q ≡ false

module _ (env : Env) where
  open env use {of_bytes, faults}

  pub archived-file :
      (v : Option Archiver) (target : Bytes) (dest : FilePath) (fs : Fs) (q : FilePath)
      → IsLawful v
      → Unowned v q
      → file (archived env v target dest fs).1 q ≡ file fs q
  archived-file none target dest fs q law free = refl
  archived-file (some a) target dest fs q law free = elim (Bool-cases (exists env (file fs dest))) [
    | inl old ↦ rw old (law env.dest_dir target fs q free)
    | inr new ↦ rw new
  ]

  -- What a pull of one file may leave: on success the destination holds the blocks, verified one
  -- by one and as a whole, and the temporary file is gone; on an error it holds what it held. No
  -- other file changes but the temporary one and those of the version store.
  pub record IsPulled (rf : FileMeta) (tmp dest : FilePath) (fs : Fs) (out : Outcome) : Type 0 where
    pub success :
        out.0 ≡ ok tt
        → (t : Bytes) × (file out.1 dest ≡ some t)
          × (of_bytes t ≡ rf.hash)
          × Assembled env rf.blocks t
          × (file out.1 tmp ≡ none)
    pub failure : (e : SessionError) → out.0 ≡ err e → file out.1 dest ≡ file fs dest
    pub others :
        (q : FilePath)
        → (q == tmp) ≡ false
        → (q == dest) ≡ false
        → Unowned env.versions q
        → file out.1 q ≡ file fs q

  module _ (rf : FileMeta) (target : Bytes) (tmp dest : FilePath) (apart : (dest == tmp) ≡ false)
      (apart' : (tmp == dest) ≡ false) (law : IsLawful env.versions)
      (free_tmp : Unowned env.versions tmp) (free_dest : Unowned env.versions dest) where
    -- A failure that leaves every file but the temporary one as it was.
    failed-IsPulled :
        (fs fs' : Fs) (stats : Stats) (e : SessionError)
        → ((q : FilePath) → (q == tmp) ≡ false → Unowned env.versions q → file fs' q ≡ file fs q)
        → IsPulled rf tmp dest fs (err e, fs', stats)
    failed-IsPulled fs fs' stats e same = record {
      success = λ h. cc h;
      failure = λ _ _. same dest apart free_dest;
      others = λ q nt nd free. same q nt free;
    }

    install-IsPulled :
        (fs fs' : Fs) (t : Bytes) (stats : Stats)
        → file fs' tmp ≡ some t
        → of_bytes t ≡ rf.hash
        → Assembled env rf.blocks t
        → ((q : FilePath) → (q == tmp) ≡ false → Unowned env.versions q → file fs' q ≡ file fs q)
        → IsPulled rf tmp dest fs (install env tmp dest fs' stats)
    unfolding install
    install-IsPulled fs fs' t stats here whole blocks same =
        elim (Bool-cases (faults.rename dest)) [
          | inr stuck ↦ rw stuck (failed-IsPulled fs fs' stats filesystem same)
          | inl renamed ↦
              let gone = remove_file fs' tmp in
              rw (renamed, here)
                (record {
                  success = λ _. (
                    t,
                    file-set_file gone dest dest t ∙ rw (eq_refl dest),
                    whole,
                    blocks,
                    file-set_file gone dest tmp t
                        ∙ rw apart' (file-remove_file fs' tmp tmp ∙ rw (eq_refl tmp)),
                  );
                  failure = λ e h. cc h;
                  others = λ q nt nd free.
                      file-set_file gone dest q t
                      ∙ rw nd (file-remove_file fs' tmp q ∙ rw nt (same q nt free));
                })
        ]

    removed-file :
        (fs fs' gs : Fs)
        → ((q : FilePath) → Unowned env.versions q → file gs q ≡ file fs' q)
        → ((q : FilePath) → (q == tmp) ≡ false → file fs' q ≡ file fs q)
        → (q : FilePath) → (q == tmp) ≡ false
        → Unowned env.versions q
        → file (remove_file gs tmp) q ≡ file fs q
    removed-file fs fs' gs kept same q nt free =
        rw (file-remove_file gs tmp q, nt) (kept q free ∙ same q nt)

    finish-IsPulled :
        (fs fs' : Fs) (t : Bytes) (stats : Stats)
        → file fs' tmp ≡ some t
        → Assembled env rf.blocks t
        → ((q : FilePath) → (q == tmp) ≡ false → file fs' q ≡ file fs q)
        → IsPulled rf tmp dest fs (finish env rf target tmp dest t fs' stats)
    unfolding finish
    finish-IsPulled fs fs' t stats here blocks same = elim (Bool-cases (faults.close tmp)) [
      | inr bad ↦ rw bad (
          failed-IsPulled fs (remove_file fs' tmp) stats filesystem
            (removed-file fs fs' fs' (λ q _. refl) same))
      | inl closed ↦ elim (Bool-cases (of_bytes t == rf.hash)) [
        | inr differs ↦
            rw (closed, differs)
              (failed-IsPulled fs (remove_file fs' tmp) stats file_mismatch
                (removed-file fs fs' fs' (λ q _. refl) same))
        | inl whole ↦
            let p = archived env env.versions target dest fs' in
            let kept = λ (q : FilePath) (free : Unowned env.versions q).
              archived-file env.versions target dest fs' q law free in
            elim (Bool-cases p.0) [
              | inr unsaved ↦
                  rw (closed, whole, unsaved)
                    (failed-IsPulled fs (remove_file p.1 tmp) stats archiving
                      (removed-file fs fs' p.1 kept same))
              | inl saved ↦
                  rw (closed, whole, saved)
                    (install-IsPulled fs p.1 t stats (kept tmp free_tmp ∙ here)
                      (eq_of_beq (of_bytes t) rf.hash whole) blocks
                      (λ q nt free. kept q free ∙ same q nt))
            ]
      ]
    ]

    finish_written-IsPulled :
        (fs fs₁ : Fs) (w : Result SessionError Bytes × Fs × Stats) (m : BlockIndex)
        (fetched : Dict Hash Bytes)
        → Writes env m fetched tmp rf.blocks [] fs₁ w
        → ((q : FilePath) → (q == tmp) ≡ false → file fs₁ q ≡ file fs q)
        → IsPulled rf tmp dest fs (finish_written env rf target tmp dest w)
    finish_written-IsPulled fs fs₁ (err e, fs', stats) m fetched cleared same =
        failed-IsPulled fs fs' stats e (λ q nt free. cleared q ∙ rw nt (same q nt))
    finish_written-IsPulled fs fs₁ (ok t, fs', stats) m fetched
          (here, (rest, shape, blocks), others) same =
        finish-IsPulled fs fs' t stats here (rw shape blocks) (λ q nt. others q nt ∙ same q nt)

-- The temporary file of a destination.
abbrev pub tmp_of : FilePath → FilePath
tmp_of dest = add_suffix dest tmp_suffix

tmp_of-ne : (dest : FilePath) → (dest == tmp_of dest) ≡ false
tmp_of-ne dest = elim (Bool-cases (dest == tmp_of dest)) [
  | inl same ↦
      absurd (add_suffix-ne dest tmp_suffix (omega arith) (sym (eq_of_beq dest (tmp_of dest) same)))
  | inr apart ↦ apart
]

tmp_of-ne_dest : (dest : FilePath) → (tmp_of dest == dest) ≡ false
tmp_of-ne_dest dest = elim (Bool-cases (tmp_of dest == dest)) [
  | inl same ↦
      absurd (add_suffix-ne dest tmp_suffix (omega arith) (eq_of_beq (tmp_of dest) dest same))
  | inr apart ↦ apart
]

module _ (env : Env) (law : IsLawful env.versions) where
  pub pull_to-IsPulled :
      (m : BlockIndex) (fetched : Dict Hash Bytes) (rf : FileMeta) (target : Bytes)
      (dest : FilePath) (fs : Fs) (stats : Stats)
      → Unowned env.versions (tmp_of dest)
      → Unowned env.versions dest
      → IsPulled env rf (tmp_of dest) dest fs (pull_to env m fetched rf target dest fs stats)
  unfolding pull_to
  pull_to-IsPulled m fetched rf target dest fs stats free_tmp free_dest =
      let tmp = tmp_of dest in
      let failed =
        failed-IsPulled env rf target tmp dest (tmp_of-ne dest) (tmp_of-ne_dest dest) law free_tmp
          free_dest fs fs stats filesystem (λ q _ _. refl) in
      let fs₁ = set_file fs tmp [] in
      elim (Bool-cases (env.faults.mkdir dest)) [
        | inr bad ↦ rw bad failed
        | inl made ↦ elim (Bool-cases (env.faults.create tmp)) [
          | inr bad ↦ rw (made, bad) failed
          | inl created ↦
              rw (made, created)
                (finish_written-IsPulled env rf target tmp dest (tmp_of-ne dest)
                  (tmp_of-ne_dest dest) law free_tmp free_dest fs fs₁
                  (write_blocks env m fetched tmp rf.blocks [] fs₁ stats) m fetched
                  (write_blocks-Writes env m fetched tmp rf.blocks [] fs₁ stats
                    (file-set_file fs tmp tmp [] ∙ rw (eq_refl tmp)))
                  (λ q nt. rw (file-set_file fs tmp q [], nt)))
        ]
      ]
