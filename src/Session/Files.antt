-- ===== src/Session/Files.antt =====
-- What `pullFile` does to the files: the temporary file while it runs, the destination at its end.
use syncy.Base.{
  Bytes, false, List, [], ◌∷◌, ◌++◌, ◌==◌, nat_eq, list_eq, none, some, ◌≡◌, inl, inr, refl, sym,
  ◌∙◌, if◌then◌else◌, Result, ok, err, arith, Bool-cases, append_assoc, append-nil, eq_of_beq,
  eq_refl,
}
use syncy.Base.Dict.{Dict}
use syncy.Chunker.{Chunk}
use syncy.Fs.{Fs, file, set_file, path_eq}
use syncy.Fs.Laws.{file-set_file, file-remove_file}
use syncy.Fsafe.{FilePath}
use syncy.Hashing.{Hash}
use syncy.Session.{Stats, SessionError, BlockIndex}
use syncy.Session.Transfer.{Env, Data, block_data, write_block, write_blocks}

-- The bytes are those of the blocks, one after the other, each with its block's hash.
abbrev pub Assembled : Env → List Chunk → Bytes → Type 0
Assembled env [] t = t ≡ []
Assembled env (b ∷ bs) t =
    (body : Bytes) × (rest : Bytes) × (t ≡ body ++ rest)
    × (env.of_bytes body ≡ b.hash)
    × Assembled env bs rest

module _ (env : Env) (m : BlockIndex) (fetched : Dict Hash Bytes) (tmp : FilePath) where
  open env use {of_bytes, faults}

  -- The loop has written the blocks to the temporary file, or it has removed that file.
  abbrev pub Writes : List Chunk → Bytes → Fs → Result SessionError Bytes × Fs × Stats → Type 0
  Writes bs written fs (ok t, fs', stats) =
      (file fs' tmp ≡ some t)
      × ((rest : Bytes) × (t ≡ written ++ rest) × Assembled env bs rest)
      × ((q : FilePath) → (q == tmp) ≡ false → file fs' q ≡ file fs q)
  Writes bs written fs (err e, fs', stats) =
      (q : FilePath) → file fs' q ≡ (if q == tmp then none else file fs q)

  -- A block before blocks that are written.
  Writes-cons :
      (b : Chunk) (bs : List Chunk) (written body : Bytes) (fs : Fs)
      (out : Result SessionError Bytes × Fs × Stats)
      → of_bytes body ≡ b.hash
      → Writes bs (written ++ body) (set_file fs tmp (written ++ body)) out
      → Writes (b ∷ bs) written fs out
  Writes-cons b bs written body fs (ok t, fs', stats) good (here, (rest, shape, done), others) = (
    here,
    (body ++ rest, shape ∙ append_assoc written body rest, (body, rest, refl, good, done)),
    λ q ne. others q ne ∙ file-set_file fs tmp q (written ++ body) ∙ rw ne,
  )
  Writes-cons b bs written body fs (err e, fs', stats) good cleared =
      λ q. cleared q ∙ ground (arith, file-set_file fs tmp q (written ++ body))

  write_block-Writes :
      (next : Bytes → Fs → Stats → Result SessionError Bytes × Fs × Stats) (b : Chunk)
      (bs : List Chunk) (d : Data) (written : Bytes) (fs : Fs) (stats : Stats)
      → ((t : Bytes) (gs : Fs) (st : Stats) → file gs tmp ≡ some t → Writes bs t gs (next t gs st))
      → Writes (b ∷ bs) written fs (write_block env tmp next b d written fs stats)
  unfolding write_block
  write_block-Writes next b bs (err e) written fs stats later = λ q. file-remove_file fs tmp q
  write_block-Writes next b bs (ok (body, stats')) written fs stats later =
      elim (Bool-cases (of_bytes body == b.hash)) [
        | inr bad ↦ rw bad (λ q. file-remove_file fs tmp q)
        | inl good ↦ elim (Bool-cases (faults.write (written ++ body))) [
          | inr full ↦ rw (good, full) (λ q. file-remove_file fs tmp q)
          | inl room ↦
              let grown = written ++ body in
              rw (good, room)
                (Writes-cons b bs written body fs (next grown (set_file fs tmp grown) stats')
                  (eq_of_beq (of_bytes body) b.hash good)
                  (later grown (set_file fs tmp grown) stats'
                    (file-set_file fs tmp tmp grown ∙ rw (eq_refl tmp))))
        ]
      ]

  pub write_blocks-Writes :
      (bs : List Chunk) (written : Bytes) (fs : Fs) (stats : Stats)
      → file fs tmp ≡ some written
      → Writes bs written fs (write_blocks env m fetched tmp bs written fs stats)
  unfolding write_blocks
  write_blocks-Writes [] written fs stats h = (h, ([], sym (append-nil written), refl), λ q _. refl)
  write_blocks-Writes (b ∷ bs) written fs stats h =
      write_block-Writes (write_blocks env m fetched tmp bs) b bs
        (block_data env m fetched b.hash fs stats) written fs stats
        (λ t gs st. write_blocks-Writes bs t gs st)
