-- ===== src/Session/Requests.antt =====
-- engine/internal/session/session.go: how the loops of `requestIndex` and `requestBlocks` end.
use syncy.Base.{
  ℕ, zero, suc, ◌<◌, Bytes, List, ◌++◌, ◌==◌, nat_eq, list_eq, Option, none, some, ◌≡◌, ◌≢◌, refl,
  inl, inr, length, Result, ok, err, arith, Bool-cases,
}
use syncy.Base.Dict.{insert}
use syncy.Io.{Reader, content, eof, unexpected_eof, failed}
use syncy.Protocol.{
  Frame, ProtocolError, io, frame_too_large, short_payload, write_failed, read_frame,
  parse_block_data, type_index_update, type_block_data,
}
use syncy.Protocol.Progress.{read_frame_shrinks}
use syncy.Session.{
  FileMeta, IndexUpdate, SessionError, out_of_fuel, stream_end, IndexRead, index_update,
  index_frame, read_index, Blocks, BlockRead, block_body, block_frame, read_blocks,
}

-- The loop ended by itself.
abbrev pub Ends : {A : Type 0} → Result SessionError A → Type 0
Ends r = r ≢ err out_of_fuel

stream_end-Ends : {A : Type 0} (a : A) (e : ProtocolError) → Ends (stream_end a e)
stream_end-Ends a (io eof) = λ h. cc h
stream_end-Ends a (io unexpected_eof) = λ h. cc h
stream_end-Ends a (io failed) = λ h. cc h
stream_end-Ends a frame_too_large = λ h. cc h
stream_end-Ends a short_payload = λ h. cc h
stream_end-Ends a write_failed = λ h. cc h

module _ (decode : Bytes → Option IndexUpdate) where
  index_update-Ends :
      (next : IndexRead) (files : List FileMeta) (o : Option IndexUpdate) (r : Reader)
      → ((more : List FileMeta) → Ends (next more r))
      → Ends (index_update decode next files o r)
  unfolding index_update
  index_update-Ends next files none r later = λ h. cc h
  index_update-Ends next files (some iu) r later = elim (Bool-cases iu.final) [
    | inl last ↦ rw last (λ h. cc h)
    | inr more ↦ rw more (later (files ++ iu.files))
  ]

  index_frame-Ends :
      (next : IndexRead) (files : List FileMeta) (frame : Result ProtocolError Frame) (r : Reader)
      → ((f : Frame) → frame ≡ ok f → (more : List FileMeta) → Ends (next more r))
      → Ends (index_frame decode next files frame r)
  unfolding index_frame
  index_frame-Ends next files (err e) r later = stream_end-Ends files e
  index_frame-Ends next files (ok f) r later = elim (Bool-cases (f.typ == type_index_update)) [
    | inr other ↦ rw other (λ h. cc h)
    | inl update ↦ rw update (index_update-Ends next files (decode f.payload) r (later f refl))
  ]

  -- With more rounds than bytes in the peer's stream, whatever the stream and its cuts, the loop
  -- of `requestIndex` ends by itself, with the files or with an error of the code.
  pub read_index-Ends :
      (fuel : ℕ) (files : List FileMeta) (r : Reader)
      → length (content r) < fuel
      → Ends (read_index decode fuel files r)
  unfolding read_index
  read_index-Ends zero files r h = absurd (omega arith)
  read_index-Ends (suc fuel) files r h =
      index_frame-Ends (read_index decode fuel) files (read_frame r).0 (read_frame r).1
        (λ f got more.
          read_index-Ends fuel more (read_frame r).1 (omega (arith, read_frame_shrinks r f got)))

block_body-Ends :
    (wanted : ℕ) (next : BlockRead) (out : Blocks) (o : Result ProtocolError (Bytes × Bytes))
    (r : Reader)
    → ((more : Blocks) → Ends (next more r))
    → Ends (block_body wanted next out o r)
unfolding block_body
block_body-Ends wanted next out (err e) r later = λ h. cc h
block_body-Ends wanted next out (ok (key, body)) r later =
    elim (Bool-cases (length (insert key body out) == wanted)) [
      | inl all ↦ rw all (λ h. cc h)
      | inr some_left ↦ rw some_left (later (insert key body out))
    ]

block_frame-Ends :
    (wanted : ℕ) (next : BlockRead) (out : Blocks) (frame : Result ProtocolError Frame) (r : Reader)
    → ((f : Frame) → frame ≡ ok f → (more : Blocks) → Ends (next more r))
    → Ends (block_frame wanted next out frame r)
unfolding block_frame
block_frame-Ends wanted next out (err e) r later = stream_end-Ends out e
block_frame-Ends wanted next out (ok f) r later = elim (Bool-cases (f.typ == type_block_data)) [
  | inr other ↦ rw other (λ h. cc h)
  | inl data_frame ↦
      rw data_frame (block_body-Ends wanted next out (parse_block_data f.payload) r (later f refl))
]

-- The loop of `requestBlocks` ends, whatever the peer sends and however many blocks are wanted:
-- with more rounds of fuel than there are bytes left in the stream, the model does not run out.
pub read_blocks-Ends :
    (wanted fuel : ℕ) (out : Blocks) (r : Reader)
    → length (content r) < fuel
    → Ends (read_blocks wanted fuel out r)
unfolding read_blocks
read_blocks-Ends wanted zero out r h = absurd (omega arith)
read_blocks-Ends wanted (suc fuel) out r h =
    block_frame-Ends wanted (read_blocks wanted fuel) out (read_frame r).0 (read_frame r).1
      (λ f got more.
        read_blocks-Ends wanted fuel more (read_frame r).1
          (omega (arith, read_frame_shrinks r f got)))
