-- ===== src/Protocol/Progress.antt =====
-- engine/internal/protocol/protocol.go: how much of the stream `ReadFrame` takes.
use syncy.Base.{
  ℕ, zero, suc, ◌+◌, ◌-◌, ◌≤◌, ◌<◌, Bytes, [], ◌∷◌, ◌++◌, ◌≡◌, ◌≢◌, ap, false, Bool-cases, inl, inr,
  Result-cases, length, take, drop, ok, arith, ltb, leb, ltb→lt, length-append, length-drop,
}
use syncy.Io.{piece, fail, Reader, content, read_full, read_full_from}
use syncy.Io.Laws.{read_full-ReadsFull, read_full_short}
use syncy.Protocol.{Frame, header_size, max_frame_size, read_frame, read_payload, be_get}
use syncy.Protocol.Framing.{read_frame_lem}

-- Reading takes nothing back.
read_full_from_shrinks :
    (got : Bytes) (n : ℕ) (r : Reader)
    → length (content (read_full_from got n r).1) ≤ length (content r)
unfolding read_full_from content
read_full_from_shrinks got zero r = omega arith
read_full_from_shrinks got (suc n) [] = omega arith
read_full_from_shrinks got (suc n) (fail ∷ r) = omega arith
read_full_from_shrinks got (suc n) (piece bs ∷ r) = elim (Bool-cases (leb (length bs) (suc n))) [
  | inl le ↦ rw le (
      omega (
        arith,
        read_full_from_shrinks (got ++ bs) (suc n - length bs) r,
        length-append bs (content r),
      ))
  | inr gt ↦ rw gt (
      omega (
        arith,
        length-append bs (content r),
        length-append (drop (suc n) bs) (content r),
        length-drop (suc n) bs,
      ))
]

read_payload_shrinks :
    (hdr : Bytes) (r : Reader) → length (content (read_payload hdr r).1) ≤ length (content r)
unfolding read_payload read_full
read_payload_shrinks hdr r = elim (Bool-cases (ltb max_frame_size (be_get (drop 2 hdr)))) [
  | inl large ↦ rw large (omega arith)
  | inr fits ↦ elim (Result-cases (read_full (be_get (drop 2 hdr)) r).0) [
    | inl (bs, e) ↦ rw (fits, e) (read_full_from_shrinks [] (be_get (drop 2 hdr)) r)
    | inr (bad, e) ↦ rw (fits, e) (read_full_from_shrinks [] (be_get (drop 2 hdr)) r)
  ]
]

enough_bytes : (n : ℕ) → ltb n header_size ≡ false → header_size ≤ n
enough_bytes n h = ground arith

read_frame_short :
    (r : Reader) → length (content r) < header_size → (f : Frame) → (read_frame r).0 ≢ ok f
unfolding read_frame
read_frame_short r h f = λ e. cc (rw (read_full_short header_size r h) at e)

-- The stream behind a frame is shorter than the stream before it, by a header at least.
pub read_frame_shrinks :
    (r : Reader) (f : Frame)
    → (read_frame r).0 ≡ ok f
    → length (content (read_frame r).1) + header_size ≤ length (content r)
read_frame_shrinks r f e = elim (Bool-cases (ltb (length (content r)) header_size)) [
  | inl short ↦ absurd (read_frame_short r (ltb→lt (length (content r)) header_size short) f e)
  | inr enough ↦
      let hdr = read_full-ReadsFull header_size r (enough_bytes (length (content r)) enough) in
      let r' = (read_full header_size r).1 in
      let bs = take header_size (content r) in
      rw (read_frame_lem r bs hdr.value) (
        omega (
          arith,
          read_payload_shrinks bs r',
          ap length hdr.left,
          length-drop header_size (content r),
          enough_bytes (length (content r)) enough,
        ))
]
