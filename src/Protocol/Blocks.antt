-- ===== src/Protocol/Blocks.antt =====
-- What `ReadFrame` accepts and refuses, and the payload of a block message.
use syncy.Base.{
  refl, [], ◌<◌, Bytes, ◌++◌, ◌≡◌, ap, ◌∙◌, true, false, Bool-cases, inl, inr, Result, length, take,
  drop, ok, err, arith, ltb, if◌then◌else◌, ltb→lt, take-append_left, drop-append_left,
  take-append-drop, length-take, length-append,
}
use syncy.Io.{Reader, content, ending, read_full, IoError}
use syncy.Io.Laws.{read_full-ReadsFull, read_full_short, read_full_drained, short_error}
use syncy.Protocol.{
  Frame, ProtocolError, frame_too_large, io, header_size, max_frame_size, read_frame, read_payload,
  parse_block_data, hash_size, be_get, head_byte,
}
use syncy.Protocol.Framing.{read_payload_lem, read_frame_lem}

-- What `ReadFrame` does with a stream, by its content alone.
abbrev pub frame_result : Bytes → IoError → Result ProtocolError Frame
frame_result bytes end =
    if ltb (length bytes) header_size
    then err (io (short_error end bytes))
    else (let n = be_get (drop 2 (take header_size bytes)) in
        let body = drop header_size bytes in
        if ltb max_frame_size n
        then err frame_too_large
        else if ltb (length body) n
        then err (io (short_error end body))
        else ok (record { typ = head_byte (take header_size bytes); payload = take n body }))

-- What `ReadFrame` leaves of a stream, by its content alone.
abbrev pub frame_left : Bytes → Bytes
frame_left bytes =
    if ltb (length bytes) header_size
    then []
    else (let n = be_get (drop 2 (take header_size bytes)) in
        let body = drop header_size bytes in
        if ltb max_frame_size n then body else if ltb (length body) n then [] else drop n body)

-- A run of a read that has this result and leaves these bytes.
abbrev Leaves : Result ProtocolError Frame → Bytes → Result ProtocolError Frame × Reader → Type 0
Leaves value left out = (out.0 ≡ value) × (content out.1 ≡ left)

read_payload_large :
    (hdr : Bytes) (r : Reader)
    → ltb max_frame_size (be_get (drop 2 hdr)) ≡ true
    → Leaves (err frame_too_large) (content r) (read_payload hdr r)
unfolding read_payload
read_payload_large hdr r e = rw e (refl, refl)

read_payload_cut :
    (hdr : Bytes) (r : Reader)
    → ltb max_frame_size (be_get (drop 2 hdr)) ≡ false
    → length (content r) < be_get (drop 2 hdr)
    → Leaves (err (io (short_error (ending r) (content r)))) [] (read_payload hdr r)
unfolding read_payload
read_payload_cut hdr r e h =
    rw (e, read_full_short (be_get (drop 2 hdr)) r h)
      (refl, read_full_drained (be_get (drop 2 hdr)) r h)

read_payload_result :
    (hdr : Bytes) (r : Reader)
    → Leaves
        (let n = be_get (drop 2 hdr) in
          if ltb max_frame_size n
          then err frame_too_large
          else if ltb (length (content r)) n
          then err (io (short_error (ending r) (content r)))
          else ok (record { typ = head_byte hdr; payload = take n (content r) }))
        (let n = be_get (drop 2 hdr) in
          if ltb max_frame_size n
          then content r
          else if ltb (length (content r)) n
          then []
          else drop n (content r))
        (read_payload hdr r)
read_payload_result hdr r = elim (Bool-cases (ltb max_frame_size (be_get (drop 2 hdr)))) [
  | inl big ↦ rw big (read_payload_large hdr r big)
  | inr small ↦ elim (Bool-cases (ltb (length (content r)) (be_get (drop 2 hdr)))) [
    | inl cut ↦ rw (small, cut) (read_payload_cut hdr r small (ltb→lt _ _ cut))
    | inr whole ↦
        let (value, left, end) = read_payload_lem hdr r (ground arith) (ground arith) in
        rw (small, whole) (value, left)
  ]
]

read_frame_cut :
    (r : Reader)
    → length (content r) < header_size
    → Leaves (err (io (short_error (ending r) (content r)))) [] (read_frame r)
unfolding read_frame
read_frame_cut r h = rw (read_full_short header_size r h) (refl, read_full_drained header_size r h)

-- What `ReadFrame` returns and what it leaves of the stream are functions of the bytes of the
-- stream and of how it ends, on every branch: a header cut short, a length above the limit, a
-- payload cut short, a whole frame. After a length above the limit only the header is gone: no
-- byte of the payload is taken from the stream.
pub read_frame-frame_result :
    (r : Reader)
    → ((read_frame r).0 ≡ frame_result (content r) (ending r))
      × (content (read_frame r).1 ≡ frame_left (content r))
read_frame-frame_result r = elim (Bool-cases (ltb (length (content r)) header_size)) [
  | inl cut ↦ rw cut (read_frame_cut r (ltb→lt _ _ cut))
  | inr whole ↦
      let reads = read_full-ReadsFull header_size r (ground arith) in
      let run = read_frame_lem r (take header_size (content r)) reads.value in
      let (value, left) =
        read_payload_result (take header_size (content r)) (read_full header_size r).1 in
      rw whole (
        ap (λ p. p.0) run ∙ value ∙ rw (reads.left, reads.end),
        ap (λ p. content p.1) run ∙ left ∙ rw reads.left,
      )
]

-- `ParseBlockData` of a hash with data behind it gives the two back.
pub parse_block_data-append :
    (hash body : Bytes)
    → length hash ≡ hash_size
    → parse_block_data (hash ++ body) ≡ ok (hash, body)
unfolding parse_block_data
parse_block_data-append hash body e =
    let long : ltb (length (hash ++ body)) hash_size ≡ false =
      ground (arith, length-append hash body, e) in
    rw (long, take-append_left hash_size hash body e, drop-append_left hash_size hash body e)

-- What `ParseBlockData` accepts is the hash of 32 bytes with the data behind it, and nothing else.
pub parse_block_data_cut :
    (payload hash body : Bytes)
    → parse_block_data payload ≡ ok (hash, body)
    → (hash ++ body ≡ payload) × (length hash ≡ hash_size)
unfolding parse_block_data
parse_block_data_cut payload hash body h =
    ground (arith, take-append-drop hash_size payload, length-take hash_size payload)
