-- ===== src/Protocol/Framing.antt =====
-- engine/internal/protocol/protocol.go: `ReadFrame` of the bytes that `WriteFrame` writes.
use syncy.Base.{
  ℕ, ◌+◌, ◌≤◌, ◌<◌, ◌^◌, ◌%◌, Bytes, ◌++◌, ◌≡◌, refl, ap, ◌∙◌, false, length, take, drop, ok, arith,
  append_assoc, length-append, ltb, take-append_left, drop-append_left,
}
use syncy.Io.{Reader, content, ending, read_full}
use syncy.Io.Laws.{read_full-ReadsFull}
use syncy.Protocol.{
  MessageType, header, be_put, be_get, header_size, max_frame_size, read_frame, read_payload,
  head_byte,
}

-- The bytes of a frame on the wire.
abbrev pub wire : MessageType → Bytes → Bytes
wire typ payload = header typ (length payload) ++ payload

be_get-be_put : (n : ℕ) (rest : Bytes) → n < 2 ^ 32 → be_get (be_put n ++ rest) ≡ n
unfolding be_get be_put
be_get-be_put n rest h = omega arith

length-header : (typ : MessageType) (n : ℕ) → length (header typ n) ≡ 6
unfolding header be_put
length-header typ n = refl

drop-header : (typ : MessageType) (n : ℕ) → drop 2 (header typ n) ≡ be_put (n % 2 ^ 32)
unfolding header
drop-header typ n = refl

head_byte-header : (typ : MessageType) (n : ℕ) → typ < 256 → head_byte (header typ n) ≡ typ
unfolding header
head_byte-header typ n h = omega arith

length_field : (typ : MessageType) (n : ℕ) → n ≤ max_frame_size → be_get (drop 2 (header typ n)) ≡ n
unfolding header be_put be_get
length_field typ n h = omega arith

-- What `read_payload` does, by the content of the stream behind the header.
pub record ReadsFrame (typ : MessageType) (payload : Bytes) (r : Reader) (left : Bytes)
    : Type 0 where
  pub value : (read_frame r).0 ≡ ok (record { typ = typ; payload = payload })
  pub rest : content (read_frame r).1 ≡ left
  pub end : ending (read_frame r).1 ≡ ending r

pub read_payload_lem :
    (hdr : Bytes) (r : Reader)
    → be_get (drop 2 hdr) ≤ max_frame_size
    → be_get (drop 2 hdr) ≤ length (content r)
    → ((read_payload hdr r).0
        ≡ ok (record { typ = head_byte hdr; payload = take (be_get (drop 2 hdr)) (content r) }))
      × (content (read_payload hdr r).1 ≡ drop (be_get (drop 2 hdr)) (content r))
      × (ending (read_payload hdr r).1 ≡ ending r)
unfolding read_payload
read_payload_lem hdr r small enough =
    let reads = read_full-ReadsFull (be_get (drop 2 hdr)) r enough in
    let guard : ltb max_frame_size (be_get (drop 2 hdr)) ≡ false = ground arith in
    rw (guard, reads.value) (refl, reads.left, reads.end)

pub read_frame_lem :
    (r : Reader) (hdr : Bytes)
    → (read_full header_size r).0 ≡ ok hdr
    → read_frame r ≡ read_payload hdr (read_full header_size r).1
unfolding read_frame
read_frame_lem r hdr e = rw e

-- `ReadFrame` of a stream that begins with the wire bytes of a frame returns that frame and
-- leaves the rest of the stream, however the stream is cut into reads; the type is a byte and the
-- payload no longer than `MaxFrameSize`.
pub read_frame-wire :
    (typ : MessageType) (payload rest : Bytes) (r : Reader)
    → typ < 256
    → length payload ≤ max_frame_size
    → content r ≡ wire typ payload ++ rest
    → ReadsFrame typ payload r rest
read_frame-wire typ payload rest r byte small e =
    let n : ℕ = length payload in
    let e' : content r ≡ header typ n ++ (payload ++ rest) =
      e ∙ append_assoc (header typ n) payload rest in
    let total =
      ap length e'
      ∙ length-append (header typ n) (payload ++ rest)
      ∙ ap (λ (k : ℕ). k + length (payload ++ rest)) (length-header typ n) in
    let hdr = read_full-ReadsFull header_size r (omega (arith, total)) in
    let got : (read_full header_size r).0 ≡ ok (header typ n) =
      hdr.value
      ∙ ap (λ t. ok (take header_size t)) e'
      ∙ ap ok
          (take-append_left header_size (header typ n) (payload ++ rest) (length-header typ n)) in
    let r' : Reader = (read_full header_size r).1 in
    let left : content r' ≡ payload ++ rest =
      hdr.left
      ∙ ap (drop header_size) e'
      ∙ drop-append_left header_size (header typ n) (payload ++ rest) (length-header typ n) in
    let field = length_field typ n small in
    let body =
      read_payload_lem (header typ n) r' (rw field small)
        (rw (field, left) (omega (arith, length-append payload rest))) in
    let run : read_frame r ≡ read_payload (header typ n) r' = read_frame_lem r (header typ n) got in
    record {
      value =
          ap (λ p. p.0) run
          ∙ body.0
          ∙ rw (field, left, head_byte-header typ n byte, take-append_left n payload rest refl);
      rest =
          ap (λ p. content p.1) run
          ∙ body.1
          ∙ rw (field, left) (drop-append_left n payload rest refl);
      end = ap (λ p. ending p.1) run ∙ body.2 ∙ hdr.end;
    }
