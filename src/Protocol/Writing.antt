-- ===== src/Protocol/Writing.antt =====
-- What `WriteFrame` puts on the wire, over any writer.
use syncy.Base.{
  ◌≤◌, ◌<◌, Bytes, ◌++◌, ◌≡◌, refl, ap, sym, ◌∙◌, Bool, true, false, Bool-cases, inl, inr, length,
  ok, err, arith, append_assoc, ltb, drop, drop-append_left,
}
use syncy.Io.{Reader, content, Writer}
use syncy.Protocol.{
  MessageType, frame_too_large, header, max_frame_size, write_frame, write_payload,
}
use syncy.Protocol.Framing.{wire, ReadsFrame, read_frame-wire}

module _ (W : Writer) where
  open W use {State, write, written, write_all, write_part}

  write_payload-ok :
      (s : State) (sent : Bool) (payload : Bytes)
      → (write_payload W s sent payload).0 ≡ ok tt
      → (sent ≡ true) × (written (write_payload W s sent payload).1 ≡ written s ++ payload)
  unfolding write_payload
  write_payload-ok s false payload h = cc
  write_payload-ok s true payload h = elim (Bool-cases (write s payload).1) [
    | inl t ↦ (refl, write_all s payload t)
    | inr f ↦ cc f
  ]

  write_frame_lem :
      (typ : MessageType) (payload : Bytes) (s : State)
      → ltb max_frame_size (length payload) ≡ false
      → write_frame W typ payload s
        ≡ write_payload W
            (write s (header typ (length payload))).0
            (write s (header typ (length payload))).1
            payload
  unfolding write_frame
  write_frame_lem typ payload s e = rw e

  -- A successful `WriteFrame` has put exactly the frame's wire bytes behind what was written
  -- before, and its payload is within the size limit.
  pub write_frame-wire :
      (typ : MessageType) (payload : Bytes) (s : State)
      → (write_frame W typ payload s).0 ≡ ok tt
      → (length payload ≤ max_frame_size)
        × (written (write_frame W typ payload s).1 ≡ written s ++ wire typ payload)
  unfolding write_frame
  write_frame-wire typ payload s h = elim (Bool-cases (ltb max_frame_size (length payload))) [
    | inl big ↦ cc big
    | inr small ↦
        let hdr = header typ (length payload) in
        let run = write_frame_lem typ payload s small in
        let (sent, grown) =
          write_payload-ok (write s hdr).0 (write s hdr).1 payload (sym (ap (λ p. p.0) run) ∙ h) in
        (
          ground arith,
          ap (λ p. written p.1) run
              ∙ grown
              ∙ ap (λ t. t ++ payload) (write_all s hdr sent)
              ∙ append_assoc (written s) hdr payload,
        )
  ]

  -- A payload above the limit is refused, and nothing of it reaches the writer.
  pub write_frame_large :
      (typ : MessageType) (payload : Bytes) (s : State)
      → max_frame_size < length payload
      → write_frame W typ payload s ≡ (err frame_too_large, s)
  unfolding write_frame
  write_frame_large typ payload s h =
      let big : ltb max_frame_size (length payload) ≡ true = ground arith in rw big

  -- A frame that one side writes successfully is what `ReadFrame` returns on the other side, from
  -- any stream that carries the bytes which that call has put behind the earlier ones, and any more
  -- bytes after them; the type is a byte.
  pub read_frame-write_frame :
      (typ : MessageType) (payload : Bytes) (s : State) (r : Reader) (rest : Bytes)
      → typ < 256
      → (write_frame W typ payload s).0 ≡ ok tt
      → content r ≡ drop (length (written s)) (written (write_frame W typ payload s).1) ++ rest
      → ReadsFrame typ payload r rest
  read_frame-write_frame typ payload s r rest byte h e =
      let (small, grown) = write_frame-wire typ payload s h in
      read_frame-wire typ payload rest r byte small (
        e
        ∙ ap (λ t. t ++ rest)
            (ap (drop (length (written s))) grown
              ∙ drop-append_left (length (written s)) (written s) (wire typ payload) refl))
