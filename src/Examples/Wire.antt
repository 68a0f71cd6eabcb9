-- ===== src/Examples/Wire.antt =====
-- Frames, blocks and hashes at concrete bytes.
use syncy.Base.{
  Bytes, [], ◌∷◌, ◌++◌, ◌≡◌, refl, ok, true, length, replicate, take, drop, str, arith,
}
use syncy.Io.{Reader, piece, content, ending, Writer}
use syncy.Protocol.{
  MessageType, Frame, ProtocolError, type_ping, header_size, max_frame_size, write_frame,
  read_frame, hash_size, parse_block_data,
}
use syncy.Protocol.Framing.{wire, ReadsFrame}
use syncy.Protocol.Writing.{read_frame-write_frame}
use syncy.Protocol.Blocks.{read_frame-frame_result, frame_result, frame_left}
use syncy.Hashing.{Hash, IsHash, parse, to_string}
use syncy.Hashing.Hex.{parse-to_string}

-- A writer that keeps all that it is given.
abbrev pipe : Writer
pipe = record {
  State = Bytes;
  write = λ s bs. (s ++ bs, true);
  written = λ s. s;
  write_all = λ s bs h. refl;
  write_part = λ s bs. (length bs, omega arith, rw (take_whole bs));
}
  where
    take_whole : (bs : Bytes) → take (length bs) bs ≡ bs
    take_whole [] = refl
    take_whole (b ∷ bs) = rw (take_whole bs)

abbrev ping : Bytes
ping = str "hi"

-- The wire bytes of `ping`, cut inside the header, and a byte behind them.
abbrev pieces : Reader
pieces = piece (3 ∷ 0 ∷ 0 ∷ []) ∷ piece (0 ∷ 0 ∷ 2 ∷ b'h' ∷ []) ∷ piece (b'i' ∷ b'!' ∷ []) ∷ []

pieces-content : content pieces ≡ wire 3 ping ++ str "!"
unfolding content syncy.Protocol.header
pieces-content = refl

-- The frame goes behind a byte that was written before.
abbrev earlier : Bytes
earlier = str "?"

ping_sent : (write_frame pipe 3 ping earlier).0 ≡ ok tt
unfolding write_frame
ping_sent = refl

pieces-written :
    content pieces ≡ drop (length earlier) (write_frame pipe 3 ping earlier).1 ++ str "!"
unfolding content write_frame
pieces-written = refl

read_frame-write_frame_example : ReadsFrame 3 ping pieces (str "!")
read_frame-write_frame_example =
    read_frame-write_frame pipe 3 ping earlier pieces (str "!") (omega arith) ping_sent
      pieces-written

read_frame-frame_result_example :
    ((read_frame pieces).0 ≡ frame_result (content pieces) (ending pieces))
    × (content (read_frame pieces).1 ≡ frame_left (content pieces))
read_frame-frame_result_example = read_frame-frame_result pieces

abbrev zeros : Hash
zeros = replicate 32 0

zeros-IsHash : IsHash zeros
zeros-IsHash = (refl, ground arith)

parse-to_string_example : parse (to_string zeros) ≡ ok zeros
parse-to_string_example = parse-to_string zeros zeros-IsHash
