-- ===== src/Mp4.antt =====
-- hls.js/src/remux/mp4-generator.js and hls.js/src/demux/mp4demuxer.js: the boxes of the MP4 format, as
-- lists of bytes. The four characters of a type are their codes.
mod Types
mod Generator
mod Demuxer
mod Words
mod Find
mod Fragments
mod DataOffset
mod Traks
mod InitSegment
mod Shift
mod Append
mod Tests
use v4l2rtspserver.Base.{ℕ, ◌+◌, ◌/◌, ◌%◌, ◌*◌, List, [], ◌∷◌, ◌++◌, length}
use v4l2rtspserver.Base.Bytes.{byte_at}

-- The four bytes of a number, as the generator writes them.
unfoldable pub word_bytes : ℕ → List ℕ
word_bytes n = n / 16777216 % 256 ∷ n / 65536 % 256 ∷ n / 256 % 256 ∷ n % 256 ∷ []

unfoldable pub concat : List (List ℕ) → List ℕ
concat [] = []
concat (p ∷ payload) = p ++ concat payload

unfoldable pub box : List ℕ → List (List ℕ) → List ℕ
box type payload = word_bytes (8 + length (concat payload)) ++ (type ++ concat payload)

-- `readUint32`: a byte that is missing is 0.
unfoldable pub read_uint32 : List ℕ → ℕ → ℕ
read_uint32 buffer offset =
    byte_at buffer offset * 16777216
    + byte_at buffer (offset + 1) * 65536
    + byte_at buffer (offset + 2) * 256
    + byte_at buffer (offset + 3)
