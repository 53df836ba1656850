-- ===== src/MpegAudio/Tests.antt =====
-- An MPEG-1 Layer III header at 128 kbit/s and 44.1 kHz, with a frame that is cut short.
use v4l2rtspserver.Base.{ℕ, ◌+◌, ◌*◌, ◌/◌, ◌≡◌, ◌≤◌, refl, true, some, List, [], ◌∷◌, arith}
use v4l2rtspserver.MpegAudio.{Header, Track, header_fields, fields_valid, parse_header}
use v4l2rtspserver.MpegAudio.Laws.{parse_header_bounds}

abbrev mp3 : List ℕ
mp3 = 0xff ∷ 0xfb ∷ 0x90 ∷ 0x00 ∷ 0 ∷ 0 ∷ []

mp3-valid : fields_valid (header_fields mp3 0) ≡ true
unfolding fields_valid header_fields
mp3-valid = refl

parse_header_bounds_example :
    (h : Header) × (parse_header mp3 0 ≡ some h) × (24 ≤ h.frame_length) × (h.frame_length ≤ 1729)
parse_header_bounds_example = parse_header_bounds mp3 0 (omega arith) (omega arith) mp3-valid

abbrev empty_track : Track ℕ
empty_track = record { config = []; channel_count = 0; samplerate = 0; samples = []; len = 0 }

-- A whole clock for the time stamps.
abbrev stamp : ℕ → ℕ → ℕ → ℕ
stamp pts i rate = pts + i * (1152 * 90000 / rate)
