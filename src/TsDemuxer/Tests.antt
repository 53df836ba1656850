-- ===== src/TsDemuxer/Tests.antt =====
-- Runs on a packet with a presentation time.
use v4l2rtspserver.Base.{ℕ, ◌≡◌, ◌≤◌, refl, true, some, List, [], ◌∷◌, length, replicate, arith}
use v4l2rtspserver.Base.Int.{pos}
use v4l2rtspserver.TsDemuxer.{
  probe, merge_head, time_at, times_of, trim, pes_data, parse_merged, parse_pes,
}
use v4l2rtspserver.TsDemuxer.Chunks.{concat, parse_pes-concat}

-- The time 90000, and a payload of 7, 8 and 9, behind two stuffing bytes.
abbrev head_chunk : List ℕ
head_chunk = 0 ∷ 0 ∷ 1 ∷ 224 ∷ 0 ∷ 0 ∷ 128 ∷ 128 ∷ 7 ∷ 33 ∷ 0 ∷ 5 ∷ []

abbrev tail_chunk : List ℕ
tail_chunk = 191 ∷ 33 ∷ 255 ∷ 255 ∷ 7 ∷ 8 ∷ 9 ∷ []

packet_length : 19 ≤ length (concat (head_chunk ∷ tail_chunk ∷ []))
unfolding concat
packet_length = omega arith

parse_pes-concat_example :
    parse_pes (head_chunk ∷ tail_chunk ∷ []) 19
    ≡ parse_pes (concat (head_chunk ∷ tail_chunk ∷ []) ∷ []) 19
parse_pes-concat_example = parse_pes-concat head_chunk (tail_chunk ∷ []) 19 packet_length

packet_run :
    parse_pes (head_chunk ∷ tail_chunk ∷ []) 19
    ≡ some (
        some (record {
          bytes = 7 ∷ 8 ∷ 9 ∷ [];
          pts = some (pos 90000);
          dts = some (pos 90000);
          len = pos 0;
        }))
unfolding parse_pes merge_head parse_merged times_of time_at pes_data trim
packet_run = refl

probe_run : probe (replicate 564 71) ≡ true
unfolding probe
probe_run = refl
