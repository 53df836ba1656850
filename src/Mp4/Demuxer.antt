-- ===== src/Mp4/Demuxer.antt =====
-- `MP4Demuxer`: the search for boxes, the tracks of an initialisation segment, and the start of a fragment.
use v4l2rtspserver.Base.{
  ℕ, zero, suc, ◌+◌, ◌-◌, ◌*◌, ◌/◌, ◌%◌, set, Bool, true, false, ◌&&◌, ◌||◌, Option, none, some,
  List, [], ◌∷◌, ◌++◌, length, take, drop, ltb, leb, ◌==◌, if◌then◌else◌, ◌>>=◌,
}
use v4l2rtspserver.Base.Bytes.{byte_at}
use v4l2rtspserver.Base.Int.{ℤ, pos, negsuc, sub_ℕ, ◌-ℤ◌, pattern32}
use v4l2rtspserver.Mp4.{read_uint32}
use v4l2rtspserver.Mp4.Types
use v4l2rtspserver.Mp4.Generator.{TrackType, audio, video}

-- `===` of strings, that are lists of the codes of their characters; `bin2str` is the bytes themselves.
unfoldable pub same_type : List ℕ → List ℕ → Bool
same_type [] [] = true
same_type [] (b ∷ bs) = false
same_type (a ∷ as') [] = false
same_type (a ∷ as') (b ∷ bs) = a == b && same_type as' bs

-- `subarray(start, end)`
unfoldable pub subarray : List ℕ → ℕ → ℕ → List ℕ
subarray bytes start end = take (end - start) (drop start bytes)

unfoldable pub probe : List ℕ → Bool
probe bytes =
    let data_type = subarray bytes 4 8 in
    leb 8 (length bytes)
    && (same_type data_type Types.moof
        || same_type data_type Types.ftyp
        || same_type data_type Types.styp)

-- The content of a box that was found.
pub record Found : Type 0 where
  pub bytes : List ℕ
  pub start : ℕ
  pub end : ℕ

-- `readUint32` in a box, and its `data[start + offset]`.
unfoldable pub read_in : Found → ℕ → ℕ
read_in found offset = read_uint32 found.bytes (found.start + offset)

unfoldable pub version_of : Found → ℕ
version_of found = byte_at found.bytes found.start

unfoldable pub whole : List ℕ → Found
whole bytes = record { bytes = bytes; start = 0; end = length bytes }

-- The end of the box at `i`: a size of 0 or 1 stands for all that is left.
unfoldable pub end_of_box : List ℕ → ℕ → ℕ → ℕ
end_of_box bytes i end = let size = read_uint32 bytes i in if ltb 1 size then i + size else end

-- The loop of `findBox`, on fuel. `more` makes the results of a box of the type.
unfoldable pub find_from : (fuel : ℕ) → List ℕ → ℕ → ℕ → List ℕ → (Found → List Found) → List Found
find_from zero bytes i end type more = []
find_from (suc fuel) bytes i end type more =
    let endbox = end_of_box bytes i end in
    let rest = find_from fuel bytes endbox end type more in
    let here : List Found =
      if same_type (subarray bytes (i + 4) (i + 8)) type
      then more (record { bytes = bytes; start = i + 8; end = endbox })
      else [] in
    if ltb i end then here ++ rest else []

abbrev pub find_fuel : List ℕ → ℕ
find_fuel bytes = length bytes + 1

-- `findBox` for a path that starts with `type`.
unfoldable pub find_path : List ℕ → List (List ℕ) → Found → List Found
find_path type [] region =
    find_from (find_fuel region.bytes) region.bytes region.start region.end type (λ f. f ∷ [])
find_path type (next ∷ path) region =
    find_from (find_fuel region.bytes) region.bytes region.start region.end type
      (find_path next path)

unfoldable pub find_box : Found → List (List ℕ) → Option (List Found)
find_box region [] = none
find_box region (type ∷ path) = some (find_path type path region)

unfoldable pub first : List Found → Option Found
first [] = none
first (f ∷ fs) = some f

-- The entries of `initData`: by track number, and by kind.
pub record TrackInfo : Type 0 where
  pub timescale : ℕ
  pub type : TrackType

pub record KindInfo : Type 0 where
  pub timescale : ℕ
  pub id : ℕ

pub record InitData : Type 0 where
  pub tracks : List (ℕ × TrackInfo)
  pub audio_info : Option KindInfo
  pub video_info : Option KindInfo

abbrev pub no_init_data : InitData
no_init_data = record { tracks = []; audio_info = none; video_info = none }

-- An entry hides the older ones of its number.
unfoldable pub lookup : List (ℕ × TrackInfo) → ℕ → Option TrackInfo
lookup [] id = none
lookup (entry ∷ tracks) id = if entry.0 == id then some entry.1 else lookup tracks id

unfoldable pub with_track : InitData → ℕ → ℕ → TrackType → InitData
with_track result id timescale audio = record result {
  tracks = (id, record { timescale = timescale; type = audio }) ∷ result.tracks;
  audio_info = some (record { timescale = timescale; id = id });
}
with_track result id timescale video = record result {
  tracks = (id, record { timescale = timescale; type = video }) ∷ result.tracks;
  video_info = some (record { timescale = timescale; id = id });
}

abbrev soun : List ℕ
soun = 115 ∷ 111 ∷ 117 ∷ 110 ∷ []

abbrev vide : List ℕ
vide = 118 ∷ 105 ∷ 100 ∷ 101 ∷ []

unfoldable pub kind_of : List ℕ → Option TrackType
kind_of hdlr_type =
    if same_type hdlr_type soun
    then some audio
    else if same_type hdlr_type vide
    then some video
    else none

unfoldable pub index_of_version : ℕ → ℕ
index_of_version version = if version == 0 then 12 else 20

-- The body of the loop over the tracks: a box that is missing ends it.
unfoldable pub parse_trak : InitData → Found → InitData
parse_trak result trak = or_same do
  tkhd ← first (find_path Types.tkhd [] trak)
  let track_id = read_in tkhd (index_of_version (version_of tkhd))
  mdhd ← first (find_path Types.mdia (Types.mdhd ∷ []) trak)
  let timescale = read_in mdhd (index_of_version (version_of mdhd))
  hdlr ← first (find_path Types.mdia (Types.hdlr ∷ []) trak)
  type ← kind_of (subarray hdlr.bytes (hdlr.start + 8) (hdlr.start + 12))
  some (with_track result track_id timescale type)
  where
    or_same : Option InitData → InitData
    or_same none = result
    or_same (some result') = result'

unfoldable pub parse_traks : InitData → List Found → InitData
parse_traks result [] = result
parse_traks result (trak ∷ traks) = parse_traks (parse_trak result trak) traks

unfoldable pub parse_init_segment : List ℕ → InitData
parse_init_segment bytes =
    parse_traks no_init_data (find_path Types.moov (Types.trak ∷ []) (whole bytes))

-- A time in seconds, `ticks / scale`; `none` is NaN, for a fragment without a time.
abbrev pub Time : Type 0
Time = Option (ℕ × ℕ)

unfoldable pub decode_time : Found → ℕ
decode_time tfdt =
    if version_of tfdt == 1 then read_in tfdt 4 * 4294967296 + read_in tfdt 8 else read_in tfdt 4

-- The scale of a track, 90 kHz if it has none; a number without a track throws.
unfoldable pub scale_of : InitData → ℕ → Option ℕ
scale_of init_data id = lookup init_data.tracks id >>= λ info.
    some (if info.timescale == 0 then 90000 else info.timescale)

unfoldable pub base_time : Found → ℕ → Time
base_time traf scale =
    first (find_path Types.tfdt [] traf) >>= λ tfdt. some (decode_time tfdt, scale)

unfoldable pub base_times_of : InitData → Found → List Found → Option (List Time)
base_times_of init_data traf [] = some []
base_times_of init_data traf (tfhd ∷ tfhds) = do
  scale ← scale_of init_data (read_in tfhd 4)
  times ← base_times_of init_data traf tfhds
  some (base_time traf scale ∷ times)

unfoldable pub base_times : InitData → List Found → Option (List Time)
base_times init_data [] = some []
base_times init_data (traf ∷ trafs) = do
  times ← base_times_of init_data traf (find_path Types.tfhd [] traf)
  more ← base_times init_data trafs
  some (times ++ more)

-- `Math.min`: NaN wins; the least of two times of positive scales.
unfoldable pub min_time : Time → Time → Time
min_time none t = none
min_time (some a) none = none
min_time (some a) (some b) = some (if ltb (b.0 * a.1) (a.0 * b.1) then b else a)

unfoldable pub min_times : Time → List Time → Time
min_times t [] = t
min_times t (u ∷ times) = min_times (min_time t u) times

-- What is not finite, as the least of no times or NaN, becomes 0.
unfoldable pub finite_min : List Time → ℕ × ℕ
finite_min [] = (0, 1)
finite_min (t ∷ times) = finite (min_times t times)
  where
    finite : Time → ℕ × ℕ
    finite none = (0, 1)
    finite (some r) = r

unfoldable pub get_start_dts : InitData → List ℕ → Option (ℕ × ℕ)
get_start_dts init_data fragment = do
  times ← base_times init_data (find_path Types.moof (Types.traf ∷ []) (whole fragment))
  some (finite_min times)

-- The shared bytes of a box as they are now.
abbrev pub now : List ℕ → Found → Found
now bytes found = record found { bytes = bytes }

unfoldable pub write_uint32 : List ℕ → ℕ → ℤ → List ℕ
write_uint32 buffer offset value =
    let n = pattern32 value in
    set
      (set (set (set buffer offset (n / 16777216)) (offset + 1) (n / 65536 % 256)) (offset + 2)
        (n / 256 % 256))
      (offset + 3) (n % 256)

-- `Math.floor` of the quotient by 2 ^ 32, and the remainder, which has the sign of the dividend.
unfoldable pub upper_word : ℤ → ℤ
upper_word (pos n) = pos (n / 4294967296)
upper_word (negsuc n) = negsuc (n / 4294967296)

unfoldable pub lower_word : ℤ → ℤ
lower_word (pos n) = pos (n % 4294967296)
lower_word (negsuc n) = sub_ℕ 0 ((n + 1) % 4294967296)

-- `offset` is `timeOffset * timescale`, in whole units of the time scale.
unfoldable pub offset_tfdt : ℤ → List ℕ → Found → List ℕ
offset_tfdt offset bytes tfdt =
    let here = now bytes tfdt in
    let time = pos (read_in here 4) -ℤ offset in
    let long_time = pos (read_in here 4 * 4294967296 + read_in here 8) -ℤ offset in
    if version_of here == 0
    then write_uint32 bytes (tfdt.start + 4) time
    else write_uint32 (write_uint32 bytes (tfdt.start + 4) (upper_word long_time)) (tfdt.start + 8)
        (lower_word long_time)

unfoldable pub offset_tfdts : ℤ → List ℕ → List Found → List ℕ
offset_tfdts offset bytes [] = bytes
offset_tfdts offset bytes (tfdt ∷ tfdts) = offset_tfdts offset (offset_tfdt offset bytes tfdt) tfdts

-- `offset_of` gives `timeOffset * timescale` for a time scale.
unfoldable pub offset_tfhds : InitData → (ℕ → ℤ) → List ℕ → Found → List Found → Option (List ℕ)
offset_tfhds init_data offset_of bytes traf [] = some bytes
offset_tfhds init_data offset_of bytes traf (tfhd ∷ tfhds) = do
  scale ← scale_of init_data (read_in (now bytes tfhd) 4)
  let bytes' = offset_tfdts (offset_of scale) bytes (find_path Types.tfdt [] (now bytes traf))
  offset_tfhds init_data offset_of bytes' traf tfhds

unfoldable pub offset_trafs : InitData → (ℕ → ℤ) → List ℕ → List Found → Option (List ℕ)
offset_trafs init_data offset_of bytes [] = some bytes
offset_trafs init_data offset_of bytes (traf ∷ trafs) = do
  bytes' ← offset_tfhds init_data offset_of bytes traf (find_path Types.tfhd [] (now bytes traf))
  offset_trafs init_data offset_of bytes' trafs

unfoldable pub offset_start_dts : InitData → (ℕ → ℤ) → List ℕ → Option (List ℕ)
offset_start_dts init_data offset_of fragment =
    offset_trafs init_data offset_of fragment
      (find_path Types.moof (Types.traf ∷ []) (whole fragment))
