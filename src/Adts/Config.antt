-- ===== src/Adts/Config.antt =====
-- The AudioSpecificConfig that `getAudioConfig` writes, read back by the bit layout of ISO 14496-3.
use v4l2rtspserver.Base.{
  ℕ, ◌+◌, ◌*◌, ◌/◌, ◌%◌, ◌≤◌, ◌<◌, ◌≡◌, refl, Bool, true, false, ◌&&◌, Option, none, some, List,
  ◌==◌, ltb, leb, if◌then◌else◌, get_elem?, length, All, bit_and, bit_or, arith, ltb→lt,
  get_elem?-out_of_range, get_elem?-in_range, All-get_elem?, ◌⊎◌, inl, inr,
}
use native.Mathlib.Decide.{dec_lt}
use Prim.Native.String.{String}
use v4l2rtspserver.Base.Bytes.{byte_at-lt, byte_at, IsByte, holds_below, holds_below_lem}
use v4l2rtspserver.Base.Yields.{some-Yields, bind-Yields}
use v4l2rtspserver.Adts.{
  Browser, AudioConfig, Choice, adts_sampling_rates, less_three, choose, choose_sbr, choose_plain,
  specific_config, sampling_index, channel_config, get_audio_config, Track, init_track_config,
}

-- The fields of the bit stream: five bits of object type, four of sampling index, four of channels, and
-- for the object type 5 four of the extension's index and five of its object type.
abbrev pub read_object_type : List ℕ → ℕ
read_object_type config = byte_at config 0 / 8

abbrev pub read_index : List ℕ → ℕ
read_index config = byte_at config 0 % 8 * 2 + byte_at config 1 / 128

abbrev pub read_channels : List ℕ → ℕ
read_channels config = byte_at config 1 / 8 % 16

abbrev pub read_extension_index : List ℕ → ℕ
read_extension_index config = byte_at config 1 % 8 * 2 + byte_at config 2 / 128

abbrev pub read_extension_type : List ℕ → ℕ
read_extension_type config = byte_at config 2 / 4 % 32

-- What the config of a choice must read back as.
pub record Decodes (config : List ℕ) (object_type index channels extension : ℕ) : Type 0 where
  pub object : read_object_type config ≡ object_type
  pub rate : read_index config ≡ index
  pub channel : read_channels config ≡ channels
  pub extended : read_extension_index config ≡ (if object_type == 5 then extension else 0)
  pub core : read_extension_type config ≡ (if object_type == 5 then 2 else 0)
  pub size : length config ≡ (if object_type == 5 then 4 else 2)

decodes : List ℕ → ℕ → ℕ → ℕ → ℕ → Bool
decodes config object_type index channels extension =
    read_object_type config == object_type
    && read_index config == index
    && read_channels config == channels
    && read_extension_index config == (if object_type == 5 then extension else 0)
    && read_extension_type config == (if object_type == 5 then 2 else 0)
    && length config == (if object_type == 5 then 4 else 2)

decodes-Decodes :
    (config : List ℕ) (o i c e : ℕ) → decodes config o i c e ≡ true → Decodes config o i c e
unfolding decodes
decodes-Decodes config o i c e h = ground arith

abbrev ChoiceDecodes : ℕ → ℕ → Choice → Type 0
ChoiceDecodes i c ch =
    Decodes (specific_config ch.object_type i c ch.extension_index) ch.object_type i c
      (ch.extension_index % 16)

-- The choices that the browsers make.
abbrev sbr : ℕ → Choice
sbr i = record { object_type = 5; extension_index = less_three i }

abbrev forced : ℕ → Choice
forced i = record { object_type = 5; extension_index = i }

abbrev low_complexity : ℕ → Choice
low_complexity i = record { object_type = 2; extension_index = i }

choice_decodes : ℕ → ℕ → Choice → Bool
choice_decodes i c ch =
    decodes (specific_config ch.object_type i c ch.extension_index) ch.object_type i c
      (ch.extension_index % 16)

table_entry : ℕ → ℕ → Bool
table_entry i c =
    choice_decodes i c (sbr i)
    && choice_decodes i c (forced i)
    && choice_decodes i c (low_complexity i)

table : holds_below 16 (λ i. holds_below 8 (λ c. table_entry i c)) ≡ true
unfolding holds_below table_entry choice_decodes decodes specific_config
table = refl

and_true : (x y z : Bool) → (x && y && z) ≡ true → (x ≡ true) × (y ≡ true) × (z ≡ true)
and_true x y z h = ground arith

at_table :
    (i c : ℕ)
    → i < 16
    → c < 8
    → ChoiceDecodes i c (sbr i)
      × ChoiceDecodes i c (forced i)
      × ChoiceDecodes i c (low_complexity i)
unfolding table_entry choice_decodes
at_table i c hi hc =
    let row = holds_below_lem 16 (λ i. holds_below 8 (λ c. table_entry i c)) i table hi in
    let entry = holds_below_lem 8 (λ c. table_entry i c) c row hc in
    let (x, y, z) = and_true _ _ _ entry in
    (decodes-Decodes _ _ _ _ _ x, decodes-Decodes _ _ _ _ _ y, decodes-Decodes _ _ _ _ _ z)

if_choice : (P : Choice → Type 0) (b : Bool) {x y : Choice} → P x → P y → P (if b then x else y)
if_choice P true p q = p
if_choice P false p q = q

choose-Decodes :
    (browser : Browser) (codec : Option String) (i c : ℕ)
    → i < 16
    → c < 8
    → ChoiceDecodes i c (choose browser codec i c)
unfolding choose
choose-Decodes browser codec i c hi hc =
    let (s, f, l) = at_table i c hi hc in
    if_choice (ChoiceDecodes i c) browser.is_firefox (if_choice (ChoiceDecodes i c) (leb 6 i) s l) (
      if_choice (ChoiceDecodes i c) browser.is_android l (
        if_choice (ChoiceDecodes i c) (choose_sbr codec i) s
          (plain (choose_plain browser codec i c) f l)))
  where
    plain :
        (b : Bool)
        → ChoiceDecodes i c (forced i)
        → ChoiceDecodes i c (low_complexity i)
        → ChoiceDecodes i c (record { object_type = if b then 2 else 5; extension_index = i })
    plain true f l = l
    plain false f l = f

masks :
    holds_below 256
      (λ b. ltb (bit_and b 0x3C / 4) 16 && ltb (bit_and b 0x01) 2 && ltb (bit_and b 0xC0 / 64) 4)
    ≡ true
unfolding holds_below
masks = refl

mask_bounds :
    (b : ℕ) → b < 256 → (bit_and b 0x3C / 4 < 16) × (bit_and b 0x01 < 2) × (bit_and b 0xC0 / 64 < 4)
mask_bounds b h =
    let (x, y, z) = and_true _ _ _ (holds_below_lem 256 _ b masks h) in
    (ltb→lt _ _ x, ltb→lt _ _ y, ltb→lt _ _ z)

channel_table : holds_below 2 (λ x. holds_below 4 (λ y. ltb (bit_or (x * 4) y) 8)) ≡ true
unfolding holds_below
channel_table = refl

channel-lt : (x y : ℕ) → x < 2 → y < 4 → bit_or (x * 4) y < 8
channel-lt x y hx hy = ltb→lt _ _ (
    holds_below_lem 4 _ y
      (holds_below_lem 2 (λ x. holds_below 4 (λ y. ltb (bit_or (x * 4) y) 8)) x channel_table hx)
      hy)

sampling_index-lt :
    (bytes : List ℕ) (offset : ℕ) → All IsByte bytes → sampling_index bytes offset < 16
unfolding sampling_index
sampling_index-lt bytes offset h = (mask_bounds _ (byte_at-lt bytes (offset + 2) h)).0

channel_config-lt :
    (bytes : List ℕ) (offset : ℕ) → All IsByte bytes → channel_config bytes offset < 8
unfolding channel_config
channel_config-lt bytes offset h =
    channel-lt _ _ (mask_bounds _ (byte_at-lt bytes (offset + 2) h)).1
      (mask_bounds _ (byte_at-lt bytes (offset + 3) h)).2

-- What the result says of the header, for a sampling index, channels and the choice made from them.
pub record IsConfigOf (index channels : ℕ) (c : Choice) (r : AudioConfig) : Type 0 where
  pub rate : get_elem? adts_sampling_rates index ≡ some r.samplerate
  pub count : r.channel_count ≡ channels
  pub object : r.codec ≡ c.object_type
  pub decoded : Decodes r.config r.codec index channels (c.extension_index % 16)

-- If `getAudioConfig` returns, the sampling rate and the channels are the header's, and the config that
-- it wrote reads back as the chosen object type, the header's sampling index and channels, and for the
-- object type 5 the low four bits of the chosen extension index above the core type 2.
pub get_audio_config_decodes :
    (browser : Browser) (bytes : List ℕ) (offset : ℕ) (codec : Option String) (r : AudioConfig)
    → All IsByte bytes
    → get_audio_config browser bytes offset codec ≡ some r
    → IsConfigOf
        (sampling_index bytes offset)
        (channel_config bytes offset)
        (choose browser codec (sampling_index bytes offset) (channel_config bytes offset))
        r
unfolding get_audio_config
get_audio_config_decodes browser bytes offset codec r h =
    bind-Yields (λ rate. get_elem? adts_sampling_rates index ≡ some rate)
      (IsConfigOf index channels (choose browser codec index channels))
      (get_elem? adts_sampling_rates index) (λ rate. some (result rate)) (λ rate e. e)
      (λ rate e.
        some-Yields (IsConfigOf index channels (choose browser codec index channels)) (result rate)
          (record {
            rate = e;
            count = refl;
            object = refl;
            decoded =
                choose-Decodes browser codec index channels (sampling_index-lt bytes offset h)
                  (channel_config-lt bytes offset h);
          }))
      r
  where
    index : ℕ
    index = sampling_index bytes offset

    channels : ℕ
    channels = channel_config bytes offset

    result : ℕ → AudioConfig
    result rate =
        let c = choose browser codec index channels in
        record {
          config = specific_config c.object_type index channels c.extension_index;
          samplerate = rate;
          channel_count = channels;
          codec = c.object_type;
          manifest_codec = codec;
        }

rates-All : All (λ rate. 1 ≤ rate) adts_sampling_rates
rates-All = (
  omega arith,
  (
    omega arith,
    (
      omega arith,
      (
        omega arith,
        (
          omega arith,
          (
            omega arith,
            (
              omega arith,
              (
                omega arith,
                (omega arith, (omega arith, (omega arith, (omega arith, (omega arith, tt))))),
              ),
            ),
          ),
        ),
      ),
    ),
  ),
)

-- `initTrackConfig` throws exactly on a track whose sampling rate is not known yet, if the sampling index
-- of the header is 13 or more. With a smaller index it gives such a track a rate and keeps its samples, and
-- a later call, on any data, leaves the track as it is. It leaves a track with a rate as it is.
pub init_track_config_throws :
    {T : Type 0} (browser : Browser) (track : Track T) (bytes : List ℕ) (offset : ℕ)
    (codec : Option String) (later : List ℕ) (start : ℕ) (later_codec : Option String)
    → ((track.samplerate ≡ 0)
        × (13 ≤ sampling_index bytes offset)
        × (init_track_config browser track bytes offset codec ≡ none))
      ⊎ ((track.samplerate ≡ 0)
          × (sampling_index bytes offset < 13)
          × ((track' : Track T) × (init_track_config browser track bytes offset codec ≡ some track')
              × (1 ≤ track'.samplerate)
              × (track'.samples ≡ track.samples)
              × (init_track_config browser track' later start later_codec ≡ some track')))
      ⊎ ((1 ≤ track.samplerate) × (init_track_config browser track bytes offset codec ≡ some track))
unfolding init_track_config get_audio_config
init_track_config_throws {T} browser track bytes offset codec later start later_codec =
    elim (dec_lt 0 track.samplerate) [
      | yes known ↦
          let set : (track.samplerate == 0) ≡ false = ground arith in inr (inr (known, rw set))
      | no unknown ↦
          let z : track.samplerate ≡ 0 = omega arith in
          elim (dec_lt (sampling_index bytes offset) 13) [
            | yes small ↦
                let (rate, found) =
                  get_elem?-in_range adts_sampling_rates (sampling_index bytes offset) small in
                let positive =
                  All-get_elem? (λ r. 1 ≤ r) adts_sampling_rates (sampling_index bytes offset)
                    rates-All found in
                let set : (rate == 0) ≡ false = ground arith in
                inr (inl (z, small, (configured rate, rw (z, found), positive, refl, rw set)))
            | no large ↦
                let h : 13 ≤ sampling_index bytes offset = omega arith in
                inl (
                  z,
                  h,
                  rw (
                    z,
                    get_elem?-out_of_range adts_sampling_rates (sampling_index bytes offset) h,
                  ),
                )
          ]
    ]
  where
    index : ℕ
    index = sampling_index bytes offset

    channels : ℕ
    channels = channel_config bytes offset

    configured : ℕ → Track T
    configured rate =
        let c = choose browser codec index channels in
        record track {
          config = specific_config c.object_type index channels c.extension_index;
          samplerate = rate;
          channel_count = channels;
          codec = some c.object_type;
          manifest_codec = codec;
        }
