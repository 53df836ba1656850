-- ===== src/Mp4/InitSegment.antt =====
-- The demuxer's reading of the generator's initialisation segments.
use v4l2rtspserver.Base.{
  ℕ, ◌+◌, ◌≡◌, ◌<◌, refl, sym, ap, ◌∙◌, false, Bool-cases, inl, inr, some, List, [], ◌∷◌, ◌++◌, map,
  length, drop, All, ◌==◌, arith,
}
use mathlib.Core.Option.{some-injective}
use mathlib.Core.List.{append-nil}
use v4l2rtspserver.Mp4.{concat, box}
use v4l2rtspserver.Mp4.Types
use v4l2rtspserver.Mp4.Generator.{
  Track, ftyp_box, mvhd, mvex, trex, trak, with_duration, mvhd_bytes, moov, init_segment,
}
use v4l2rtspserver.Mp4.Demuxer.{
  same_type, Found, whole, find_path, InitData, no_init_data, with_track, parse_traks,
  parse_init_segment,
}
use v4l2rtspserver.Mp4.Find.{
  Entry, IsEntry, size, entry_bytes, entries_bytes, places, find_path-places, entry_at,
}
use v4l2rtspserver.Mp4.Fragments.{FourCharacters, entries_fit}
use v4l2rtspserver.Mp4.Traks.{trak_entry, parse_trak-trak_found}

-- What the tracks say of themselves, entered one after the other.
unfoldable pub add_tracks : InitData → List Track → InitData
add_tracks result [] = result
add_tracks result (t ∷ tracks) = add_tracks (with_track result t.id t.timescale t.type) tracks

-- The number of the track and its time scale fit their fields.
pub record Fits (t : Track) : Type 0 where
  pub id : t.id < 4294967296
  pub timescale : t.timescale < 4294967296

with_duration-Fits : (t : Track) → Fits t → Fits (with_duration t)
unfolding with_duration
with_duration-Fits t h = elim (Bool-cases (t.duration == 0)) [
  | inl none_given ↦ rw none_given (record { id = h.id; timescale = h.timescale })
  | inr given ↦ rw given h
]

with_duration_says :
    (result : InitData) (t : Track)
    → with_track result (with_duration t).id (with_duration t).timescale (with_duration t).type
      ≡ with_track result t.id t.timescale t.type
unfolding with_duration
with_duration_says result t = elim (Bool-cases (t.duration == 0)) [
  | inl none_given ↦ rw none_given
  | inr given ↦ rw given
]

add_tracks-with_duration :
    (result : InitData) (tracks : List Track)
    → add_tracks result (map with_duration tracks) ≡ add_tracks result tracks
unfolding add_tracks
add_tracks-with_duration result [] = refl
add_tracks-with_duration result (t ∷ tracks) =
    rw (add_tracks, with_duration_says result t)
      (add_tracks-with_duration (with_track result t.id t.timescale t.type) tracks)

All-with_duration : (tracks : List Track) → All Fits tracks → All Fits (map with_duration tracks)
All-with_duration [] h = tt
All-with_duration (t ∷ tracks) h = (with_duration-Fits t h.0, All-with_duration tracks h.1)

-- The boxes of the tracks, and one of another type.
unfoldable pub trak_entries : List Track → Entry → List Entry
trak_entries [] last = last ∷ []
trak_entries (t ∷ tracks) last = trak_entry t ∷ trak_entries tracks last

parse_traks-places :
    (tracks : List Track) (last : Entry) (bytes rest : List ℕ) (i : ℕ) (result : InitData)
    → same_type last.type Types.trak ≡ false
    → All Fits tracks
    → All IsEntry (trak_entries tracks last)
    → drop i bytes ≡ entries_bytes (trak_entries tracks last) ++ rest
    → parse_traks result (places bytes i (trak_entries tracks last) Types.trak (λ f. f ∷ []))
      ≡ add_tracks result tracks
unfolding trak_entries places parse_traks add_tracks same_type
parse_traks-places [] last bytes rest i result other h fits at = rw other
parse_traks-places (t ∷ tracks) last bytes rest i result other h fits at =
    let (inside, after) =
      entry_at bytes rest i (trak_entry t) (trak_entries tracks last) fits.0 at in
    let end : i + 8 + length (concat (trak_entry t).payload) ≡ i + size (trak_entry t) =
      omega arith in
    let first = rw end at (
      parse_trak-trak_found t bytes (entries_bytes (trak_entries tracks last) ++ rest) (i + 8)
        inside fits.0 result h.0.id h.0.timescale) in
    rw first (
      parse_traks-places tracks last bytes rest (i + size (trak_entry t))
        (with_track result t.id t.timescale t.type) other h.1 fits.1 after)

abbrev ftyp_entry : Entry
ftyp_entry = record {
  type = Types.ftyp;
  payload =
      (105 ∷ 115 ∷ 111 ∷ 109 ∷ [])
      ∷ (0 ∷ 0 ∷ 0 ∷ 1 ∷ [])
      ∷ (105 ∷ 115 ∷ 111 ∷ 109 ∷ [])
      ∷ (97 ∷ 118 ∷ 99 ∷ 49 ∷ [])
      ∷ [];
}

concat-trak_entries :
    (tracks : List Track) (type : List ℕ) (payload : List (List ℕ))
    → concat (map trak tracks ++ (box type payload ∷ []))
      ≡ entries_bytes (trak_entries tracks (record { type = type; payload = payload }))
unfolding concat trak_entries entries_bytes entry_bytes trak
concat-trak_entries [] type payload = refl
concat-trak_entries (t ∷ tracks) type payload =
    ap (λ (rest : List ℕ). trak t ++ rest) (concat-trak_entries tracks type payload)

module _ (track : Track) (tracks : List Track) where
  abbrev all_tracks : List Track
  all_tracks = map with_duration (track ∷ tracks)

  abbrev mvex_entry : Entry
  mvex_entry = record { type = Types.mvex; payload = map trex all_tracks }

  abbrev mvhd_payload : List ℕ
  mvhd_payload = mvhd_bytes (with_duration track)

  abbrev mvhd_entry : Entry
  mvhd_entry = record { type = Types.mvhd; payload = mvhd_payload ∷ [] }

  abbrev moov_entries : List Entry
  moov_entries = mvhd_entry ∷ trak_entries all_tracks mvex_entry

  abbrev moov_entry : Entry
  moov_entry = record {
    type = Types.moov;
    payload = mvhd (with_duration track) ∷ (map trak all_tracks ++ (mvex all_tracks ∷ []));
  }

  abbrev segment : List ℕ
  segment = entries_bytes (ftyp_entry ∷ moov_entry ∷ [])

  moov_payload : concat moov_entry.payload ≡ entries_bytes moov_entries
  unfolding concat entries_bytes entry_bytes mvhd mvex
  moov_payload =
      ap (λ (rest : List ℕ). mvhd (with_duration track) ++ rest)
        (concat-trak_entries all_tracks Types.mvex (map trex all_tracks))

  segment_lem : init_segment (track ∷ tracks) ≡ some segment
  unfolding init_segment moov entries_bytes entry_bytes ftyp_box
  segment_lem =
      ap (λ (movie : List ℕ). some (ftyp_box ++ movie)) (sym (append-nil (entry_bytes moov_entry)))

  All-trak_entries : (ts : List Track) → All FourCharacters (trak_entries ts mvex_entry)
  unfolding trak_entries
  All-trak_entries [] = (refl, tt)
  All-trak_entries (t ∷ ts) = (refl, All-trak_entries ts)

  module _ (fits : length segment < 4294967296) where
    segment_IsEntry : All IsEntry (ftyp_entry ∷ moov_entry ∷ [])
    segment_IsEntry = entries_fit (ftyp_entry ∷ moov_entry ∷ []) (refl, (refl, tt)) fits

    moov_IsEntry : All IsEntry moov_entries
    moov_IsEntry =
        entries_fit moov_entries (refl, All-trak_entries all_tracks)
          (omega (arith, ap length moov_payload, segment_IsEntry.1.0.fits))

    at_moov :
        drop (0 + size ftyp_entry + 8) segment
        ≡ concat moov_entry.payload ++ (entries_bytes [] ++ [])
    at_moov =
        let start =
          entry_at segment [] 0 ftyp_entry (moov_entry ∷ []) segment_IsEntry.0
            (sym (append-nil segment)) in
        (entry_at segment [] (0 + size ftyp_entry) moov_entry [] segment_IsEntry.1.0 start.1).0

    in_moov :
        drop (0 + size ftyp_entry + 8) segment
        ≡ entries_bytes moov_entries ++ (entries_bytes [] ++ [])
    in_moov = at_moov ∙ ap (λ (t : List ℕ). t ++ (entries_bytes [] ++ [])) moov_payload

    abbrev at_traks : ℕ
    at_traks = 0 + size ftyp_entry + 8 + size mvhd_entry

    find_traks :
        find_path Types.moov (Types.trak ∷ []) (whole segment)
        ≡ places segment at_traks (trak_entries all_tracks mvex_entry) Types.trak (λ f. f ∷ [])
          ++ []
    unfolding whole places same_type
    find_traks =
        (find_path-places segment [] 0 (length segment) (ftyp_entry ∷ moov_entry ∷ [])
            segment_IsEntry (sym (append-nil segment)) (omega arith) Types.moov).1
          Types.trak []
        ∙ ap (λ (t : List Found). t ++ [])
            (find_path-places segment (entries_bytes [] ++ []) (0 + size ftyp_entry + 8)
              (0 + size ftyp_entry + size moov_entry) moov_entries moov_IsEntry in_moov
              (omega (arith, ap length moov_payload)) Types.trak).0

    traks_at :
        drop at_traks segment
        ≡ entries_bytes (trak_entries all_tracks mvex_entry) ++ (entries_bytes [] ++ [])
    traks_at =
        (entry_at segment (entries_bytes [] ++ []) (0 + size ftyp_entry + 8) mvhd_entry
          (trak_entries all_tracks mvex_entry) moov_IsEntry.0 in_moov).1

    parse_segment :
        All Fits (track ∷ tracks)
        → parse_init_segment segment ≡ add_tracks no_init_data (track ∷ tracks)
    unfolding parse_init_segment same_type
    parse_segment h =
        let traks =
          places segment at_traks (trak_entries all_tracks mvex_entry) Types.trak (λ f. f ∷ []) in
        ap (parse_traks no_init_data) (find_traks ∙ append-nil traks)
        ∙ parse_traks-places all_tracks mvex_entry segment (entries_bytes [] ++ []) at_traks
            no_init_data refl (All-with_duration (track ∷ tracks) h) moov_IsEntry.1 traks_at
        ∙ add_tracks-with_duration no_init_data (track ∷ tracks)

-- The demuxer reads back the number, the time scale and the kind of each track from the segment
-- that the generator makes of one or more tracks, if the numbers, the time scales and the length of
-- the segment fit 32 bits.
pub parse_init_segment-init_segment :
    (track : Track) (tracks : List Track) (bytes : List ℕ)
    → init_segment (track ∷ tracks) ≡ some bytes
    → All Fits (track ∷ tracks)
    → length bytes < 4294967296
    → parse_init_segment bytes ≡ add_tracks no_init_data (track ∷ tracks)
parse_init_segment-init_segment track tracks bytes made h fits =
    let same : segment track tracks ≡ bytes =
      some-injective _ _ (sym (segment_lem track tracks) ∙ made) in
    rw same at (parse_segment track tracks (omega (arith, ap length same)) h)
