-- ===== src/Mp4/Fragments.antt =====
-- The boxes of a fragment that the generator makes, and what the demuxer finds in it.
use v4l2rtspserver.Base.{
  ℕ, ◌+◌, ◌*◌, ◌/◌, ◌%◌, ◌≡◌, ◌≤◌, ◌<◌, refl, sym, ap, ◌∙◌, false, some, List, [], ◌∷◌, ◌++◌, map,
  length, drop, replicate, get_or, All, ◌==◌, arith, length-append,
}
use mathlib.Core.List.{append-nil}
use v4l2rtspserver.Mp4.{word_bytes, concat, box}
use v4l2rtspserver.Mp4.Types
use v4l2rtspserver.Mp4.Words.{get_or-drop, drop_on, read_at}
use v4l2rtspserver.Mp4.Generator.{
  Track, Sample, long_bytes, mfhd, tfhd, tfdt, trun, sdtp, sdtp_byte, traf, moof, mdat,
  samples_bytes,
}
use v4l2rtspserver.Mp4.Demuxer.{
  same_type, Found, whole, find_path, read_in, version_of, InitData, TrackInfo, lookup, decode_time,
  scale_of, base_time, base_times_of, base_times, first, min_times, finite_min, get_start_dts,
}
use v4l2rtspserver.Mp4.Find.{
  Entry, IsEntry, size, entry_bytes, entries_bytes, places, find_path-places, entry_at,
}

abbrev pub FourCharacters : Entry → Type 0
FourCharacters e = length e.type ≡ 4

-- Boxes fit if all of them together do.
pub entries_fit :
    (es : List Entry)
    → All FourCharacters es
    → length (entries_bytes es) < 4294967296
    → All IsEntry es
unfolding entries_bytes entry_bytes box word_bytes
entries_fit [] h fits = tt
entries_fit (e ∷ es) h fits =
    let sum = length-append (entry_bytes e) (entries_bytes es) in
    let own : length (entry_bytes e) ≡ 8 + length (concat e.payload) =
      omega (arith, length-append e.type (concat e.payload), h.0) in
    (record { four = h.0; fits = omega (arith, sum, own) }, entries_fit es h.1 (omega (arith, sum)))

module _ (sn time : ℕ) (track : Track) (data_bytes : List ℕ) where
  abbrev pub fragment : List ℕ
  fragment = moof sn time track ++ mdat data_bytes

  abbrev mfhd_entry : Entry
  mfhd_entry = record { type = Types.mfhd; payload = (replicate 4 0 ++ word_bytes sn) ∷ [] }

  abbrev tfhd_entry : Entry
  tfhd_entry = record { type = Types.tfhd; payload = (replicate 4 0 ++ word_bytes track.id) ∷ [] }

  abbrev tfdt_entry : Entry
  tfdt_entry = record { type = Types.tfdt; payload = (1 ∷ 0 ∷ 0 ∷ 0 ∷ long_bytes time) ∷ [] }

  abbrev pub data_offset : ℕ
  data_offset =
      length (sdtp track) + 16 + 20 + 8 + 16 + 8 + 8 + (8 + (12 + 16 * length track.samples))

  abbrev trun_entry : Entry
  trun_entry = record {
    type = Types.trun;
    payload =
        (0
          ∷ 0
          ∷ 15
          ∷ 1
          ∷ (word_bytes (length track.samples)
              ++ (word_bytes data_offset ++ samples_bytes track.samples)))
        ∷ [];
  }

  abbrev sdtp_entry : Entry
  sdtp_entry = record {
    type = Types.sdtp;
    payload = (replicate 4 0 ++ map (λ (s : Sample). sdtp_byte s.flags) track.samples) ∷ [];
  }

  abbrev traf_entries : List Entry
  traf_entries = tfhd_entry ∷ tfdt_entry ∷ trun_entry ∷ sdtp_entry ∷ []

  abbrev traf_entry : Entry
  traf_entry = record {
    type = Types.traf;
    payload =
        tfhd track
        ∷ tfdt time
        ∷ trun track (length (sdtp track) + 16 + 20 + 8 + 16 + 8 + 8)
        ∷ sdtp track
        ∷ [];
  }

  abbrev moof_entry : Entry
  moof_entry = record { type = Types.moof; payload = mfhd sn ∷ traf track time ∷ [] }

  abbrev mdat_entry : Entry
  mdat_entry = record { type = Types.mdat; payload = data_bytes ∷ [] }

  moof_payload : concat moof_entry.payload ≡ entries_bytes (mfhd_entry ∷ traf_entry ∷ [])
  unfolding concat entries_bytes entry_bytes mfhd traf
  moof_payload = refl

  traf_payload : concat traf_entry.payload ≡ entries_bytes traf_entries
  unfolding concat entries_bytes entry_bytes tfhd tfdt trun sdtp
  traf_payload = refl

  whole_fragment : fragment ≡ entries_bytes (moof_entry ∷ mdat_entry ∷ []) ++ []
  unfolding entries_bytes entry_bytes moof mdat
  whole_fragment =
      sym
        (append-nil _ ∙ ap (λ (t : List ℕ). moof sn time track ++ t) (append-nil (mdat data_bytes)))

  module _ (fits : length fragment < 4294967296) where
    fragment_IsEntry : All IsEntry (moof_entry ∷ mdat_entry ∷ [])
    fragment_IsEntry =
        entries_fit (moof_entry ∷ mdat_entry ∷ []) (refl, (refl, tt))
          (omega (
            arith,
            ap length whole_fragment,
            length-append (entries_bytes (moof_entry ∷ mdat_entry ∷ [])) [],
          ))

    moof_IsEntry : All IsEntry (mfhd_entry ∷ traf_entry ∷ [])
    moof_IsEntry =
        entries_fit (mfhd_entry ∷ traf_entry ∷ []) (refl, (refl, tt))
          (omega (arith, ap length moof_payload, fragment_IsEntry.0.fits))

    traf_IsEntry : All IsEntry traf_entries
    traf_IsEntry =
        entries_fit traf_entries (refl, (refl, (refl, (refl, tt))))
          (omega (arith, ap length traf_payload, moof_IsEntry.1.0.fits))

    abbrev behind_moof : List ℕ
    behind_moof = entries_bytes (mdat_entry ∷ []) ++ []

    in_moof : drop 8 fragment ≡ entries_bytes (mfhd_entry ∷ traf_entry ∷ []) ++ behind_moof
    in_moof =
        (entry_at fragment [] 0 moof_entry (mdat_entry ∷ []) fragment_IsEntry.0 whole_fragment).0
        ∙ ap (λ (t : List ℕ). t ++ behind_moof) moof_payload

    at_traf : drop (8 + size mfhd_entry) fragment ≡ entries_bytes (traf_entry ∷ []) ++ behind_moof
    at_traf =
        (entry_at fragment behind_moof 8 mfhd_entry (traf_entry ∷ []) moof_IsEntry.0 in_moof).1

    abbrev behind_traf : List ℕ
    behind_traf = entries_bytes [] ++ behind_moof

    in_traf : drop (8 + size mfhd_entry + 8) fragment ≡ entries_bytes traf_entries ++ behind_traf
    in_traf =
        (entry_at fragment behind_moof (8 + size mfhd_entry) traf_entry [] moof_IsEntry.1.0
          at_traf).0
        ∙ ap (λ (t : List ℕ). t ++ behind_traf) traf_payload

    abbrev traf_found : Found
    traf_found = record {
      bytes = fragment;
      start = 8 + size mfhd_entry + 8;
      end = 8 + size mfhd_entry + size traf_entry;
    }

    find_in_moof :
        (type : List ℕ)
        → (find_path type [] (record { bytes = fragment; start = 8; end = 0 + size moof_entry })
            ≡ places fragment 8 (mfhd_entry ∷ traf_entry ∷ []) type (λ f. f ∷ []))
          × ((later : List ℕ) (path : List (List ℕ))
              → find_path type
                  (later ∷ path)
                  (record { bytes = fragment; start = 8; end = 0 + size moof_entry })
                ≡ places fragment 8 (mfhd_entry ∷ traf_entry ∷ []) type (find_path later path))
    find_in_moof =
        find_path-places fragment behind_moof 8 (0 + size moof_entry) (mfhd_entry ∷ traf_entry ∷ [])
          moof_IsEntry in_moof (omega (arith, ap length moof_payload))

    find_in_traf :
        (type : List ℕ)
        → find_path type [] traf_found
          ≡ places fragment (8 + size mfhd_entry + 8) traf_entries type (λ f. f ∷ [])
    find_in_traf type =
        (find_path-places fragment behind_traf (8 + size mfhd_entry + 8)
          (8 + size mfhd_entry + size traf_entry) traf_entries traf_IsEntry in_traf
          (omega (arith, ap length traf_payload)) type).0

    find_from_top :
        (later : List ℕ) (path : List (List ℕ))
        → find_path Types.moof (later ∷ path) (whole fragment)
          ≡ find_path later path (record { bytes = fragment; start = 8; end = 0 + size moof_entry })
            ++ []
    unfolding whole places same_type
    find_from_top later path =
        (find_path-places fragment [] 0 (length fragment) (moof_entry ∷ mdat_entry ∷ [])
            fragment_IsEntry whole_fragment
            (omega (
              arith,
              ap length whole_fragment,
              length-append (entries_bytes (moof_entry ∷ mdat_entry ∷ [])) [],
            ))
            Types.moof).1
          later path

    pub find_trafs : find_path Types.moof (Types.traf ∷ []) (whole fragment) ≡ traf_found ∷ []
    unfolding places same_type
    find_trafs =
        find_from_top Types.traf [] ∙ ap (λ (t : List Found). t ++ []) (find_in_moof Types.traf).0

    abbrev pub tfhd_found : Found
    tfhd_found = record {
      bytes = fragment;
      start = 8 + size mfhd_entry + 8 + 8;
      end = 8 + size mfhd_entry + 8 + size tfhd_entry;
    }

    abbrev pub tfdt_found : Found
    tfdt_found = record {
      bytes = fragment;
      start = 8 + size mfhd_entry + 8 + size tfhd_entry + 8;
      end = 8 + size mfhd_entry + 8 + size tfhd_entry + size tfdt_entry;
    }

    pub find_tfhd : find_path Types.tfhd [] traf_found ≡ tfhd_found ∷ []
    unfolding places same_type
    find_tfhd = find_in_traf Types.tfhd

    pub find_tfdt : find_path Types.tfdt [] traf_found ≡ tfdt_found ∷ []
    unfolding places same_type
    find_tfdt = find_in_traf Types.tfdt

    abbrev after_tfhd : List ℕ
    after_tfhd = entries_bytes (tfdt_entry ∷ trun_entry ∷ sdtp_entry ∷ []) ++ behind_traf

    tfhd_at :
        (drop (8 + size mfhd_entry + 8 + 8) fragment ≡ concat tfhd_entry.payload ++ after_tfhd)
        × (drop (8 + size mfhd_entry + 8 + size tfhd_entry) fragment ≡ after_tfhd)
    tfhd_at =
        entry_at fragment behind_traf (8 + size mfhd_entry + 8) tfhd_entry
          (tfdt_entry ∷ trun_entry ∷ sdtp_entry ∷ []) traf_IsEntry.0 in_traf

    abbrev after_tfdt : List ℕ
    after_tfdt = entries_bytes (trun_entry ∷ sdtp_entry ∷ []) ++ behind_traf

    tfdt_at :
        (drop (8 + size mfhd_entry + 8 + size tfhd_entry + 8) fragment
          ≡ concat tfdt_entry.payload ++ after_tfdt)
        × (drop (8 + size mfhd_entry + 8 + size tfhd_entry + size tfdt_entry) fragment ≡ after_tfdt)
    tfdt_at =
        entry_at fragment behind_traf (8 + size mfhd_entry + 8 + size tfhd_entry) tfdt_entry
          (trun_entry ∷ sdtp_entry ∷ []) traf_IsEntry.1.0 tfhd_at.1

    pub read_tfhd : track.id < 4294967296 → read_in tfhd_found 4 ≡ track.id
    unfolding concat word_bytes read_in
    read_tfhd small =
        let id_at =
          drop_on fragment (0 ∷ 0 ∷ 0 ∷ 0 ∷ []) (word_bytes track.id ++ after_tfhd) tfhd_found.start
            tfhd_at.0 4 refl in
        read_at fragment after_tfhd (tfhd_found.start + 4) track.id id_at small

    pub version_tfdt : version_of tfdt_found ≡ 1
    unfolding version_of concat
    version_tfdt =
        let start : tfdt_found.start + 0 ≡ tfdt_found.start = omega arith in
        rw start at (get_or-drop fragment tfdt_found.start 0)
        ∙ ap (λ (t : List ℕ). get_or t 0 0) tfdt_at.0

    pub read_words :
        time < 18446744073709551616
        → (read_in tfdt_found 4 ≡ time / 4294967296) × (read_in tfdt_found 8 ≡ time % 4294967296)
    unfolding concat word_bytes long_bytes read_in
    read_words small =
        let upper = time / 4294967296 in
        let lower = time % 4294967296 in
        let start = tfdt_found.start in
        let upper_at =
          drop_on fragment (1 ∷ 0 ∷ 0 ∷ 0 ∷ [])
            (word_bytes upper ++ (word_bytes lower ++ after_tfdt)) start tfdt_at.0 4 refl in
        let lower_at =
          drop_on fragment (1 ∷ 0 ∷ 0 ∷ 0 ∷ word_bytes upper) (word_bytes lower ++ after_tfdt) start
            tfdt_at.0 8 refl in
        (
          read_at fragment (word_bytes lower ++ after_tfdt) (start + 4) upper upper_at
              (omega arith),
          read_at fragment after_tfdt (start + 8) lower lower_at (omega arith),
        )

    read_tfdt : time < 18446744073709551616 → decode_time tfdt_found ≡ time
    unfolding decode_time
    read_tfdt small = rw (version_tfdt, (read_words small).0, (read_words small).1) (omega arith)

    abbrev pub trun_found : Found
    trun_found = record {
      bytes = fragment;
      start = 8 + size mfhd_entry + 8 + size tfhd_entry + size tfdt_entry + 8;
      end = 8 + size mfhd_entry + 8 + size tfhd_entry + size tfdt_entry + size trun_entry;
    }

    pub find_trun :
        find_path Types.moof (Types.traf ∷ Types.trun ∷ []) (whole fragment) ≡ trun_found ∷ []
    unfolding places same_type
    find_trun =
        find_from_top Types.traf (Types.trun ∷ [])
        ∙ ap (λ (t : List Found). t ++ []) ((find_in_moof Types.traf).1 Types.trun [])
        ∙ ap (λ (t : List Found). (t ++ []) ++ []) (find_in_traf Types.trun)

    abbrev after_trun : List ℕ
    after_trun = entries_bytes (sdtp_entry ∷ []) ++ behind_traf

    pub read_trun : data_offset < 4294967296 → read_in trun_found 8 ≡ data_offset
    unfolding concat word_bytes read_in
    read_trun small =
        let at =
          (entry_at fragment behind_traf
            (8 + size mfhd_entry + 8 + size tfhd_entry + size tfdt_entry) trun_entry
            (sdtp_entry ∷ []) traf_IsEntry.1.1.0 tfdt_at.1).0 in
        let tail = (samples_bytes track.samples ++ []) ++ after_trun in
        let offset_at =
          drop_on fragment (0 ∷ 0 ∷ 15 ∷ 1 ∷ word_bytes (length track.samples))
            (word_bytes data_offset ++ tail) trun_found.start at 8 refl in
        read_at fragment tail (trun_found.start + 8) data_offset offset_at small

  -- The start of a fragment is read back from its boxes, in the time scale that the initialisation
  -- segment has for its track, if that is not 0, the number of the track and the length of the
  -- fragment fit 32 bits and the start fits 64.
  pub get_start_dts-moof :
      (init_data : InitData) (info : TrackInfo)
      → lookup init_data.tracks track.id ≡ some info
      → 1 ≤ info.timescale
      → track.id < 4294967296
      → time < 18446744073709551616
      → length fragment < 4294967296
      → get_start_dts init_data fragment ≡ some (time, info.timescale)
  unfolding get_start_dts base_times base_times_of base_time scale_of first finite_min min_times
  get_start_dts-moof init_data info known scaled id_fits time_fits fits =
      let scale : (info.timescale == 0) ≡ false = ground arith in
      rw (
        find_trafs fits,
        find_tfhd fits,
        read_tfhd fits id_fits,
        known,
        scale,
        find_tfdt fits,
        read_tfdt fits time_fits,
      )
