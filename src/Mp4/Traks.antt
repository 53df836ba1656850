-- ===== src/Mp4/Traks.antt =====
-- The box of a track that the generator makes, and what the demuxer reads in it.
use v4l2rtspserver.Base.{
  ℕ, ◌+◌, ◌/◌, ◌%◌, ◌≡◌, ◌<◌, refl, ap, ◌∙◌, some, List, [], ◌∷◌, ◌++◌, length, drop, get_or,
  replicate, All, arith,
}
use v4l2rtspserver.Mp4.{word_bytes, concat}
use v4l2rtspserver.Mp4.Types
use v4l2rtspserver.Mp4.Words.{get_or-drop, drop_on, subarray_at, read_inside}
use v4l2rtspserver.Mp4.Generator.{
  TrackType, audio, video, Track, hdlr_type, hdlr, long_bytes, ticks, unity_matrix, mdhd, minf,
  mdia, tkhd, media_header, dinf_box, stbl,
}
use v4l2rtspserver.Mp4.Demuxer.{
  same_type, subarray, Found, find_path, first, read_in, version_of, index_of_version, kind_of,
  InitData, with_track, parse_trak,
}
use v4l2rtspserver.Mp4.Find.{
  Entry, IsEntry, size, entry_bytes, entries_bytes, places, find_path-places, entry_at,
}
use v4l2rtspserver.Mp4.Fragments.{entries_fit}

module _ (track : Track) where
  abbrev head : ℕ → List ℕ
  head flags =
      1 ∷ 0 ∷ 0 ∷ flags ∷ 0 ∷ 0 ∷ 0 ∷ 0 ∷ 0 ∷ 0 ∷ 0 ∷ 2 ∷ 0 ∷ 0 ∷ 0 ∷ 0 ∷ 0 ∷ 0 ∷ 0 ∷ 3 ∷ []

  abbrev after_id : List ℕ
  after_id =
      replicate 4 0
      ++ (long_bytes (ticks track)
          ++ (replicate 16 0
              ++ (unity_matrix
                  ++ (track.width / 256 % 256
                      ∷ track.width % 256
                      ∷ 0
                      ∷ 0
                      ∷ track.height / 256 % 256
                      ∷ track.height % 256
                      ∷ 0
                      ∷ 0
                      ∷ []))))

  abbrev tkhd_entry : Entry
  tkhd_entry = record {
    type = Types.tkhd;
    payload = (head 7 ++ (word_bytes track.id ++ after_id)) ∷ [];
  }

  abbrev after_timescale : List ℕ
  after_timescale = long_bytes (ticks track) ++ (85 ∷ 196 ∷ 0 ∷ 0 ∷ [])

  abbrev mdhd_entry : Entry
  mdhd_entry = record {
    type = Types.mdhd;
    payload = (head 0 ++ (word_bytes track.timescale ++ after_timescale)) ∷ [];
  }

  abbrev hdlr_entry : Entry
  hdlr_entry = record { type = Types.hdlr; payload = hdlr_type track.type ∷ [] }

  abbrev minf_entry : Entry
  minf_entry = record {
    type = Types.minf;
    payload = media_header track.type ∷ dinf_box ∷ stbl track ∷ [];
  }

  abbrev mdia_entry : Entry
  mdia_entry = record {
    type = Types.mdia;
    payload = mdhd track ∷ hdlr track.type ∷ minf track ∷ [];
  }

  abbrev pub trak_entry : Entry
  trak_entry = record { type = Types.trak; payload = tkhd track ∷ mdia track ∷ [] }

  trak_payload : concat trak_entry.payload ≡ entries_bytes (tkhd_entry ∷ mdia_entry ∷ [])
  unfolding concat entries_bytes entry_bytes tkhd mdia
  trak_payload = refl

  mdia_payload :
      concat mdia_entry.payload ≡ entries_bytes (mdhd_entry ∷ hdlr_entry ∷ minf_entry ∷ [])
  unfolding concat entries_bytes entry_bytes mdhd hdlr minf
  mdia_payload = refl

  -- The box at a place: its payload starts at `i`.
  module _ (bytes rest : List ℕ) (i : ℕ) (at : drop i bytes ≡ concat trak_entry.payload ++ rest)
      (h : IsEntry trak_entry) where
    trak_IsEntry : All IsEntry (tkhd_entry ∷ mdia_entry ∷ [])
    trak_IsEntry =
        entries_fit (tkhd_entry ∷ mdia_entry ∷ []) (refl, (refl, tt))
          (omega (arith, ap length trak_payload, h.fits))

    mdia_IsEntry : All IsEntry (mdhd_entry ∷ hdlr_entry ∷ minf_entry ∷ [])
    mdia_IsEntry =
        entries_fit (mdhd_entry ∷ hdlr_entry ∷ minf_entry ∷ []) (refl, (refl, (refl, tt)))
          (omega (arith, ap length mdia_payload, trak_IsEntry.1.0.fits))

    in_trak : drop i bytes ≡ entries_bytes (tkhd_entry ∷ mdia_entry ∷ []) ++ rest
    in_trak = at ∙ ap (λ (t : List ℕ). t ++ rest) trak_payload

    tkhd_at :
        (drop (i + 8) bytes
          ≡ concat tkhd_entry.payload ++ (entries_bytes (mdia_entry ∷ []) ++ rest))
        × (drop (i + size tkhd_entry) bytes ≡ entries_bytes (mdia_entry ∷ []) ++ rest)
    tkhd_at = entry_at bytes rest i tkhd_entry (mdia_entry ∷ []) trak_IsEntry.0 in_trak

    abbrev behind : List ℕ
    behind = entries_bytes [] ++ rest

    in_mdia :
        drop (i + size tkhd_entry + 8) bytes
        ≡ entries_bytes (mdhd_entry ∷ hdlr_entry ∷ minf_entry ∷ []) ++ behind
    in_mdia =
        (entry_at bytes rest (i + size tkhd_entry) mdia_entry [] trak_IsEntry.1.0 tkhd_at.1).0
        ∙ ap (λ (t : List ℕ). t ++ behind) mdia_payload

    mdhd_at :
        (drop (i + size tkhd_entry + 8 + 8) bytes
          ≡ concat mdhd_entry.payload ++ (entries_bytes (hdlr_entry ∷ minf_entry ∷ []) ++ behind))
        × (drop (i + size tkhd_entry + 8 + size mdhd_entry) bytes
            ≡ entries_bytes (hdlr_entry ∷ minf_entry ∷ []) ++ behind)
    mdhd_at =
        entry_at bytes behind (i + size tkhd_entry + 8) mdhd_entry (hdlr_entry ∷ minf_entry ∷ [])
          mdia_IsEntry.0 in_mdia

    hdlr_at :
        drop (i + size tkhd_entry + 8 + size mdhd_entry + 8) bytes
        ≡ concat hdlr_entry.payload ++ (entries_bytes (minf_entry ∷ []) ++ behind)
    hdlr_at =
        (entry_at bytes behind (i + size tkhd_entry + 8 + size mdhd_entry) hdlr_entry
          (minf_entry ∷ []) mdia_IsEntry.1.0 mdhd_at.1).0

    abbrev pub trak_found : Found
    trak_found = record { bytes = bytes; start = i; end = i + length (concat trak_entry.payload) }

    abbrev tkhd_found : Found
    tkhd_found = record { bytes = bytes; start = i + 8; end = i + size tkhd_entry }

    abbrev mdia_found : Found
    mdia_found = record {
      bytes = bytes;
      start = i + size tkhd_entry + 8;
      end = i + size tkhd_entry + size mdia_entry;
    }

    abbrev mdhd_found : Found
    mdhd_found = record {
      bytes = bytes;
      start = i + size tkhd_entry + 8 + 8;
      end = i + size tkhd_entry + 8 + size mdhd_entry;
    }

    abbrev hdlr_found : Found
    hdlr_found = record {
      bytes = bytes;
      start = i + size tkhd_entry + 8 + size mdhd_entry + 8;
      end = i + size tkhd_entry + 8 + size mdhd_entry + size hdlr_entry;
    }

    find_in_trak :
        (type : List ℕ)
        → (find_path type [] trak_found
            ≡ places bytes i (tkhd_entry ∷ mdia_entry ∷ []) type (λ f. f ∷ []))
          × ((later : List ℕ) (path : List (List ℕ))
              → find_path type (later ∷ path) trak_found
                ≡ places bytes i (tkhd_entry ∷ mdia_entry ∷ []) type (find_path later path))
    find_in_trak =
        find_path-places bytes rest i (i + length (concat trak_entry.payload))
          (tkhd_entry ∷ mdia_entry ∷ []) trak_IsEntry in_trak
          (omega (arith, ap length trak_payload))

    find_in_mdia :
        (type : List ℕ)
        → find_path type [] mdia_found
          ≡ places bytes
              (i + size tkhd_entry + 8)
              (mdhd_entry ∷ hdlr_entry ∷ minf_entry ∷ [])
              type
              (λ f. f ∷ [])
    find_in_mdia type =
        (find_path-places bytes behind (i + size tkhd_entry + 8)
          (i + size tkhd_entry + size mdia_entry) (mdhd_entry ∷ hdlr_entry ∷ minf_entry ∷ [])
          mdia_IsEntry in_mdia (omega (arith, ap length mdia_payload)) type).0

    find_tkhd : find_path Types.tkhd [] trak_found ≡ tkhd_found ∷ []
    unfolding places same_type
    find_tkhd = (find_in_trak Types.tkhd).0

    find_mdhd : find_path Types.mdia (Types.mdhd ∷ []) trak_found ≡ mdhd_found ∷ []
    unfolding places same_type
    find_mdhd =
        (find_in_trak Types.mdia).1 Types.mdhd []
        ∙ ap (λ (t : List Found). t ++ []) (find_in_mdia Types.mdhd)

    find_hdlr : find_path Types.mdia (Types.hdlr ∷ []) trak_found ≡ hdlr_found ∷ []
    unfolding places same_type
    find_hdlr =
        (find_in_trak Types.mdia).1 Types.hdlr []
        ∙ ap (λ (t : List Found). t ++ []) (find_in_mdia Types.hdlr)

    version_at :
        (j : ℕ) (tail : List ℕ)
        → drop j bytes ≡ 1 ∷ tail
        → version_of (record { bytes = bytes; start = j; end = 0 }) ≡ 1
    unfolding version_of
    version_at j tail e =
        let start : j + 0 ≡ j = omega arith in
        rw start at (get_or-drop bytes j 0) ∙ ap (λ (t : List ℕ). get_or t 0 0) e

    read_tkhd :
        track.id < 4294967296
        → read_in tkhd_found (index_of_version (version_of tkhd_found)) ≡ track.id
    unfolding concat read_in version_of index_of_version
    read_tkhd small =
        let behind_tkhd = entries_bytes (mdia_entry ∷ []) ++ rest in
        rw (version_at (i + 8) _ tkhd_at.0)
          (read_inside bytes behind_tkhd (head 7) after_id (i + 8) 20 track.id tkhd_at.0 refl small)

    read_mdhd :
        track.timescale < 4294967296
        → read_in mdhd_found (index_of_version (version_of mdhd_found)) ≡ track.timescale
    unfolding concat read_in version_of index_of_version
    read_mdhd small =
        let behind_mdhd = entries_bytes (hdlr_entry ∷ minf_entry ∷ []) ++ behind in
        rw (version_at mdhd_found.start _ mdhd_at.0) (
          read_inside bytes behind_mdhd (head 0) after_timescale mdhd_found.start 20 track.timescale
            mdhd_at.0 refl small)

    handler_of :
        kind_of (subarray bytes (hdlr_found.start + 8) (hdlr_found.start + 12)) ≡ some track.type
    unfolding concat kind_of same_type
    handler_of =
        handler track.type (entries_bytes (minf_entry ∷ []) ++ behind) hdlr_found.start hdlr_at
      where
        kind :
            (code tail : List ℕ) (start : ℕ)
            → length code ≡ 4
            → drop start bytes ≡ (0 ∷ 0 ∷ 0 ∷ 0 ∷ 0 ∷ 0 ∷ 0 ∷ 0 ∷ []) ++ (code ++ tail)
            → subarray bytes (start + 8) (start + 12) ≡ code
        kind code tail start four e =
            subarray_at bytes code tail (start + 8)
              (drop_on bytes (0 ∷ 0 ∷ 0 ∷ 0 ∷ 0 ∷ 0 ∷ 0 ∷ 0 ∷ []) (code ++ tail) start e 8 refl)
              (start + 12) (omega (arith, four))

        handler :
            (type : TrackType) (tail : List ℕ) (start : ℕ)
            → drop start bytes ≡ (hdlr_type type ++ []) ++ tail
            → kind_of (subarray bytes (start + 8) (start + 12)) ≡ some type
        handler audio tail start e = ap kind_of (kind (115 ∷ 111 ∷ 117 ∷ 110 ∷ []) _ start refl e)
        handler video tail start e = ap kind_of (kind (118 ∷ 105 ∷ 100 ∷ 101 ∷ []) _ start refl e)

    pub parse_trak-trak_found :
        (result : InitData)
        → track.id < 4294967296
        → track.timescale < 4294967296
        → parse_trak result trak_found ≡ with_track result track.id track.timescale track.type
    unfolding parse_trak first
    parse_trak-trak_found result id_fits scale_fits =
        rw (find_tkhd, find_mdhd, find_hdlr, read_tkhd id_fits, read_mdhd scale_fits, handler_of)
