-- ===== src/Lib.antt =====
-- The verification library of the JavaScript player of this repository, hls.js/src: what it makes of
-- captions, of audio frames and ID3 tags, of H.264 parameter sets and of MP4 boxes, and the search it
-- shares.
--
-- * Cea608 (hls.js/src/utils/cea-608-parser.js): the decoder of line-21 captions. Cea608.Charset has the
--   tables, Cea608.Pen `PenState` and `StyledUnicodeChar`, Cea608.Row `Row`, Cea608.Screen
--   `CaptionScreen`, Cea608.Channel `Cea608Channel` and Cea608.Parser `Cea608Parser`; each class is a
--   record and each method a function, under its name in snake case (`insertChars` is `insert_chars`). A
--   parser calls its channels, a channel its two screens, a screen its current row. `none` is a thrown
--   TypeError, and `>>=` ends there as an exception does. `writeScreen` is the name of one of the two
--   memories, so an exchange of the memories is one of their contents. The callbacks of the output filter
--   are events of a channel in their order; the filter says which callbacks it has. The logger is left
--   out, except for its time, an argument here, and for its one line that throws.
-- * BinarySearch (hls.js/src/utils/binary-search.js): `search`, with the comparison as a parameter.
-- * Adts (hls.js/src/demux/adts.js): the ADTS header, the config that is made of it, and its frames.
-- * MpegAudio (hls.js/src/demux/mpegaudio.js): the header of MPEG audio and its frames.
-- * Id3 (hls.js/src/demux/id3.js): the tags, their frames and strings, and the time stamp.
-- * AudioDemuxers (hls.js/src/demux/aacdemuxer.js and mp3demuxer.js): the probes of the two demuxers, and
--   their loops over frames and tags, which call Adts, MpegAudio and Id3.
-- * ExpGolomb (hls.js/src/demux/exp-golomb.js): the reader of bits and of exponential-Golomb codes, on a
--   record with the bytes, the word and the two counts. ExpGolomb.Sps has `readSPS` and `readSliceType`,
--   as steps in a do block. ExpGolomb.Reader says for which list of bits a reader stands, which the
--   results on reading are about; ExpGolomb.SpsBits has the bits of a parameter set.
-- * Mp4 (hls.js/src/remux/mp4-generator.js and hls.js/src/demux/mp4demuxer.js): Mp4.Generator has the
--   boxes that the generator writes, Mp4.Demuxer the search for boxes, the tracks of an initialisation
--   segment, and the start of a fragment and its move; Mp4.Append has the state of the demuxer and
--   `append`, whose calls of the observer and of the remuxer are events. The two meet in the bytes: what
--   the one writes the other reads, as Mp4.Fragments, Mp4.Shift, Mp4.DataOffset and Mp4.InitSegment say.
-- * TsDemuxer (hls.js/src/demux/tsdemuxer.js): the probe of transport streams and `_parsePES`.
-- * The helpers, in Base: lists by native numbers, Boolean tests, byte arrays, integers, and results
--   that may be none.
--
-- Numbers: JavaScript's numbers are whole and small in all of this code but for the time stamps of audio
-- frames, which are floating-point and computed by a parameter of the model. The duration of a track is a
-- fraction, its product with the time scale exact, and the time offset of a fragment a whole number in
-- units of the time scale; the arithmetic of its seconds is a parameter. Shifts of bytes stay below 2 ^ 31,
-- but for the words of the bit reader and of the boxes, whose 32 bits are written out; so is the pattern of
-- a number that can be negative under a bit operation. A read past the end of a byte array is undefined,
-- which is 0 under a bit operation and fails comparisons.
--
-- Fuel: the search has a round for each item, and the loops over tags and frames have one for each byte,
-- since every round moves on; `findBox` has one more than there are bytes, the recursion of `readBits` a
-- call for each bit and two more, that of `skipLZ` one for each byte and two more. That more fuel changes
-- nothing, or that the fuel gives the result, is among the results or proved beside them. All other
-- loops are recursion on a list or a number.
--
-- Not modelled: the display text of screens, for logs only; `getFrameDuration`; and the rest of hls.js,
-- among it the sections and the NAL units of transport streams, the remuxers and the controllers. The RTSP
-- server of the repository is C++ that moves frames between devices and the network.
pub mod Base
pub mod Cea608
pub mod BinarySearch
pub mod Adts
pub mod MpegAudio
pub mod Id3
pub mod ExpGolomb
pub mod Mp4
pub mod TsDemuxer
pub mod AudioDemuxers
