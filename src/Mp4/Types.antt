-- ===== src/Mp4/Types.antt =====
-- The types of the boxes, in the characters' codes.
use v4l2rtspserver.Base.{ℕ, List, [], ◌∷◌}

abbrev pub avc1 : List ℕ
avc1 = 97 ∷ 118 ∷ 99 ∷ 49 ∷ []

abbrev pub avc_c : List ℕ
avc_c = 97 ∷ 118 ∷ 99 ∷ 67 ∷ []

abbrev pub btrt : List ℕ
btrt = 98 ∷ 116 ∷ 114 ∷ 116 ∷ []

abbrev pub dinf : List ℕ
dinf = 100 ∷ 105 ∷ 110 ∷ 102 ∷ []

abbrev pub dref : List ℕ
dref = 100 ∷ 114 ∷ 101 ∷ 102 ∷ []

abbrev pub esds : List ℕ
esds = 101 ∷ 115 ∷ 100 ∷ 115 ∷ []

abbrev pub ftyp : List ℕ
ftyp = 102 ∷ 116 ∷ 121 ∷ 112 ∷ []

abbrev pub hdlr : List ℕ
hdlr = 104 ∷ 100 ∷ 108 ∷ 114 ∷ []

abbrev pub mdat : List ℕ
mdat = 109 ∷ 100 ∷ 97 ∷ 116 ∷ []

abbrev pub mdhd : List ℕ
mdhd = 109 ∷ 100 ∷ 104 ∷ 100 ∷ []

abbrev pub mdia : List ℕ
mdia = 109 ∷ 100 ∷ 105 ∷ 97 ∷ []

abbrev pub mfhd : List ℕ
mfhd = 109 ∷ 102 ∷ 104 ∷ 100 ∷ []

abbrev pub minf : List ℕ
minf = 109 ∷ 105 ∷ 110 ∷ 102 ∷ []

abbrev pub moof : List ℕ
moof = 109 ∷ 111 ∷ 111 ∷ 102 ∷ []

abbrev pub moov : List ℕ
moov = 109 ∷ 111 ∷ 111 ∷ 118 ∷ []

abbrev pub mp4a : List ℕ
mp4a = 109 ∷ 112 ∷ 52 ∷ 97 ∷ []

abbrev pub mvex : List ℕ
mvex = 109 ∷ 118 ∷ 101 ∷ 120 ∷ []

abbrev pub mvhd : List ℕ
mvhd = 109 ∷ 118 ∷ 104 ∷ 100 ∷ []

abbrev pub pasp : List ℕ
pasp = 112 ∷ 97 ∷ 115 ∷ 112 ∷ []

abbrev pub sdtp : List ℕ
sdtp = 115 ∷ 100 ∷ 116 ∷ 112 ∷ []

abbrev pub stbl : List ℕ
stbl = 115 ∷ 116 ∷ 98 ∷ 108 ∷ []

abbrev pub stco : List ℕ
stco = 115 ∷ 116 ∷ 99 ∷ 111 ∷ []

abbrev pub stsc : List ℕ
stsc = 115 ∷ 116 ∷ 115 ∷ 99 ∷ []

abbrev pub stsd : List ℕ
stsd = 115 ∷ 116 ∷ 115 ∷ 100 ∷ []

abbrev pub stsz : List ℕ
stsz = 115 ∷ 116 ∷ 115 ∷ 122 ∷ []

abbrev pub stts : List ℕ
stts = 115 ∷ 116 ∷ 116 ∷ 115 ∷ []

abbrev pub tfdt : List ℕ
tfdt = 116 ∷ 102 ∷ 100 ∷ 116 ∷ []

abbrev pub tfhd : List ℕ
tfhd = 116 ∷ 102 ∷ 104 ∷ 100 ∷ []

abbrev pub traf : List ℕ
traf = 116 ∷ 114 ∷ 97 ∷ 102 ∷ []

abbrev pub trak : List ℕ
trak = 116 ∷ 114 ∷ 97 ∷ 107 ∷ []

abbrev pub trun : List ℕ
trun = 116 ∷ 114 ∷ 117 ∷ 110 ∷ []

abbrev pub trex : List ℕ
trex = 116 ∷ 114 ∷ 101 ∷ 120 ∷ []

abbrev pub tkhd : List ℕ
tkhd = 116 ∷ 107 ∷ 104 ∷ 100 ∷ []

abbrev pub vmhd : List ℕ
vmhd = 118 ∷ 109 ∷ 104 ∷ 100 ∷ []

abbrev pub smhd : List ℕ
smhd = 115 ∷ 109 ∷ 104 ∷ 100 ∷ []

abbrev pub styp : List ℕ
styp = 115 ∷ 116 ∷ 121 ∷ 112 ∷ []

-- `.mp3`
abbrev pub mp3_type : List ℕ
mp3_type = 46 ∷ 109 ∷ 112 ∷ 51 ∷ []
