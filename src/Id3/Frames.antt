-- ===== src/Id3/Frames.antt =====
-- The loops of `getID3Frames` end: the fuel that the model gives them is enough.
use v4l2rtspserver.Base.{
  ℕ, zero, suc, ◌+◌, ◌≤◌, ◌≡◌, refl, sym, ◌∙◌, true, false, ltb, List, [], length, drop, arith, inl,
  inr, Bool-cases,
}
use v4l2rtspserver.Id3.{
  Frame, get_frame_data, decode_frame, push, is_header, read_size, tag_frames, skip_footer,
  all_frames, get_id3_frames,
}
use v4l2rtspserver.Id3.Scan.{no_header}

module _ (bytes : List ℕ) where
  next_offset : ℕ → ℕ
  next_offset offset = offset + ((get_frame_data (drop offset bytes)).size + 10)

  tag_stops :
      (f offset end : ℕ) (frames : List Frame)
      → ltb (offset + 8) end ≡ false
      → tag_frames f bytes offset end frames ≡ (offset, frames)
  unfolding tag_frames
  tag_stops zero offset end frames h = refl
  tag_stops (suc f) offset end frames h = rw h

  tag_goes :
      (f offset end : ℕ) (frames : List Frame)
      → ltb (offset + 8) end ≡ true
      → tag_frames (suc f) bytes offset end frames
        ≡ tag_frames f bytes
            (next_offset offset)
            end
            (push (decode_frame (get_frame_data (drop offset bytes))) frames)
  unfolding tag_frames next_offset
  tag_goes f offset end frames h = rw h

  next_offset-le : (offset : ℕ) → offset + 10 ≤ next_offset offset
  unfolding next_offset
  next_offset-le offset = omega arith

  -- The loop over the frames of a tag ends: any two amounts of fuel that reach the end of the tag give
  -- the same offset and frames.
  tag_frames-fuel :
      (f g offset end : ℕ) (frames : List Frame)
      → end ≤ offset + f
      → end ≤ offset + g
      → tag_frames f bytes offset end frames ≡ tag_frames g bytes offset end frames
  tag_frames-fuel zero g offset end frames hf hg =
      let n : ltb (offset + 8) end ≡ false = ground arith in
      tag_stops zero offset end frames n ∙ sym (tag_stops g offset end frames n)
  tag_frames-fuel (suc f) zero offset end frames hf hg =
      let n : ltb (offset + 8) end ≡ false = ground arith in
      tag_stops (suc f) offset end frames n ∙ sym (tag_stops zero offset end frames n)
  tag_frames-fuel (suc f) (suc g) offset end frames hf hg =
      elim (Bool-cases (ltb (offset + 8) end)) [
        | inr n ↦
            tag_stops (suc f) offset end frames n ∙ sym (tag_stops (suc g) offset end frames n)
        | inl h ↦
            let far = next_offset-le offset in
            tag_goes f offset end frames h
            ∙ tag_frames-fuel f g (next_offset offset) end _ (omega arith) (omega arith)
            ∙ sym (tag_goes g offset end frames h)
      ]

  tag_frames-le :
      (f offset end : ℕ) (frames : List Frame) → offset ≤ (tag_frames f bytes offset end frames).0
  unfolding tag_frames
  tag_frames-le zero offset end frames = omega arith
  tag_frames-le (suc f) offset end frames = elim (Bool-cases (ltb (offset + 8) end)) [
    | inr n ↦ rw n (omega arith)
    | inl h ↦
        let far = next_offset-le offset in
        let rest =
          tag_frames-le f (next_offset offset) end
            (push (decode_frame (get_frame_data (drop offset bytes))) frames) in
        rw (tag_goes f offset end frames h) (omega arith)
  ]

  -- The offset behind the tag at an offset, with its footer, and the frames with those of the tag.
  tag_end : ℕ → List Frame → ℕ
  tag_end offset frames =
      skip_footer bytes
        (tag_frames (read_size bytes (offset + 6)) bytes (offset + 10)
          (offset + 10 + read_size bytes (offset + 6)) frames).0

  with_tag : ℕ → List Frame → List Frame
  with_tag offset frames =
      (tag_frames (read_size bytes (offset + 6)) bytes (offset + 10)
        (offset + 10 + read_size bytes (offset + 6)) frames).1

  tag_end-le : (offset : ℕ) (frames : List Frame) → offset + 10 ≤ tag_end offset frames
  unfolding tag_end skip_footer
  tag_end-le offset frames =
      let size = read_size bytes (offset + 6) in
      ground (arith, tag_frames-le size (offset + 10) (offset + 10 + size) frames)

  all_stops :
      (f offset : ℕ) (frames : List Frame)
      → is_header bytes offset ≡ false
      → all_frames f bytes offset frames ≡ frames
  unfolding all_frames
  all_stops zero offset frames h = refl
  all_stops (suc f) offset frames h = rw h

  all_goes :
      (f offset : ℕ) (frames : List Frame)
      → is_header bytes offset ≡ true
      → all_frames (suc f) bytes offset frames
        ≡ all_frames f bytes (tag_end offset frames) (with_tag offset frames)
  unfolding all_frames tag_end with_tag
  all_goes f offset frames h = rw h

  all_frames-fuel :
      (f g offset : ℕ) (frames : List Frame)
      → length bytes ≤ offset + f
      → length bytes ≤ offset + g
      → all_frames f bytes offset frames ≡ all_frames g bytes offset frames
  all_frames-fuel zero g offset frames hf hg =
      let n = no_header bytes offset (omega arith) in
      all_stops zero offset frames n ∙ sym (all_stops g offset frames n)
  all_frames-fuel (suc f) zero offset frames hf hg =
      let n = no_header bytes offset (omega arith) in
      all_stops (suc f) offset frames n ∙ sym (all_stops zero offset frames n)
  all_frames-fuel (suc f) (suc g) offset frames hf hg = elim (Bool-cases (is_header bytes offset)) [
    | inr n ↦ all_stops (suc f) offset frames n ∙ sym (all_stops (suc g) offset frames n)
    | inl h ↦
        let far = tag_end-le offset frames in
        all_goes f offset frames h
        ∙ all_frames-fuel f g (tag_end offset frames) (with_tag offset frames) (omega arith)
            (omega arith)
        ∙ sym (all_goes g offset frames h)
  ]

  -- The loop over the tags in `getID3Frames` ends: any fuel of at least as many rounds as there are bytes
  -- gives the same frames.
  pub get_id3_frames-fuel :
      (f : ℕ) → length bytes ≤ f → all_frames f bytes 0 [] ≡ get_id3_frames bytes
  unfolding get_id3_frames
  get_id3_frames-fuel f h = all_frames-fuel f (length bytes) 0 [] (omega arith) (omega arith)
