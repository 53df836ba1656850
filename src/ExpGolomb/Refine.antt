-- ===== src/ExpGolomb/Refine.antt =====
-- What the reader promises: it stands for the list of the bits that are left, and reading takes a number
-- of them off its front.
use v4l2rtspserver.Base.{
  ℕ, zero, suc, ◌+◌, ◌-◌, ◌≡◌, ◌≤◌, inl, inr, refl, sym, ap, ◌∙◌, some, List, length, drop, All,
  arith,
}
use v4l2rtspserver.Base.Bytes.{IsByte}
use v4l2rtspserver.Base.Int.{ℤ, pos, neg_part}
use v4l2rtspserver.ExpGolomb.{ExpGolomb, read_on, read_bits, new_reader}
use v4l2rtspserver.ExpGolomb.Bits.{value}
use v4l2rtspserver.ExpGolomb.Reader.{bits_left, IsReader, load_Loaded, word_value}
use v4l2rtspserver.ExpGolomb.Words.{
  Reads, read_last, read_more, read_inside, next_word_empty, next_word_load, takes_all, word_bits,
  drop_beyond, length-left, take_word, drop_word, Fuel, le_or_lt, enough_left, first_value,
  length-left_at_end, joined,
}

read_at_end :
    (fuel n b : ℕ) (s : ExpGolomb)
    → IsReader b 0 s
    → 1 ≤ n
    → n ≤ length (bits_left s)
    → b ≤ n
    → Reads n s (read_on (suc fuel) n s)
read_at_end fuel n b s v lo fits le =
    let whole : n ≡ b = omega (arith, length-left_at_end b s v) in
    let after : ExpGolomb = record s { bits_available = pos 0 } in
    record {
      after = after;
      b = 0;
      y = 0;
      returns =
          read_last fuel n b s after (takes_all b n 0 s v le) (omega arith)
            (next_word_empty b 0 s v refl)
          ∙ ap (λ (k : ℕ). some (pos k, after))
              (word_value b s.word v.in_word v.is_word (inl (omega arith))
                ∙ ap value (sym (take_word b 0 n s v whole)));
      reader = record {
        bits = refl;
        left = v.left;
        in_word = omega arith;
        in_bytes = v.in_bytes;
        is_word = v.is_word;
        are_bytes = v.are_bytes;
        fresh = inr (inr refl);
      };
      rest = sym (drop_word b 0 n s v whole);
      same = refl;
    }

read_loaded :
    (fuel n b y : ℕ) (s : ExpGolomb)
    → IsReader b (suc y) s
    → n ≤ 31
    → n ≤ length (bits_left s)
    → b ≤ n
    → ((b' y' : ℕ) (s' : ExpGolomb)
        → IsReader b' y' s'
        → 8 ≤ b'
        → 1 ≤ n - b
        → n - b ≤ length (bits_left s')
        → Reads (n - b) s' (read_on fuel (n - b) s'))
    → Reads n s (read_on (suc fuel) n s)
unfolding word_bits
read_loaded fuel n b y s v hi fits le more =
    let s₀ : ExpGolomb = record s { bits_available = pos 0 } in
    let (s', l) = load_Loaded s₀ y v.left v.in_bytes v.are_bytes in
    let next = next_word_load b y s s' v l.loads in
    let takes = takes_all b n (suc y) s v le in
    let size = length-left b (suc y) n s v le in
    let enough : n - b ≤ length (bits_left s') = omega (arith, ap length l.keeps, size) in
    elim (le_or_lt n b) [
      | inl whole ↦ record {
        after = s';
        b = l.b;
        y = l.y;
        returns =
            read_last fuel n b s s' takes whole next
            ∙ ap (λ (k : ℕ). some (pos k, s'))
                (first_value b y n s v le
                  ∙ ap value (sym (take_word b (suc y) n s v (omega arith))));
        reader = l.reader;
        rest = l.keeps ∙ sym (drop_word b (suc y) n s v (omega arith));
        same = l.same;
      }
      | inr more_bits ↦
          let r = more l.b l.y s' l.reader l.some_bits (omega arith) enough in
          record {
            after = r.after;
            b = r.b;
            y = r.y;
            returns =
                read_more fuel n b l.b _ s s' r.after takes more_bits next l.reader.bits
                  (omega (arith, l.some_bits)) r.returns
                ∙ ap (λ (k : ℤ). some (k, r.after))
                    (joined b y n s v le hi s' l.keeps more_bits enough);
            reader = r.reader;
            rest = r.rest ∙ ap (drop (n - b)) l.keeps ∙ sym (drop_beyond b (suc y) n s v le);
            same = r.same ∙ l.same;
          }
    ]

pub read_on-Reads :
    (fuel n b y : ℕ) (s : ExpGolomb)
    → IsReader b y s
    → 1 ≤ n
    → n ≤ 31
    → n ≤ length (bits_left s)
    → Fuel b n fuel
    → Reads n s (read_on fuel n s)
read_on-Reads zero n b y s v lo hi fits (inl h) = absurd (omega arith)
read_on-Reads zero n b y s v lo hi fits (inr h) = absurd (omega arith)
read_on-Reads (suc fuel) n b zero s v lo hi fits f = elim (le_or_lt b n) [
  | inr lt ↦ read_inside fuel n b 0 s v lo lt
  | inl le ↦ read_at_end fuel n b s v lo fits le
]
read_on-Reads (suc fuel) n b (suc y) s v lo hi fits f = elim (le_or_lt b n) [
  | inr lt ↦ read_inside fuel n b (suc y) s v lo lt
  | inl le ↦ read_loaded fuel n b y s v hi fits le λ b' y' s' v' full some_left enough.
      read_on-Reads fuel (n - b) b' y' s' v' some_left (omega arith) enough
        (inl (omega arith, enough_left b n fuel f some_left le))
]

-- Of a reader of bytes between its calls, `readBits` of 1 up to 31 bits that are left returns the
-- number that the bits in front make, across words or not, and takes just these off the bits that
-- are left.
pub read_bits-Reads :
    (n b y : ℕ) (s : ExpGolomb)
    → IsReader b y s
    → 1 ≤ n
    → n ≤ 31
    → n ≤ length (bits_left s)
    → Reads n s (read_bits n s)
unfolding read_bits
read_bits-Reads n b y s v lo hi fits =
    read_on-Reads (n + neg_part s.bits_available + 2) n b y s v lo hi fits (inr (omega arith))

-- The constructor makes a reader.
pub new_reader-IsReader :
    (bytes : List ℕ) → All IsByte bytes → IsReader 0 (length bytes) (new_reader bytes)
new_reader-IsReader bytes h = record {
  bits = refl;
  left = refl;
  in_word = omega arith;
  in_bytes = omega arith;
  is_word = omega arith;
  are_bytes = h;
  fresh = inr (inl refl);
}
