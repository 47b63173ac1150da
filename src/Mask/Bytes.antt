-- ===== src/Mask/Bytes.antt =====
-- `maskBytes` as a whole: the word loop and its two ends together are the masking of every byte.
use magilla.Base.{
  ℕ, zero, suc, ◌+◌, ◌-◌, ◌*◌, ◌/◌, ◌%◌, ◌≤◌, ◌<◌, ◌≡◌, refl, ap, sym, ◌∙◌, arith, Bool, List, [],
  ◌∷◌, ◌++◌,
}
use magilla.Base.{
  length, take, drop, All, IsByte, length-take, length-drop, take-append-drop, All-take, All-drop,
  ltb, ◌==◌, if◌then◌else◌, Bool-cases, inl, inr,
}
use magilla.Mask.{mask_words, mask_bytes, word_key, load_word}
use magilla.Mask.Words.{xor_word}
use magilla.Mask.Laws.{
  masked, masked-mod, masked-append, mask_each-masked, bit_and_three, length-word_key,
  word_key-IsByte, xor_word_key,
}

masked_cut :
    (key : List ℕ) (n p q : ℕ) (b : List ℕ)
    → n ≤ length b
    → (p + n) % 4 ≡ q % 4
    → masked key p (take n b) ++ masked key q (drop n b) ≡ masked key p b
masked_cut key n p q b h e =
    let cut : length (take n b) ≡ n = omega (arith, length-take n b) in
    let same : (p + length (take n b)) % 4 ≡ q % 4 = rw cut e in
    sym (
      ap (masked key p) (sym (take-append-drop n b))
      ∙ masked-append key p (take n b) (drop n b)
      ∙ ap (λ t. masked key p (take n b) ++ t) (masked-mod key _ q (drop n b) same))

module _ (big : Bool) (w : ℕ) (fours : w % 4 ≡ 0) (pos_w : 0 < w) (key : List ℕ)
    (key_bytes : All IsByte key) where
  mask_words-masked :
      (m pos : ℕ) (b : List ℕ)
      → length b ≡ m * w
      → All IsByte b
      → mask_words big w (load_word big (word_key key w pos)) m b ≡ masked key pos b
  unfolding mask_words
  mask_words-masked zero pos [] e hb = unfold masked in refl
  mask_words-masked zero pos (x ∷ b) e hb = absurd (omega arith)
  mask_words-masked (suc m) pos b e hb =
      let cut : length (take w b) ≡ w = omega (arith, length-take w b) in
      let word =
        xor_word big w (take w b) (word_key key w pos) cut (length-word_key key w pos)
          (All-take IsByte w b hb) (word_key-IsByte key w pos key_bytes)
        ∙ xor_word_key key w pos (take w b) cut in
      let rest =
        mask_words-masked m pos (drop w b) (omega (arith, length-drop w b))
          (All-drop IsByte w b hb) in
      rw (word, rest) (masked_cut key w pos pos b (omega arith) (omega arith))

  words_fours : (m : ℕ) → (m * w) % 4 ≡ 0
  words_fours m = let e : w ≡ 4 * (w / 4) = omega arith in omega (arith, ap (λ (t : ℕ). m * t) e)

  -- The words and the rest of the buffer, after `n` bytes in front.
  aligned_part :
      (m pos : ℕ) (b : List ℕ)
      → m * w ≤ length b
      → All IsByte b
      → mask_words big w (load_word big (word_key key w pos)) m (take (m * w) b)
          ++ masked key pos (drop (m * w) b)
        ≡ masked key pos b
  aligned_part m pos b fits hb =
      let words =
        mask_words-masked m pos (take (m * w) b) (omega (arith, length-take (m * w) b))
          (All-take IsByte (m * w) b hb) in
      rw words (masked_cut key (m * w) pos pos b fits (omega (arith, words_fours m)))

  -- The loops of the long case, with the position that each is handed.
  long_case :
      (n pos : ℕ) (b : List ℕ)
      → n ≤ length b
      → All IsByte b
      → let m = length (drop n b) / w in
        masked key pos (take n b)
          ++ (mask_words big w
                (load_word big (word_key key w (pos + length (take n b))))
                m
                (take (m * w) (drop n b))
              ++ masked key (pos + length (take n b)) (drop (m * w) (drop n b)))
        ≡ masked key pos b
  long_case n pos b fits hb =
      let m = length (drop n b) / w in
      let whole : m * w ≤ length (drop n b) = grind arith in
      rw (aligned_part m (pos + length (take n b)) (drop n b) whole (All-drop IsByte n b hb))
        (masked_cut key n pos (pos + length (take n b)) b fits (omega (arith, length-take n b)))

  long_position :
      (n pos : ℕ) (b : List ℕ)
      → n ≤ length b
      → let m = length (drop n b) / w in
        (pos + length (take n b) + length (drop (m * w) (drop n b))) % 4 ≡ (pos + length b) % 4
  long_position n pos b fits =
      let m = length (drop n b) / w in
      let whole : m * w ≤ length (drop n b) = grind arith in
      omega (arith, length-take n b, length-drop n b, length-drop (m * w) (drop n b), words_fours m)

  -- With words of a multiple of four bytes, on either byte order and at any alignment, `maskBytes`
  -- XORs octet `i` with octet `(pos + i) mod 4` of the key and returns the position after the last.
  pub mask_bytes-masked :
      (align pos : ℕ) (b : List ℕ)
      → align < w
      → All IsByte b
      → mask_bytes big w align key pos b ≡ (masked key pos b, (pos + length b) % 4)
  unfolding mask_bytes
  mask_bytes-masked align pos b ha hb = elim (Bool-cases (ltb (length b) (2 * w))) [
    | inl short ↦ rw (short, mask_each-masked key pos b, bit_and_three (pos + length b))
    | inr long ↦
        let n = if align == 0 then 0 else w - align in
        let fits : n ≤ length b = ground arith in
        simp (long, mask_each-masked, bit_and_three)
          (rw (long_case n pos b fits hb, long_position n pos b fits))
  ]
