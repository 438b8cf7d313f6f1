-- ===== src/Stdlib/Trim/Runes.antt =====
-- Trimming and the removal of a byte, on a text that is written rune by rune.
use go_tari_lib.Common.{
  ℕ, zero, suc, ◌+◌, ◌/◌, ◌%◌, ◌≤◌, ◌<◌, ◌≡◌, refl, sym, ap, ◌∙◌, true, false, List, [], ◌∷◌, ◌++◌,
  arith, ltb, ◌==◌, if◌then◌else◌, length, length-append, All, All-append, append_assoc, append-nil,
  Bool-cases, inl, inr,
}
use go_tari_lib.Stdlib.Utf8.{
  IsRune, reads, decode_rune, decode_two, decode_three, decode_last, decode_four, second_lo,
  second_hi, three_bytes, encode_rune, string_of_runes, is_continuation,
}
use go_tari_lib.Stdlib.Trim.{
  remove, reverse, is_space, decode_last_rune, trim_loop, trim_left, trim_right, trim_space,
}

-- White space of one byte.
abbrev pub IsPad : ℕ → Type 0
IsPad b = (b < 0x80) × (is_space b ≡ true)

reverse-append : (xs ys : List ℕ) → reverse (xs ++ ys) ≡ reverse ys ++ reverse xs
reverse-append [] ys = sym (append-nil (reverse ys))
reverse-append (x ∷ xs) ys =
    ap (λ t. t ++ (x ∷ [])) (reverse-append xs ys) ∙ append_assoc (reverse ys) (reverse xs) (x ∷ [])

reverse-reverse : (xs : List ℕ) → reverse (reverse xs) ≡ xs
reverse-reverse [] = refl
reverse-reverse (x ∷ xs) =
    reverse-append (reverse xs) (x ∷ []) ∙ ap (λ t. x ∷ t) (reverse-reverse xs)

All-reverse : (P : ℕ → Type 0) (xs : List ℕ) → All P xs → All P (reverse xs)
All-reverse P [] h = tt
All-reverse P (x ∷ xs) (p, h) = All-append P (reverse xs) (x ∷ []) (All-reverse P xs h) (p, tt)

length-reverse : (xs : List ℕ) → length (reverse xs) ≡ length xs
length-reverse [] = refl
length-reverse (x ∷ xs) = omega (arith, length-append (reverse xs) (x ∷ []), length-reverse xs)

-- A loop that reads one byte of padding at a time stops where the padding does.
trim_loop-pad :
    (decode : List ℕ → ℕ × ℕ)
    → ((b : ℕ) (s : List ℕ) → IsPad b → decode (b ∷ s) ≡ (b, 1))
    → (fuel : ℕ) (pad t : List ℕ) → All IsPad pad
    → is_space (decode t).0 ≡ false
    → length (pad ++ t) ≤ fuel
    → trim_loop decode fuel (pad ++ t) ≡ t
trim_loop-pad decode reads zero [] t h stop enough = refl
trim_loop-pad decode reads (suc fuel) [] [] h stop enough = refl
trim_loop-pad decode reads (suc fuel) [] (x ∷ t) h stop enough = rw stop refl
trim_loop-pad decode reads zero (b ∷ pad) t h stop enough = absurd (omega arith)
trim_loop-pad decode reads (suc fuel) (b ∷ pad) t (hb, h) stop enough =
    rw (reads b (pad ++ t) hb)
      (rw hb.1 (trim_loop-pad decode reads fuel pad t h stop (omega arith)))

decode_rune-pad : (b : ℕ) (s : List ℕ) → IsPad b → decode_rune (b ∷ s) ≡ (b, 1)
unfolding decode_rune decode_four second_lo second_hi
decode_rune-pad b s h = ground (arith, h.0)

decode_last_rune-pad : (b : ℕ) (s : List ℕ) → IsPad b → decode_last_rune (b ∷ s) ≡ (b, 1)
unfolding decode_last_rune
decode_last_rune-pad b [] h = ground (arith, h.0)
decode_last_rune-pad b (y ∷ []) h = ground (arith, h.0)
decode_last_rune-pad b (y ∷ x ∷ []) h = ground (arith, h.0)
decode_last_rune-pad b (y ∷ x ∷ w ∷ s) h = ground (arith, h.0)

-- The last rune is the one that its bytes decode to.
last_two :
    (z y r : ℕ) (s : List ℕ)
    → ltb z 0x80 ≡ false
    → is_continuation y ≡ false
    → decode_rune (y ∷ z ∷ []) ≡ (r, 2)
    → decode_last_rune (z ∷ y ∷ s) ≡ (r, 2)
unfolding decode_last_rune
last_two z y r [] hz hy e = rw hz (rw e refl)
last_two z y r (x ∷ []) hz hy e = rw hz (rw hy (rw e refl))
last_two z y r (x ∷ w ∷ s) hz hy e = rw hz (rw hy (rw e refl))

last_three :
    (z y x r : ℕ) (s : List ℕ)
    → ltb z 0x80 ≡ false
    → is_continuation y ≡ true
    → is_continuation x ≡ false
    → decode_rune (x ∷ y ∷ z ∷ []) ≡ (r, 3)
    → decode_last_rune (z ∷ y ∷ x ∷ s) ≡ (r, 3)
unfolding decode_last_rune
last_three z y x r [] hz hy hx e = rw hz (rw hy (rw e refl))
last_three z y x r (w ∷ s) hz hy hx e = rw hz (rw hy (rw hx (rw e refl)))

last_four :
    (z y x w r : ℕ) (s : List ℕ)
    → ltb z 0x80 ≡ false
    → is_continuation y ≡ true
    → is_continuation x ≡ true
    → decode_rune (w ∷ x ∷ y ∷ z ∷ []) ≡ (r, 4)
    → decode_last_rune (z ∷ y ∷ x ∷ w ∷ s) ≡ (r, 4)
unfolding decode_last_rune
last_four z y x w r s hz hy hx e = rw hz (rw hy (rw hx (rw e refl)))

abbrev pub low : ℕ → ℕ
low n = 0x80 + n % 64

low_late : (n : ℕ) → ltb (low n) 0x80 ≡ false
low_late n = ground arith

low_continues : (n : ℕ) → is_continuation (low n) ≡ true
low_continues n = ground arith

decode_last_rune_ascii : (r : ℕ) (s : List ℕ) → r < 0x80 → decode_last_rune (r ∷ s) ≡ (r, 1)
unfolding decode_last_rune
decode_last_rune_ascii r [] h = ground arith
decode_last_rune_ascii r (y ∷ []) h = ground arith
decode_last_rune_ascii r (y ∷ x ∷ []) h = ground arith
decode_last_rune_ascii r (y ∷ x ∷ w ∷ s) h = ground arith

-- A rune that is written last is the last that is read.
decode_last_rune-encode :
    (r : ℕ) (s : List ℕ) → IsRune r → (decode_last_rune (reverse (encode_rune r) ++ s)).0 ≡ r
decode_last_rune-encode r s h = elim (Bool-cases (ltb r 0x80)) [
  | inl one ↦
      by (r ∷ []) (unfold encode_rune in ground arith) (decode_last_rune_ascii r s (ground arith))
  | inr more ↦ elim (Bool-cases (ltb r 0x800)) [
    | inl two ↦ by ((0xc0 + r / 64) ∷ low r ∷ []) (unfold encode_rune in ground arith) (
        last_two (low r) (0xc0 + r / 64) r s (low_late r) (ground arith)
          (unfold decode_rune in decode_two r 0 0 (ground arith) (ground arith)))
    | inr more' ↦ elim (Bool-cases (ltb r 0x10000)) [
      | inl three ↦
          by ((0xe0 + r / 4096) ∷ low (r / 64) ∷ low r ∷ [])
            (unfold encode_rune three_bytes in ground arith)
            (last_three (low r) (low (r / 64)) (0xe0 + r / 4096) r s (low_late r)
              (low_continues (r / 64)) (ground arith)
              (unfold decode_rune in decode_three r 0 (ground arith) (ground arith) h))
      | inr four ↦
          by ((0xf0 + r / 262144) ∷ low (r / 4096) ∷ low (r / 64) ∷ low r ∷ [])
            (unfold encode_rune in ground arith)
            (last_four (low r) (low (r / 64)) (low (r / 4096)) (0xf0 + r / 262144) r s (low_late r)
              (low_continues (r / 64)) (low_continues (r / 4096))
              (unfold decode_rune in decode_last r (ground arith) (ground arith)))
    ]
  ]
]
  where
    by :
        (bytes : List ℕ) {width : ℕ}
        → encode_rune r ≡ bytes
        → decode_last_rune (reverse bytes ++ s) ≡ (r, width)
        → (decode_last_rune (reverse (encode_rune r) ++ s)).0 ≡ r
    by bytes written read =
        ap (λ t. (decode_last_rune (reverse t ++ s)).0) written ∙ ap (λ x. x.0) read

decode_rune-encode : (r : ℕ) (s : List ℕ) → IsRune r → (decode_rune (encode_rune r ++ s)).0 ≡ r
decode_rune-encode r s h =
    let x = reads r s h in ap (λ t. (decode_rune (t ++ s)).0) x.written ∙ ap (λ y. y.0) x.read

-- A rune that is no white space.
abbrev pub IsVisible : ℕ → Type 0
IsVisible r = IsRune r × (is_space r ≡ false)

record Ends (rs : List ℕ) : Type 0 where
  front : List ℕ
  final : ℕ
  visible : IsVisible final
  split : string_of_runes rs ≡ front ++ encode_rune final

ends : (r : ℕ) (rs : List ℕ) → All IsVisible (r ∷ rs) → Ends (r ∷ rs)
unfolding string_of_runes
ends r [] (h, u) = record { front = []; final = r; visible = h; split = append-nil (encode_rune r) }
ends r (q ∷ rs) (h, hs) =
    let e = ends q rs hs in
    record {
      front = encode_rune r ++ e.front;
      final = e.final;
      visible = e.visible;
      split =
          ap (λ t. encode_rune r ++ t) e.split
          ∙ sym (append_assoc (encode_rune r) e.front (encode_rune e.final));
    }

trim_left-pad :
    (pad t : List ℕ) → All IsPad pad → is_space (decode_rune t).0 ≡ false → trim_left (pad ++ t) ≡ t
unfolding trim_left
trim_left-pad pad t h stop =
    trim_loop-pad decode_rune decode_rune-pad (length (pad ++ t)) pad t h stop (omega arith)

trim_right-pad :
    (t pad : List ℕ)
    → All IsPad pad
    → is_space (decode_last_rune (reverse t)).0 ≡ false
    → trim_right (t ++ pad) ≡ t
unfolding trim_right
trim_right-pad t pad h stop =
    ap (λ x. reverse (trim_loop decode_last_rune (length (t ++ pad)) x)) (reverse-append t pad)
    ∙ ap reverse (
        trim_loop-pad decode_last_rune decode_last_rune-pad (length (t ++ pad)) (reverse pad)
          (reverse t) (All-reverse IsPad pad h) stop enough)
    ∙ reverse-reverse t
  where
    enough : length (reverse pad ++ reverse t) ≤ length (t ++ pad)
    enough = omega (
      arith,
      length-append (reverse pad) (reverse t),
      length-append t pad,
      length-reverse pad,
      length-reverse t,
    )

-- White space of one byte around a text of visible runes goes, and nothing else.
pub trim_space-pad :
    (pad after : List ℕ) (r : ℕ) (rs : List ℕ)
    → All IsPad pad
    → All IsPad after
    → All IsVisible (r ∷ rs)
    → trim_space (pad ++ (string_of_runes (r ∷ rs) ++ after)) ≡ string_of_runes (r ∷ rs)
unfolding trim_space
trim_space-pad pad after r rs h k v =
    ap trim_right (trim_left-pad pad _ h starts)
    ∙ trim_right-pad (string_of_runes (r ∷ rs)) after k stops
  where
    starts : is_space (decode_rune (string_of_runes (r ∷ rs) ++ after)).0 ≡ false
    starts =
        unfold string_of_runes in
        ap (λ t. is_space (decode_rune t).0)
          (append_assoc (encode_rune r) (string_of_runes rs) after)
        ∙ ap is_space (decode_rune-encode r (string_of_runes rs ++ after) v.0.0)
        ∙ v.0.1

    stops : is_space (decode_last_rune (reverse (string_of_runes (r ∷ rs)))).0 ≡ false
    stops =
        let e = ends r rs v in
        ap (λ t. is_space (decode_last_rune (reverse t)).0) e.split
        ∙ ap (λ t. is_space (decode_last_rune t).0) (reverse-append e.front (encode_rune e.final))
        ∙ ap is_space (decode_last_rune-encode e.final (reverse e.front) e.visible.0)
        ∙ e.visible.1

remove-append : (c : ℕ) (s t : List ℕ) → remove c (s ++ t) ≡ remove c s ++ remove c t
unfolding remove
remove-append c [] t = refl
remove-append c (b ∷ s) t = ground (arith, remove-append c s t)

remove-encode :
    (c r : ℕ) → c < 0x80 → remove c (encode_rune r) ≡ (if r == c then [] else encode_rune r)
unfolding remove encode_rune three_bytes
remove-encode c r h = ground arith

-- A byte that is a rune of its own is removed from a text when the rune is removed from its runes.
pub remove-string :
    (c : ℕ) (rs : List ℕ) → c < 0x80 → remove c (string_of_runes rs) ≡ string_of_runes (remove c rs)
unfolding remove string_of_runes
remove-string c [] h = refl
remove-string c (r ∷ rs) h =
    remove-append c (encode_rune r) (string_of_runes rs)
    ∙ rw (remove-encode c r h) (
        rw (remove-string c rs h)
          (elim (Bool-cases (r == c)) [ inl same ↦ rw same refl | inr other ↦ rw other refl ]))
