-- ===== src/Address/Tari/Accepted.antt =====
-- What the readers of texts accept.
use mathlib.Core.Path.{subst}
use go_tari_lib.Common.{
  ℕ, ◌≡◌, ◌⊎◌, inl, inr, refl, sym, ◌∙◌, take, drop, slice, Bool, Option, some, none, List, [], ◌∷◌,
  ◌++◌, arith, All-append,
}
use go_tari_lib.Common.Bits.{IsByte}
use go_tari_lib.Common.Result.{
  Result, ok, err, ◌>>=◌, bind-eq-ok, some_or_fail, some_or_fail-eq-ok, guard-eq-ok, ok-injective,
}
use go_tari_lib.Stdlib.Hex.{decode_string, decode_string-IsByte}
use go_tari_lib.Stdlib.Utf8.{runes}
use go_tari_lib.Address.Errors.{
  Error, invalid_emoji, cannot_recover_public_key, cannot_recover_network, cannot_recover_feature,
}
use go_tari_lib.Address.Emoji.{reverse_emoji_sound, reverse_emoji}
use go_tari_lib.Address.Dammsum.Detect.{IsBytes}
use go_tari_lib.Address.Base58.{Base58, decode_parts, decode_bytes, split_network_features_rest}
use go_tari_lib.Address.Single.{emoji_loop, single_emoji_to_bytes}
use go_tari_lib.Address.Dual.{dual_emoji_to_bytes}
use go_tari_lib.Address.Tari.{
  Address, IsAddress, emoji_to_bytes, from_emoji_string, from_base58, from_hex, parse, or_else,
}
use go_tari_lib.Address.Tari.Codec.{read}

emoji_loop-none :
    (c : ℕ) (cs out : List ℕ) → reverse_emoji c ≡ none → emoji_loop (c ∷ cs) out ≡ err invalid_emoji
unfolding emoji_loop
emoji_loop-none c cs out r = ground arith

emoji_loop-some :
    (c b : ℕ) (cs out : List ℕ)
    → reverse_emoji c ≡ some b
    → emoji_loop (c ∷ cs) out ≡ emoji_loop cs (out ++ (b ∷ []))
unfolding emoji_loop
emoji_loop-some c b cs out r = ground arith

refused : (e : Error) (bs : List ℕ) → err e ≡ ok bs → IsBytes bs
refused e bs h = cc

emoji_step-IsBytes :
    (c : ℕ) (cs out bs : List ℕ) (o : Option ℕ)
    → reverse_emoji c ≡ o
    → IsBytes out
    → ((b : ℕ) → IsBytes (out ++ (b ∷ [])) → emoji_loop cs (out ++ (b ∷ [])) ≡ ok bs → IsBytes bs)
    → emoji_loop (c ∷ cs) out ≡ ok bs
    → IsBytes bs
emoji_step-IsBytes c cs out bs none r h again e =
    refused invalid_emoji bs (sym (emoji_loop-none c cs out r) ∙ e)
emoji_step-IsBytes c cs out bs (some b) r h again e =
    again b (All-append IsByte out (b ∷ []) h ((reverse_emoji_sound c b r).1, tt))
      (sym (emoji_loop-some c b cs out r) ∙ e)

emoji_loop-IsBytes : (cs out bs : List ℕ) → IsBytes out → emoji_loop cs out ≡ ok bs → IsBytes bs
unfolding emoji_loop
emoji_loop-IsBytes [] out bs h e = subst IsBytes (ok-injective out bs e) h
emoji_loop-IsBytes (c ∷ cs) out bs h e =
    emoji_step-IsBytes c cs out bs (reverse_emoji c) refl h
      (λ b. emoji_loop-IsBytes cs (out ++ (b ∷ [])) bs) e

emoji_to_bytes-IsBytes : (cs bs : List ℕ) → emoji_to_bytes cs ≡ ok bs → IsBytes bs
unfolding emoji_to_bytes single_emoji_to_bytes dual_emoji_to_bytes
emoji_to_bytes-IsBytes cs bs e = emoji_loop-IsBytes cs [] bs tt (ground arith)

-- The bytes that a base58 codec decodes to are bytes.
abbrev pub DecodesBytes : Base58 → Type 0
DecodesBytes c = (s bs : List ℕ) → c.decode s ≡ some bs → IsBytes bs

-- The three parts, each decoded or not.
abbrev joined : Option (List ℕ) → Option (List ℕ) → Option (List ℕ) → Result Error (List ℕ)
joined n f r = do
  network_bytes ← some_or_fail n cannot_recover_network
  features_bytes ← some_or_fail f cannot_recover_feature
  rest_bytes ← some_or_fail r cannot_recover_public_key
  ok ((network_bytes ++ features_bytes) ++ rest_bytes)

joined-IsBytes :
    (n f r : Option (List ℕ)) (bs : List ℕ)
    → ((b : List ℕ) → n ≡ some b → IsBytes b)
    → ((b : List ℕ) → f ≡ some b → IsBytes b)
    → ((b : List ℕ) → r ≡ some b → IsBytes b)
    → joined n f r ≡ ok bs
    → IsBytes bs
joined-IsBytes none f r bs hn hf hr e = cc
joined-IsBytes (some n) none r bs hn hf hr e = cc
joined-IsBytes (some n) (some f) none bs hn hf hr e = cc
joined-IsBytes (some n) (some f) (some r) bs hn hf hr e =
    subst IsBytes (ok-injective _ bs e)
      (All-append IsByte (n ++ f) r (All-append IsByte n f (hn n refl) (hf f refl)) (hr r refl))

decode_parts-joined :
    (c : Base58) (s bs : List ℕ)
    → decode_parts c s ≡ ok bs
    → joined (c.decode (take 1 (take 2 s))) (c.decode (slice 1 2 (take 2 s))) (c.decode (drop 2 s))
      ≡ ok bs
unfolding decode_parts decode_bytes split_network_features_rest
decode_parts-joined c s bs e = ground (arith, e)

decode_parts-IsBytes :
    (c : Base58) → DecodesBytes c → (s bs : List ℕ) → decode_parts c s ≡ ok bs → IsBytes bs
decode_parts-IsBytes c law s bs e =
    joined-IsBytes _ _ _ bs (law _) (law _) (law _) (decode_parts-joined c s bs e)

module _ (is_canonical : List ℕ → Bool) (a : Address) where
  from_emoji_string-IsAddress :
      (s : List ℕ) → from_emoji_string is_canonical s ≡ ok a → IsAddress is_canonical a
  unfolding from_emoji_string
  from_emoji_string-IsAddress s e =
      let (b, made, rest) = bind-eq-ok _ _ _ e in
      (read is_canonical b a (emoji_to_bytes-IsBytes (runes s) b made) rest).0

  from_hex-IsAddress : (s : List ℕ) → from_hex is_canonical s ≡ ok a → IsAddress is_canonical a
  unfolding from_hex
  from_hex-IsAddress s e =
      let (b, made, rest) = bind-eq-ok _ _ _ e in
      (read is_canonical b a
        (decode_string-IsByte s b
          (some_or_fail-eq-ok (decode_string s) cannot_recover_public_key made))
        rest).0

  from_base58-IsAddress :
      (c : Base58)
      → DecodesBytes c
      → (s : List ℕ) → from_base58 is_canonical c s ≡ ok a
      → IsAddress is_canonical a
  unfolding from_base58
  from_base58-IsAddress c law s e =
      let (b, made, rest) = bind-eq-ok _ _ _ (guard-eq-ok _ _ _ e).1 in
      (read is_canonical b a (decode_parts-IsBytes c law s b made) rest).0

  or_else-eq-ok :
      (one two three : Result Error Address) (e : Error)
      → or_else one (or_else two (or_else three (err e))) ≡ ok a
      → (one ≡ ok a) ⊎ ((two ≡ ok a) ⊎ (three ≡ ok a))
  or_else-eq-ok (ok b) two three e h = inl h
  or_else-eq-ok (err f) (ok b) three e h = inr (inl h)
  or_else-eq-ok (err f) (err g) (ok b) e h = inr (inr h)
  or_else-eq-ok (err f) (err g) (err k) e h = cc

  -- For a base58 codec that decodes to bytes: what `Parse` returns is a valid address, whichever of the
  -- three readers it is from.
  pub parse-IsAddress :
      (c : Base58)
      → DecodesBytes c
      → (s : List ℕ) → parse is_canonical c s ≡ ok a
      → IsAddress is_canonical a
  unfolding parse
  parse-IsAddress c law s e = elim (or_else-eq-ok _ _ _ _ e) [
    | inl emoji ↦ from_emoji_string-IsAddress _ emoji
    | inr (inl base58) ↦ from_base58-IsAddress c law s base58
    | inr (inr hex) ↦ from_hex-IsAddress s hex
  ]
