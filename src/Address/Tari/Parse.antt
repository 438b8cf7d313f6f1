-- ===== src/Address/Tari/Parse.antt =====
-- `Parse`
use mathlib.Core.Path.{subst}
use go_tari_lib.Common.{
  ==_iff, ℕ, ◌≡◌, ◌≢◌, refl, sym, Bool, List, [], ◌∷◌, ◌++◌, map, arith, All, ◌==◌, Bool-cases, inl,
  inr, if◌then◌else◌,
}
use go_tari_lib.Common.Result.{ok}
use go_tari_lib.Stdlib.Utf8.{string_of_runes}
use go_tari_lib.Stdlib.Trim.{remove, is_space}
use go_tari_lib.Stdlib.Trim.Runes.{IsPad, IsVisible, trim_space-pad, remove-string}
use go_tari_lib.Address.Emoji.{emoji_at, emoji_at-IsRune, emoji_at_visible}
use go_tari_lib.Address.Dammsum.Detect.{IsBytes}
use go_tari_lib.Address.Single.{single_bytes}
use go_tari_lib.Address.Dual.{dual_bytes}
use go_tari_lib.Address.Base58.{Base58}
use go_tari_lib.Address.Tari.{Address, IsAddress, dual_valid, single_valid, bytes, parse}
use go_tari_lib.Address.Tari.Codec.{bytes-IsBytes}
use go_tari_lib.Address.Tari.Texts.{emoji_string-bytes, from-emoji_string}

emojis-IsVisible : (bs : List ℕ) → IsBytes bs → All IsVisible (map emoji_at bs)
emojis-IsVisible [] h = tt
emojis-IsVisible (b ∷ bs) (hb, h) =
    ((emoji_at-IsRune b hb, emoji_at_visible b hb), emojis-IsVisible bs h)

bar-IsVisible : IsVisible b'|'
unfolding is_space
bar-IsVisible = (inl (omega arith), refl)

-- Bars are visible, so runes that are visible without their bars are visible.
barred-IsVisible : (rs : List ℕ) → All IsVisible (remove b'|' rs) → All IsVisible rs
unfolding remove
barred-IsVisible [] h = tt
barred-IsVisible (r ∷ rs) h = elim (Bool-cases (r == b'|')) [
  | inl bar ↦ (
    subst IsVisible (sym ((==_iff r b'|').0 bar)) bar-IsVisible,
    barred-IsVisible rs
        (subst (λ t. All IsVisible (if t then remove b'|' rs else r ∷ remove b'|' rs)) bar h),
  )
  | inr other ↦
      let (v, vs) =
        subst (λ t. All IsVisible (if t then remove b'|' rs else r ∷ remove b'|' rs)) other h in
      (v, barred-IsVisible rs vs)
]

not_empty :
    (is_canonical : List ℕ → Bool) (a : Address)
    → IsAddress is_canonical a
    → [] ≢ map emoji_at (bytes a)
unfolding bytes single_bytes dual_bytes
not_empty is_canonical a (single_valid s v) e = cc
not_empty is_canonical a (dual_valid d v) e = cc

module _ (is_canonical : List ℕ → Bool) (c : Base58) (a : Address)
    (v : IsAddress is_canonical a) where
  shown : All IsVisible (map emoji_at (bytes a))
  shown = emojis-IsVisible (bytes a) (bytes-IsBytes is_canonical a v)

  -- `Parse` reads the emoji text of a valid address back to the address, with any number of bars
  -- between, before and behind the emoji, and with any white space of one byte around it all, for every
  -- base58 codec.
  pub parse-emoji_string :
      (pad after rs : List ℕ)
      → All IsPad pad
      → All IsPad after
      → remove b'|' rs ≡ map emoji_at (bytes a)
      → parse is_canonical c (pad ++ (string_of_runes rs ++ after)) ≡ ok a
  unfolding parse
  parse-emoji_string pad after [] h k e = absurd (not_empty is_canonical a v (unfold remove in e))
  parse-emoji_string pad after (r ∷ rs) h k e =
      rw
        (trim_space-pad pad after r rs h k
          (barred-IsVisible (r ∷ rs) (subst (All IsVisible) (sym e) shown)))
        (rw (remove-string b'|' (r ∷ rs) (omega arith)) (
          rw e (
            rw (sym (emoji_string-bytes is_canonical a v))
              (rw (from-emoji_string is_canonical a v) refl))))
