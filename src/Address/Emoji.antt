-- ===== src/Address/Emoji.antt =====
-- address/emoji.go: the dictionary of 256 emoji, and the map back from a code point to its byte.
use go_tari_lib.Common.{
  ℕ, ◌+◌, ◌≡◌, refl, ap, Bool, true, false, not, ◌&&◌, ◌||◌, Option, none, some, List, [], ◌∷◌,
  ◌++◌, arith, ltb, ◌==◌, ==_iff, if◌then◌else◌, get_or,
}
use go_tari_lib.Common.Bits.{IsByte, all_below, all_below_sound}
use go_tari_lib.Stdlib.Text.{codes}
use go_tari_lib.Stdlib.Utf8.{IsRune}
use go_tari_lib.Stdlib.Trim.{is_space}

-- `Emoji`: the index is the byte that the emoji stands for.
unfoldable pub emoji_table : List ℕ
emoji_table =
    codes "🐢📟🌈🌊🎯🐋🌙🤔🌕⭐🎋🌰🌴🌵🌲🌸🌹🌻🌽"
    ++ (codes "🍀🍁🍄🥑🍆🍇🍈🍉🍊🍋🍌🍍🍎🍐🍑🍒🍓🍔🍕"
        ++ (codes "🍗🍚🍞🍟🥝🍣🍦🍩🍪🍫🍬🍭🍯🥐🍳🥄🍵🍶🍷"
            ++ (codes "🍸🍾🍺🍼🎀🎁🎂🎃🤖🎈🎉🎒🎓🎠🎡🎢🎣🎤🎥"
                ++ (codes "🎧🎨🎩🎪🎬🎭🎮🎰🎱🎲🎳🎵🎷🎸🎹🎺🎻🎼🎽"
                    ++ (codes "🎾🎿🏀🏁🏆🏈⚽🏠🏥🏦🏭🏰🐀🐉🐊🐌🐍🦁🐐"
                        ++ (codes "🐑🐔🙈🐗🐘🐙🐚🐛🐜🐝🐞🦋🐣🐨🦀🐪🐬🐭🐮"
                            ++ (codes "🐯🐰🦆🦂🐴🐵🐶🐷🐸🐺🐻🐼🐽🐾👀👅👑👒🧢"
                                ++ (codes "💅👕👖👗👘👙💃👛👞👟👠🥊👢👣🤡👻👽👾🤠"
                                    ++ (codes "👃💄💈💉💊💋👂💍💎💐💔🔒🧩💡💣💤💦💨💩"
                                        ++ (codes "➕💯💰💳💵💺💻💼📈📜📌📎📖📿📡⏰📱📷🔋"
                                            ++ (codes "🔌🚰🔑🔔🔥🔦🔧🔨🔩🔪🔫🔬🔭🔮🔱🗽😂😇😈"
                                                ++ (codes "🤑😍😎😱😷🤢👍👶🚀🚁🚂🚚🚑🚒🚓🛵🚗🚜🚢"
                                                    ++ (codes "🚦🚧🚨🚪🚫🚲🚽🚿🧲")))))))))))))

-- `Emoji[b]`
unfoldable pub emoji_at : ℕ → ℕ
unfolding emoji_table
emoji_at b = get_or emoji_table b 0

-- The loop that fills `ReverseEmoji`: `m[r] = byte(i)`, where a later entry hides an earlier one.
reverse_entries : ℕ → List ℕ → List (ℕ × ℕ) → List (ℕ × ℕ)
reverse_entries i [] m = m
reverse_entries i (r ∷ rs) m = reverse_entries (i + 1) rs ((r, i) ∷ m)

find : ℕ → List (ℕ × ℕ) → Option ℕ
find c [] = none
find c ((r, i) ∷ m) = if r == c then some i else find c m

reverse_map : List (ℕ × ℕ)
unfolding reverse_entries emoji_table
reverse_map = reverse_entries 0 emoji_table []

-- `b, ok := ReverseEmoji[c]`
unfoldable pub reverse_emoji : ℕ → Option ℕ
unfolding find reverse_map
reverse_emoji c = find c reverse_map

found : Option ℕ → ℕ → Bool
found none b = false
found (some a) b = a == b

found_sound : (o : Option ℕ) (b : ℕ) → found o b ≡ true → o ≡ some b
unfolding found
found_sound none b h = cc
found_sound (some a) b h = ap some ((==_iff a b).0 h)

reverse_table : all_below 256 (λ b. found (reverse_emoji (emoji_at b)) b) ≡ true
unfolding all_below found reverse_emoji emoji_at
reverse_table = refl

-- The map takes every emoji of the dictionary back to its byte.
pub reverse-emoji_at : (b : ℕ) → IsByte b → reverse_emoji (emoji_at b) ≡ some b
reverse-emoji_at b h = found_sound _ b (all_below_sound 256 b _ h reverse_table)

entries_agree : List (ℕ × ℕ) → Bool
entries_agree [] = true
entries_agree ((r, i) ∷ m) = emoji_at i == r && ltb i 256 && entries_agree m

map_agrees : entries_agree reverse_map ≡ true
unfolding entries_agree reverse_map emoji_at
map_agrees = refl

find_sound :
    (c b : ℕ) (m : List (ℕ × ℕ))
    → entries_agree m ≡ true
    → find c m ≡ some b
    → (emoji_at b ≡ c) × IsByte b
unfolding entries_agree find
find_sound c b [] h e = cc
find_sound c b ((r, i) ∷ m) h e = ground (arith, find_sound c b m)

-- A code point that the map has is the emoji of the byte that it gives.
pub reverse_emoji_sound : (c b : ℕ) → reverse_emoji c ≡ some b → (emoji_at b ≡ c) × IsByte b
unfolding reverse_emoji
reverse_emoji_sound c b e = find_sound c b reverse_map map_agrees e

rune_table :
    all_below 256
      (λ b. ltb 0xdfff (emoji_at b) && ltb (emoji_at b) 0x110000 || ltb (emoji_at b) 0xd800)
    ≡ true
unfolding all_below emoji_at
rune_table = refl

pub emoji_at-IsRune : (b : ℕ) → IsByte b → IsRune (emoji_at b)
emoji_at-IsRune b h = ground (arith, all_below_sound 256 b _ h rune_table)

visible_table : all_below 256 (λ b. not (is_space (emoji_at b))) ≡ true
unfolding all_below emoji_at is_space
visible_table = refl

-- No emoji is white space.
pub emoji_at_visible : (b : ℕ) → IsByte b → is_space (emoji_at b) ≡ false
emoji_at_visible b h = ground (arith, all_below_sound 256 b _ h visible_table)
