-- ===== src/ResponderSpike/PeerStore/Served.antt =====
-- cmd/p2p-responder-spike/main.go: what a listing serves.
use mathlib.Core.Path.{subst}
use mathlib.Core.List.{Permᴰ}
use mathlib.Core.List.Permᴰ
use go_tari_lib.Common.{
  ℕ, zero, suc, ◌+◌, ◌≤◌, ◌<◌, ◌≡◌, refl, sym, ap, ◌∙◌, Bool, true, false, leb, if◌then◌else◌,
  arith, List, [], ◌∷◌, ◌++◌, map, length, take, drop, min, All, length-take, length-append,
  append_assoc, append-nil, length-map,
}
use go_tari_lib.P2p.Rpc.Messages.{PeerInfo}
use go_tari_lib.ResponderSpike.PeerStore.{
  Entry, PeerStore, is_stale, prune, list_loop, Order, list, max_served_peers,
}

abbrev pub info_of : Entry → PeerInfo
info_of e = e.1.info

-- Seen within the last 60 minutes, in nanoseconds, and before them.
abbrev pub IsOfLastHour : ℕ → Entry → Type 0
IsOfLastHour now e = now ≤ e.1.seen_at + 3600000000000

abbrev pub IsOlder : ℕ → Entry → Type 0
IsOlder now e = e.1.seen_at + 3600000000000 < now

-- The entries that are kept, and the ones that are not: those of the last hour and the older ones.
pub record IsSplit (now : ℕ) (kept entries : List Entry) : Type 0 where
  pub old : List Entry
  pub together : Permᴰ (kept ++ old) entries
  pub recent : All (IsOfLastHour now) kept
  pub older : All (IsOlder now) old

prune-IsSplit : (now : ℕ) (entries : List Entry) → IsSplit now (prune now entries) entries
prune-IsSplit now [] = record { old = []; together = Permᴰ.nil; recent = tt; older = tt }
prune-IsSplit now ((k, p) ∷ entries) = by_test (is_stale now p) refl (prune-IsSplit now entries)
  where
    by_test :
        (b : Bool)
        → is_stale now p ≡ b
        → IsSplit now (prune now entries) entries
        → IsSplit now
            (if b then prune now entries else (k, p) ∷ prune now entries)
            ((k, p) ∷ entries)
    by_test true e h = record {
      old = (k, p) ∷ h.old;
      together =
          Permᴰ.trans (Permᴰ.middle (k, p) (prune now entries) h.old) (Permᴰ.cons refl h.together);
      recent = h.recent;
      older = (ground arith, h.older);
    }
    by_test false e h = record {
      old = h.old;
      together = Permᴰ.cons refl h.together;
      recent = (ground arith, h.recent);
      older = h.older;
    }

list_loop_lem :
    (out : List PeerInfo) (entries : List Entry) (room : ℕ)
    → length out + suc room ≡ max_served_peers
    → list_loop out entries ≡ out ++ map info_of (take (suc room) entries)
list_loop_lem out [] room h = sym (append-nil out)
list_loop_lem out ((k, p) ∷ entries) room h =
    by_room room (leb max_served_peers (length (out ++ (p.info ∷ [])))) refl h
      (λ r g. list_loop_lem (out ++ (p.info ∷ [])) entries r g)
  where
    by_room :
        (room : ℕ) (b : Bool)
        → leb max_served_peers (length (out ++ (p.info ∷ []))) ≡ b
        → length out + suc room ≡ max_served_peers
        → ((r : ℕ)
            → length (out ++ (p.info ∷ [])) + suc r ≡ max_served_peers
            → list_loop (out ++ (p.info ∷ [])) entries
              ≡ (out ++ (p.info ∷ [])) ++ map info_of (take (suc r) entries))
        → (if b then out ++ (p.info ∷ []) else list_loop (out ++ (p.info ∷ [])) entries)
          ≡ out ++ (p.info ∷ map info_of (take room entries))
    by_room zero true e h ih = refl
    by_room zero false e h ih = absurd (ground (arith, length-append out (p.info ∷ [])))
    by_room (suc r) true e h ih = absurd (ground (arith, length-append out (p.info ∷ [])))
    by_room (suc r) false e h ih =
        ih r (omega (arith, length-append out (p.info ∷ [])))
        ∙ append_assoc out (p.info ∷ []) (map info_of (take (suc r) entries))

length-Permᴰ : {A : Type 0} {xs ys : List A} → Permᴰ xs ys → length xs ≡ length ys
length-Permᴰ Permᴰ.nil = refl
length-Permᴰ (Permᴰ.cons e d) = ap suc (length-Permᴰ d)
length-Permᴰ (Permᴰ.swap e f) = refl
length-Permᴰ (Permᴰ.trans d e) = length-Permᴰ d ∙ length-Permᴰ e

map-take-drop :
    (n : ℕ) (entries : List Entry)
    → map info_of (take n entries) ++ map info_of (drop n entries) ≡ map info_of entries
map-take-drop zero entries = refl
map-take-drop (suc n) [] = refl
map-take-drop (suc n) (e ∷ entries) = ap (λ l. info_of e ∷ l) (map-take-drop n entries)

-- In whatever order the map is gone over, a listing serves 200 peers, or all of the last hour where they are
-- fewer: with the ones it leaves out, it is these peers in some order. The store keeps exactly the entries
-- of the last 3600000000000 nanoseconds: with older ones, they are the entries that it had, in some order.
pub list_served :
    (order : Order) (now : ℕ) (s : PeerStore)
    → let (served, kept) = list order now s in
      ((left_out : List PeerInfo) × Permᴰ (served ++ left_out) (map info_of kept.peers))
      × (length served ≡ min 200 (length kept.peers))
      × IsSplit now kept.peers s.peers
unfolding list
list_served order now s =
    let kept = prune now s.peers in
    let visited = order.visit kept in
    let served = list_loop_lem [] visited 199 refl in
    (
      (
        map info_of (drop 200 visited),
        subst (λ l. Permᴰ l (map info_of kept))
            (sym (ap (λ l. l ++ map info_of (drop 200 visited)) served ∙ map-take-drop 200 visited))
            (Permᴰ.map info_of (order.visit_all kept)),
      ),
      ap length served
          ∙ length-map info_of (take 200 visited)
          ∙ length-take 200 visited
          ∙ ap (min 200) (length-Permᴰ (order.visit_all kept)),
      prune-IsSplit now s.peers,
    )
