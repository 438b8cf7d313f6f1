-- ===== src/ResponderSpike/PeerStore/Recent.antt =====
-- cmd/p2p-responder-spike/main.go: the store against the history of what was recorded.
use mathlib.Core.Path.{subst}
use mathlib.Core.Option.{some-injective}
use go_tari_lib.Common.{
  ℕ, ◌+◌, ◌≤◌, ◌≡◌, ◌↔◌, refl, sym, ap, ◌∙◌, Bool, true, false, if◌then◌else◌, arith, Option, some,
  none, List, [], ◌∷◌,
}
use go_tari_lib.Stdlib.Hex.{encode_to_string}
use go_tari_lib.P2p.Identity
use go_tari_lib.P2p.Rpc.Negotiation.{bytes_equal, bytes_equal_iff}
use go_tari_lib.ResponderSpike.PeerStore.{
  SeenPeer, Entry, PeerStore, new_peer_store, assign, lookup, seen_info, record_peer, is_stale,
  prune, Order, list,
}
use go_tari_lib.ResponderSpike.PeerStore.Entries.{
  if_recent, IsDistinct, lookup-prune, IsDistinct-prune, lookup-assign_same, lookup-assign_other,
  IsDistinct-assign,
}

-- What was asked of the store, the latest first.
pub data Event : Type 0 where
  recorded : (peer_static_key : List ℕ) (identity : Identity.PeerInfo) (at : ℕ) → Event
  listed : (at : ℕ) → Event

abbrev pub time_of : Event → ℕ
time_of (recorded k i t) = t
time_of (listed t) = t

-- The clock does not go back.
abbrev pub InOrder : ℕ → List Event → Type 0
InOrder now [] = Unit
InOrder now (e ∷ es) = (time_of e ≤ now) × InOrder (time_of e) es

module _ (order : Order) where
  abbrev pub store_after : List Event → PeerStore
  store_after [] = new_peer_store
  store_after (recorded k i t ∷ es) = record_peer k i t (store_after es)
  store_after (listed t ∷ es) = (list order t (store_after es)).1

-- What was last recorded under a key.
abbrev pub last_seen : List ℕ → List Event → Option SeenPeer
last_seen key [] = none
last_seen key (recorded k i t ∷ es) =
    let before = last_seen key es in
    if bytes_equal (encode_to_string k) key
    then some (record {
      info = record {
        public_key = k;
        claims =
            some (record {
              addresses = i.addresses;
              peer_features = i.features;
              identity_signature = none;
            })
            ∷ [];
      };
      seen_at = t;
    })
    else before
last_seen key (listed t ∷ es) = last_seen key es

-- Seen within the last 60 minutes, in nanoseconds.
abbrev pub IsOfLastHour : ℕ → SeenPeer → Type 0
IsOfLastHour now p = now ≤ p.seen_at + 3600000000000

kept_iff :
    (now : ℕ) (o kept : Option SeenPeer) (p : SeenPeer)
    → kept ≡ if_recent now o
    → (kept ≡ some p) ↔ ((o ≡ some p) × IsOfLastHour now p)
kept_iff now none kept p e = (λ k. absurd (clash (sym e ∙ k)), λ (k, recent). absurd (clash k))
  where
    clash : ◌≡◌ {A = Option SeenPeer} none (some p) → ⊥
    clash k = cc
kept_iff now (some q) kept p e = by_test (is_stale now q) refl e
  where
    clash : ◌≡◌ {A = Option SeenPeer} none (some p) → ⊥
    clash k = cc

    by_test :
        (b : Bool)
        → is_stale now q ≡ b
        → kept ≡ (if b then none else some q)
        → (kept ≡ some p) ↔ ((◌≡◌ {A = Option SeenPeer} (some q) (some p)) × IsOfLastHour now p)
    by_test true t k = (
      λ h. absurd (clash (sym k ∙ h)),
      λ (same, recent).
          absurd (fresh t (subst (IsOfLastHour now) (sym (some-injective _ _ same)) recent)),
    )
      where
        fresh : is_stale now q ≡ true → IsOfLastHour now q → ⊥
        fresh t r = ground arith
    by_test false t k = (
      λ h. (sym k ∙ h, subst (IsOfLastHour now) (some-injective _ _ (sym k ∙ h)) (recent t)),
      λ (same, r). k ∙ same,
    )
      where
        recent : is_stale now q ≡ false → IsOfLastHour now q
        recent t = ground arith

if_recent_twice :
    (now t : ℕ) (o : Option SeenPeer) → t ≤ now → if_recent now (if_recent t o) ≡ if_recent now o
if_recent_twice now t none h = refl
if_recent_twice now t (some p) h = by_test (is_stale t p) refl
  where
    by_test :
        (b : Bool)
        → is_stale t p ≡ b
        → if_recent now (if b then none else some p) ≡ if_recent now (some p)
    by_test false e = refl
    by_test true e = sym (ap (λ c. if c then none else some p) later)
      where
        later : is_stale now p ≡ true
        later = ground arith

kept_after_record :
    (key k : List ℕ) (p : SeenPeer) (entries : List Entry) (now : ℕ) (before : Option SeenPeer)
    → IsDistinct entries
    → lookup key (prune now entries) ≡ if_recent now before
    → lookup key (prune now (assign k p entries))
      ≡ if_recent now (if bytes_equal k key then some p else before)
kept_after_record key k p entries now before distinct i =
    lookup-prune now key (assign k p entries) (IsDistinct-assign k p entries distinct)
    ∙ by_test (bytes_equal k key) refl
  where
    by_test :
        (b : Bool)
        → bytes_equal k key ≡ b
        → if_recent now (lookup key (assign k p entries))
          ≡ if_recent now (if b then some p else before)
    by_test true e =
        ap (λ l. if_recent now (lookup l (assign k p entries))) (sym ((bytes_equal_iff k key).0 e))
        ∙ ap (if_recent now) (lookup-assign_same k p entries)
    by_test false e =
        ap (if_recent now) (lookup-assign_other key k p entries e)
        ∙ sym (lookup-prune now key entries distinct)
        ∙ i

InOrder-later : (es : List Event) (t now : ℕ) → t ≤ now → InOrder t es → InOrder now es
InOrder-later [] t now h k = tt
InOrder-later (e ∷ es) t now h (past, k) = (omega arith, k)

module _ (order : Order) where
  store_after-IsDistinct : (es : List Event) → IsDistinct (store_after order es).peers
  unfolding record_peer list
  store_after-IsDistinct [] = tt
  store_after-IsDistinct (recorded k i t ∷ es) =
      IsDistinct-assign (encode_to_string k) (record { info = seen_info k i; seen_at = t })
        (store_after order es).peers (store_after-IsDistinct es)
  store_after-IsDistinct (listed t ∷ es) =
      IsDistinct-prune t (store_after order es).peers (store_after-IsDistinct es)

  kept :
      (es : List Event) (now : ℕ) (key : List ℕ)
      → InOrder now es
      → lookup key (prune now (store_after order es).peers) ≡ if_recent now (last_seen key es)
  unfolding record_peer list
  kept [] now key h = refl
  kept (recorded k i t ∷ es) now key (past, h) =
      kept_after_record key (encode_to_string k) (record { info = seen_info k i; seen_at = t })
        (store_after order es).peers now (last_seen key es) (store_after-IsDistinct es)
        (kept es now key (InOrder-later es t now past h))
  kept (listed t ∷ es) now key (past, h) =
      lookup-prune now key (prune t (store_after order es).peers)
        (IsDistinct-prune t (store_after order es).peers (store_after-IsDistinct es))
      ∙ ap (if_recent now) (kept es t key h)
      ∙ if_recent_twice now t (last_seen key es) past

  -- Whatever was recorded and listed before, at times in their order and none after `now`: a listing now keeps
  -- something under a key exactly if it is what was last recorded under it, and that not more than
  -- 3600000000000 nanoseconds ago. No key is kept twice.
  pub list-last_seen :
      (es : List Event) (now : ℕ) (key : List ℕ)
      → InOrder now es
      → ((p : SeenPeer)
          → (lookup key (list order now (store_after order es)).1.peers ≡ some p)
            ↔ ((last_seen key es ≡ some p) × IsOfLastHour now p))
        × IsDistinct (list order now (store_after order es)).1.peers
  unfolding list
  list-last_seen es now key h = (
    λ p. kept_iff now (last_seen key es) _ p (kept es now key h),
    IsDistinct-prune now (store_after order es).peers (store_after-IsDistinct es),
  )
