-- ===== src/ResponderSpike/PeerStore/Entries.antt =====
-- cmd/p2p-responder-spike/main.go: the entries of the store.
use mathlib.Core.Path.{subst}
use go_tari_lib.Common.{
  ℕ, ◌≡◌, refl, sym, ap, ◌∙◌, Bool, true, false, if◌then◌else◌, Option, some, none, List, [], ◌∷◌,
}
use go_tari_lib.P2p.Rpc.Negotiation.{bytes_equal, bytes_equal_iff}
use go_tari_lib.ResponderSpike.PeerStore.{SeenPeer, Entry, assign, lookup, is_stale, prune}

-- Forgotten, if it is more than an hour ago.
abbrev pub if_recent : ℕ → Option SeenPeer → Option SeenPeer
if_recent now none = none
if_recent now (some p) = if is_stale now p then none else some p

-- No key is there twice.
abbrev pub IsFresh : List ℕ → List Entry → Type 0
IsFresh key [] = Unit
IsFresh key ((k, q) ∷ entries) = (bytes_equal k key ≡ false) × IsFresh key entries

abbrev pub IsDistinct : List Entry → Type 0
IsDistinct [] = Unit
IsDistinct ((k, q) ∷ entries) = IsFresh k entries × IsDistinct entries

lookup_fresh :
    (key : List ℕ) (entries : List Entry) → IsFresh key entries → lookup key entries ≡ none
lookup_fresh key [] h = refl
lookup_fresh key ((k, q) ∷ entries) (other, h) = rw other (lookup_fresh key entries h)

IsFresh-prune :
    (now : ℕ) (key : List ℕ) (entries : List Entry)
    → IsFresh key entries
    → IsFresh key (prune now entries)
IsFresh-prune now key [] h = tt
IsFresh-prune now key ((k, q) ∷ entries) (other, h) =
    by_test (is_stale now q) (IsFresh-prune now key entries h)
  where
    by_test :
        (b : Bool)
        → IsFresh key (prune now entries)
        → IsFresh key (if b then prune now entries else (k, q) ∷ prune now entries)
    by_test true i = i
    by_test false i = (other, i)

pub IsDistinct-prune :
    (now : ℕ) (entries : List Entry) → IsDistinct entries → IsDistinct (prune now entries)
IsDistinct-prune now [] h = tt
IsDistinct-prune now ((k, q) ∷ entries) (fresh, h) =
    by_test (is_stale now q) (IsDistinct-prune now entries h)
  where
    by_test :
        (b : Bool)
        → IsDistinct (prune now entries)
        → IsDistinct (if b then prune now entries else (k, q) ∷ prune now entries)
    by_test true i = i
    by_test false i = (IsFresh-prune now k entries fresh, i)

-- Equal keys and keys that differ.
same_key : (k : List ℕ) → bytes_equal k k ≡ true
same_key k = (bytes_equal_iff k k).1 refl

pub lookup-prune :
    (now : ℕ) (key : List ℕ) (entries : List Entry)
    → IsDistinct entries
    → lookup key (prune now entries) ≡ if_recent now (lookup key entries)
lookup-prune now key [] h = refl
lookup-prune now key ((k, q) ∷ entries) (fresh, h) =
    by_tests (bytes_equal k key) (is_stale now q) refl refl (lookup-prune now key entries h)
  where
    by_tests :
        (b c : Bool)
        → bytes_equal k key ≡ b
        → is_stale now q ≡ c
        → lookup key (prune now entries) ≡ if_recent now (lookup key entries)
        → lookup key (if c then prune now entries else (k, q) ∷ prune now entries)
          ≡ if_recent now (if b then some q else lookup key entries)
    by_tests true true s t i =
        lookup_fresh key (prune now entries) (
          subst (λ l. IsFresh l (prune now entries)) ((bytes_equal_iff k key).0 s)
            (IsFresh-prune now k entries fresh))
        ∙ rw (t, if_recent) refl
    by_tests true false s t i = rw s (rw (t, if_recent) refl)
    by_tests false true s t i = i
    by_tests false false s t i = rw s i

-- Assigning under a key.
pub lookup-assign_same :
    (key : List ℕ) (p : SeenPeer) (entries : List Entry)
    → lookup key (assign key p entries) ≡ some p
lookup-assign_same key p [] = rw (same_key key) refl
lookup-assign_same key p ((k, q) ∷ entries) =
    by_test (bytes_equal k key) refl (lookup-assign_same key p entries)
  where
    by_test :
        (b : Bool)
        → bytes_equal k key ≡ b
        → lookup key (assign key p entries) ≡ some p
        → lookup key (if b then (key, p) ∷ entries else (k, q) ∷ assign key p entries) ≡ some p
    by_test true s i = rw (same_key key) refl
    by_test false s i = rw s i

pub lookup-assign_other :
    (key other : List ℕ) (p : SeenPeer) (entries : List Entry)
    → bytes_equal other key ≡ false
    → lookup key (assign other p entries) ≡ lookup key entries
lookup-assign_other key other p [] h = rw h refl
lookup-assign_other key other p ((k, q) ∷ entries) h =
    by_test (bytes_equal k other) refl (lookup-assign_other key other p entries h)
  where
    by_test :
        (b : Bool)
        → bytes_equal k other ≡ b
        → lookup key (assign other p entries) ≡ lookup key entries
        → lookup key (if b then (other, p) ∷ entries else (k, q) ∷ assign other p entries)
          ≡ (if bytes_equal k key then some q else lookup key entries)
    by_test true s i = rw h (ap (λ b. if b then some q else lookup key entries) (sym (replaced s)))
      where
        replaced : bytes_equal k other ≡ true → bytes_equal k key ≡ false
        replaced s = ap (λ l. bytes_equal l key) ((bytes_equal_iff k other).0 s) ∙ h
    by_test false s i = ap (λ r. if bytes_equal k key then some q else r) i

IsFresh-assign :
    (key other : List ℕ) (p : SeenPeer) (entries : List Entry)
    → bytes_equal other key ≡ false
    → IsFresh key entries
    → IsFresh key (assign other p entries)
IsFresh-assign key other p [] h f = (h, tt)
IsFresh-assign key other p ((k, q) ∷ entries) h (apart, f) =
    by_test (bytes_equal k other) (IsFresh-assign key other p entries h f)
  where
    by_test :
        (b : Bool)
        → IsFresh key (assign other p entries)
        → IsFresh key (if b then (other, p) ∷ entries else (k, q) ∷ assign other p entries)
    by_test true i = (h, f)
    by_test false i = (apart, i)

not_same : (a b : List ℕ) → bytes_equal a b ≡ false → bytes_equal b a ≡ false
not_same a b h = by_test (bytes_equal b a) refl
  where
    by_test : (c : Bool) → bytes_equal b a ≡ c → c ≡ false
    by_test false e = refl
    by_test true e = sym (same_key a) ∙ ap (bytes_equal a) (sym ((bytes_equal_iff b a).0 e)) ∙ h

pub IsDistinct-assign :
    (key : List ℕ) (p : SeenPeer) (entries : List Entry)
    → IsDistinct entries
    → IsDistinct (assign key p entries)
IsDistinct-assign key p [] h = (tt, tt)
IsDistinct-assign key p ((k, q) ∷ entries) (f, h) =
    by_test (bytes_equal k key) refl (IsDistinct-assign key p entries h)
  where
    by_test :
        (b : Bool)
        → bytes_equal k key ≡ b
        → IsDistinct (assign key p entries)
        → IsDistinct (if b then (key, p) ∷ entries else (k, q) ∷ assign key p entries)
    by_test true s i = (subst (λ l. IsFresh l entries) ((bytes_equal_iff k key).0 s) f, h)
    by_test false s i = (IsFresh-assign k key p entries (not_same k key s) f, i)
