-- ===== src/P2p/Frame.antt =====
-- p2p/frame.go
use go_tari_lib.Common.{
  ℕ, ◌+◌, ◌%◌, ◌^◌, ◌≤◌, ◌≡◌, refl, sym, ap, ◌∙◌, Bool, true, false, not, List, [], ◌∷◌, ◌++◌,
  arith, ltb, ◌==◌, if◌then◌else◌, length, take, drop, length-append, length-drop, take-append,
  drop-append, append_assoc, append-nil,
}
use go_tari_lib.Common.Result.{Result, ok, err}
use go_tari_lib.Common.Action.{Action, ◌>>=◌, ◌>>◌, pure, raise, bind-eq-ok}
use go_tari_lib.Stdlib.Endian.{put_uint16_be, uint16_be}
use go_tari_lib.P2p.Errors.{Error, frame_too_long, write_failed, read_failed}

-- A connection, as one end sees it: the bytes still to arrive before its end, the bytes written, and whether
-- a write succeeds.
pub record Conn : Type 0 where
  pub incoming : List ℕ
  pub outgoing : List ℕ
  pub writable : Bool

unfoldable pub conn_write : List ℕ → Action Conn Error Unit
conn_write bytes c =
    if not c.writable
    then (err write_failed, c)
    else (ok tt, record c { outgoing = c.outgoing ++ bytes })

-- `io.ReadFull` into a buffer of `n` bytes: a connection that ends early is used up.
unfoldable pub conn_read_full : ℕ → Action Conn Error (List ℕ)
conn_read_full n c =
    if ltb (length c.incoming) n
    then (err read_failed, record c { incoming = [] })
    else (ok (take n c.incoming), record c { incoming = drop n c.incoming })

abbrev pub max_frame_length : ℕ
max_frame_length = 0xFFFF

unfoldable pub write_frame : List ℕ → Action Conn Error Unit
write_frame payload = if ltb max_frame_length (length payload) then raise frame_too_long else (do
  conn_write (put_uint16_be (length payload % 2 ^ 16))
  if length payload == 0 then pure tt else conn_write payload)

unfoldable pub read_frame : Action Conn Error (List ℕ)
read_frame = do
  len_buf ← conn_read_full 2
  let n = uint16_be len_buf
  if n == 0 then pure [] else conn_read_full n

-- What `write_frame` puts on the connection.
abbrev pub framed : List ℕ → List ℕ
framed payload = put_uint16_be (length payload % 2 ^ 16) ++ payload

pub conn_read_full_lem :
    (c : Conn) (rest xs : List ℕ) (n : ℕ)
    → length xs ≡ n
    → conn_read_full n (record c { incoming = xs ++ rest }) ≡ (ok xs, record c { incoming = rest })
unfolding conn_read_full
conn_read_full_lem c rest xs n h =
    ground (arith, length-append xs rest, take-append xs rest n h, drop-append xs rest n h)

pub conn_write_lem :
    (c : Conn) (bytes : List ℕ)
    → c.writable ≡ true
    → conn_write bytes c ≡ (ok tt, record c { outgoing = c.outgoing ++ bytes })
unfolding conn_write
conn_write_lem c bytes w =
    ap
      (λ b.
        if not b
        then (err write_failed, c)
        else (ok tt, record c { outgoing = c.outgoing ++ bytes }))
      w

-- The second write, which an empty payload does not need.
payload_write :
    (c : Conn) (payload : List ℕ)
    → c.writable ≡ true
    → (if length payload == 0 then pure tt else conn_write payload) c
      ≡ (ok tt, record c { outgoing = c.outgoing ++ payload })
payload_write c [] w = ap (λ o. (ok tt, record c { outgoing = o })) (sym (append-nil c.outgoing))
payload_write c (x ∷ xs) w =
    ap (λ b. (if b then pure tt else conn_write (x ∷ xs)) c) filled ∙ conn_write_lem c (x ∷ xs) w
  where
    filled : (length (x ∷ xs) == 0) ≡ false
    filled = ground arith

-- A payload of up to 65535 bytes goes out behind its length, on a connection that can be written to; a
-- longer one is refused before a byte is written.
pub write_frame_lem :
    (c : Conn) (payload : List ℕ)
    → c.writable ≡ true
    → write_frame payload c ≡ (
        if ltb 65535 (length payload)
        then (err frame_too_long, c)
        else (ok tt, record c { outgoing = c.outgoing ++ framed payload }))
unfolding write_frame
write_frame_lem c payload w = elim (ltb 65535 (length payload)) as written [
  | true ↦ refl
  | false ↦ both
]
  where
    prefix : List ℕ
    prefix = put_uint16_be (length payload % 2 ^ 16)

    second : Action Conn Error Unit
    second = if length payload == 0 then pure tt else conn_write payload

    written : Bool → Type 0
    written b = (if b then raise frame_too_long else (conn_write prefix >> second)) c ≡ (
        if b
        then (err frame_too_long, c)
        else (ok tt, record c { outgoing = c.outgoing ++ framed payload }))

    both :
        (conn_write prefix >> second) c
        ≡ (ok tt, record c { outgoing = c.outgoing ++ framed payload })
    both = rw (conn_write_lem c prefix w) (
        payload_write (record c { outgoing = c.outgoing ++ prefix }) payload w
        ∙ ap (λ o. (ok tt, record c { outgoing = o })) (append_assoc c.outgoing prefix payload))

-- A frame is read back to its payload, whatever follows it.
pub read_frame-framed :
    (c : Conn) (payload rest : List ℕ)
    → length payload ≤ max_frame_length
    → read_frame (record c { incoming = framed payload ++ rest })
      ≡ (ok payload, record c { incoming = rest })
unfolding read_frame put_uint16_be uint16_be
read_frame-framed c payload rest h =
    ap (λ i. read_frame (record c { incoming = i })) (append_assoc prefix payload rest)
    ∙ rw (conn_read_full_lem c (payload ++ rest) prefix 2 two)
        (after payload (uint16_be prefix) declared)
  where
    prefix : List ℕ
    prefix = put_uint16_be (length payload % 2 ^ 16)

    two : length prefix ≡ 2
    two = refl

    declared : uint16_be prefix ≡ length payload
    declared = ground arith

    after :
        (p : List ℕ) (n : ℕ)
        → n ≡ length p
        → (if n == 0 then pure [] else conn_read_full n) (record c { incoming = p ++ rest })
          ≡ (ok p, record c { incoming = rest })
    after [] n e =
        ap (λ b. (if b then pure [] else conn_read_full n) (record c { incoming = rest })) empty
      where
        empty : (n == 0) ≡ true
        empty = ground arith
    after (x ∷ xs) n e =
        ap
          (λ b.
            (if b then pure [] else conn_read_full n) (record c { incoming = (x ∷ xs) ++ rest }))
          filled
        ∙ conn_read_full_lem c rest (x ∷ xs) n (sym e)
      where
        filled : (n == 0) ≡ false
        filled = ground arith

-- A payload of up to 65535 bytes, written to a connection that can be written to: the write succeeds, and
-- the other end, on what was written with anything at all behind it, reads the payload and leaves the rest.
pub read_frame-write_frame :
    (c d : Conn) (payload rest : List ℕ)
    → c.writable ≡ true
    → length payload ≤ max_frame_length
    → (wire : List ℕ) × (write_frame payload c
        ≡ (ok tt, record c { outgoing = c.outgoing ++ wire }))
      × (read_frame (record d { incoming = wire ++ rest })
          ≡ (ok payload, record d { incoming = rest }))
read_frame-write_frame c d payload rest w h = (
  framed payload,
  rw (write_frame_lem c payload w) (rw short refl),
  read_frame-framed d payload rest h,
)
  where
    short : ltb 65535 (length payload) ≡ false
    short = ground arith

-- What is read is taken off the connection.
conn_read_full_takes :
    (c c' : Conn) (n : ℕ) (xs : List ℕ)
    → conn_read_full n c ≡ (ok xs, c')
    → length c'.incoming + n ≤ length c.incoming
unfolding conn_read_full
conn_read_full_takes c c' n xs h = by_test (ltb (length c.incoming) n) refl h
  where
    clash :
        ◌≡◌ {A = Result Error (List ℕ) × Conn}
          (err read_failed, record c { incoming = [] })
          (ok xs, c')
        → ⊥
    clash k = cc

    by_test :
        (b : Bool)
        → ltb (length c.incoming) n ≡ b
        → ◌≡◌ {A = Result Error (List ℕ) × Conn}
            (if b
              then (err read_failed, record c { incoming = [] })
              else (ok (take n c.incoming), record c { incoming = drop n c.incoming }))
            (ok xs, c')
        → length c'.incoming + n ≤ length c.incoming
    by_test true e k = absurd (clash k)
    by_test false e k = ground (arith, length-drop n c.incoming, ap (λ p. length p.1.incoming) k)

pub read_frame_takes :
    (c c' : Conn) (xs : List ℕ)
    → read_frame c ≡ (ok xs, c')
    → length c'.incoming + 2 ≤ length c.incoming
unfolding read_frame
read_frame_takes c c' xs h =
    let (len_buf, c1, e, k) = bind-eq-ok (conn_read_full 2) go_on c c' xs h in
    let fewer = after (uint16_be len_buf == 0) (uint16_be len_buf) c1 k in
    omega (arith, fewer, conn_read_full_takes c c1 2 len_buf e)
  where
    go_on : List ℕ → Action Conn Error (List ℕ)
    go_on len_buf = if uint16_be len_buf == 0 then pure [] else conn_read_full (uint16_be len_buf)

    after :
        (b : Bool) (n : ℕ) (d : Conn)
        → (if b then pure [] else conn_read_full n) d ≡ (ok xs, c')
        → length c'.incoming ≤ length d.incoming
    after true n d k = omega (arith, ap (λ p. length p.1.incoming) k)
    after false n d k = omega (arith, conn_read_full_takes d c' n xs k)
