-- ===== src/P2p/YamuxAdapter.antt =====
-- p2p/yamuxadapter.go: the byte stream over the frames of a session.
use go_tari_lib.Common.{
  ℕ, zero, suc, ◌≤◌, ◌<◌, ◌≡◌, refl, sym, ap, ◌∙◌, List, [], ◌∷◌, ◌++◌, arith, ◌==◌, true, false,
  if◌then◌else◌, length, take, drop, take-append-drop, length-take, append_assoc,
}
use go_tari_lib.Common.Result.{Result, ok, err, ok-injective}
use go_tari_lib.Common.Action.{Action, ◌>>=◌, ◌>>◌, pure, bind-ok, bind-eq-ok}
use go_tari_lib.P2p.Errors.{Error, read_failed}
use go_tari_lib.P2p.Session.{
  Cipher, Session, send_frame, receive_frame, receive_frames, receive_frame_takes,
}

pub record SessionReadWriteCloser (K : Type 0) : Type 0 where
  pub session : Session K
  pub read_buf : List ℕ

module _ {K : Type 0} (cipher : Cipher K) where
  abbrev with_session :
      {A : Type 0}
      → SessionReadWriteCloser K
      → Result Error A × Session K
      → Result Error A × SessionReadWriteCloser K
  with_session a (r, s) = (r, record a { session = s })

  unfoldable pub adapter_write : List ℕ → Action (SessionReadWriteCloser K) Error ℕ
  adapter_write p a = with_session a ((send_frame cipher p >>= λ sent. pure (length p)) a.session)

  -- `s.readBuf = frame`, for the frame that was received.
  abbrev buffered :
      SessionReadWriteCloser K
      → Result Error (List ℕ)
      → Session K
      → Result Error (Unit {0}) × SessionReadWriteCloser K
  buffered a (err e) s = (err e, record a { session = s })
  buffered a (ok frame) s = (ok tt, record { session = s; read_buf = frame })

  unfoldable pub next_frame : Action (SessionReadWriteCloser K) Error Unit
  next_frame a = let (r, s) = receive_frame cipher a.session in buffered a r s

  -- The loop that skips empty frames, on fuel.
  unfoldable pub fill : ℕ → Action (SessionReadWriteCloser K) Error Unit
  fill zero a = (err read_failed, a)
  fill (suc left) a = elim (length a.read_buf == 0) [
    | false ↦ (ok tt, a)
    | true ↦ (next_frame >> fill left) a
  ]

  -- `copy(p, s.readBuf)` for a buffer of `n` bytes
  abbrev copied : ℕ → Action (SessionReadWriteCloser K) Error (List ℕ)
  copied n a = (ok (take n a.read_buf), record a { read_buf = drop n a.read_buf })

  -- Each frame takes two bytes off the connection at least, so the fuel is enough for all that arrive.
  unfoldable pub adapter_read : ℕ → Action (SessionReadWriteCloser K) Error (List ℕ)
  adapter_read n a =
      if n == 0
      then (ok [], a)
      else (fill (suc (suc (length a.session.conn.incoming))) >> copied n) a

abbrev pub concat : List (List ℕ) → List ℕ
concat [] = []
concat (m ∷ ms) = m ++ concat ms

module _ {K : Type 0} (cipher : Cipher K) where
  -- The frames that are still to be received from the session are `ms`, and no failure comes before them.
  pub record IsPending (a : SessionReadWriteCloser K) (ms : List (List ℕ)) : Type 0 where
    pub after : Session K
    pub received : receive_frames cipher (length ms) a.session ≡ (ok ms, after)

  -- What a successful `fill` has done: the buffer is no longer empty.
  record IsFilled (left : ℕ) (a : SessionReadWriteCloser K) (ms : List (List ℕ)) : Type 0 where
    session : Session K
    read_buf : List ℕ
    others : List (List ℕ)
    filled : fill cipher left a ≡ (ok tt, record { session = session; read_buf = read_buf })
    pending : IsPending (record { session = session; read_buf = read_buf }) others
    same : a.read_buf ++ concat ms ≡ read_buf ++ concat others
    some_bytes : 0 < length read_buf

  -- The first of the frames and the rest of them.
  first_received :
      (s after : Session K) (m : List ℕ) (ms : List (List ℕ))
      → receive_frames cipher (suc (length ms)) s ≡ (ok (m ∷ ms), after)
      → (s1 : Session K) × (receive_frame cipher s ≡ (ok m, s1))
        × (receive_frames cipher (length ms) s1 ≡ (ok ms, after))
  first_received s after m ms h =
      let (m', s1, e, k) = bind-eq-ok (receive_frame cipher) collect s after (m ∷ ms) h in
      let (ms', s2, f, l) =
        bind-eq-ok (receive_frames cipher (length ms)) (λ rest. pure (m' ∷ rest)) s1 after (m ∷ ms)
          k in
      let (head, tail, state) = same_parts m' m ms' ms s2 after l in
      (
        s1,
        e ∙ ap (λ x. (ok x, s1)) head,
        f ∙ ap (λ x. (ok x, s2)) tail ∙ ap (λ x. (ok ms, x)) state,
      )
    where
      collect : List ℕ → Action (Session K) Error (List (List ℕ))
      collect m = receive_frames cipher (length ms) >>= λ rest. pure (m ∷ rest)

      get_first : List ℕ → List (List ℕ) → List ℕ
      get_first d [] = d
      get_first d (x ∷ xs) = x

      same_parts :
          (m m' : List ℕ) (ms ms' : List (List ℕ)) (s s' : Session K)
          → ◌≡◌ {A = Result Error (List (List ℕ)) × Session K} (ok (m ∷ ms), s) (ok (m' ∷ ms'), s')
          → (m ≡ m') × (ms ≡ ms') × (s ≡ s')
      same_parts m m' ms ms' s s' h =
          let e = ok-injective (m ∷ ms) (m' ∷ ms') (ap (λ p. p.0) h) in
          (ap (get_first m) e, ap (drop 1) e, ap (λ p. p.1) h)

  next_frame_lem :
      (s s1 : Session K) (m : List ℕ)
      → receive_frame cipher s ≡ (ok m, s1)
      → next_frame cipher (record { session = s; read_buf = [] })
        ≡ (ok tt, record { session = s1; read_buf = m })
  unfolding next_frame
  next_frame_lem s s1 m e =
      ap (λ p. buffered cipher (record { session = s; read_buf = [] }) p.0 p.1) e

  fill_lem :
      (ms : List (List ℕ)) (left : ℕ) (s : Session K) (buf : List ℕ)
      → IsPending (record { session = s; read_buf = buf }) ms
      → length ms < left
      → 0 < length (buf ++ concat ms)
      → IsFilled left (record { session = s; read_buf = buf }) ms
  unfolding fill
  fill_lem ms zero s buf p h k = absurd (omega arith)
  fill_lem ms (suc left) s (x ∷ xs) p h k = record {
    session = s;
    read_buf = x ∷ xs;
    others = ms;
    filled =
        ap
          (λ b. elim b as (λ _. Result Error Unit × SessionReadWriteCloser K) [
            | false ↦ (ok tt, a)
            | true ↦ (next_frame cipher >> fill cipher left) a
          ])
          ready;
    pending = p;
    same = refl;
    some_bytes = omega arith;
  }
    where
      a : SessionReadWriteCloser K
      a = record { session = s; read_buf = x ∷ xs }

      ready : (length (x ∷ xs) == 0) ≡ false
      ready = ground arith
  fill_lem [] (suc left) s [] p h k = absurd (omega arith)
  fill_lem (m ∷ ms) (suc left) s [] p h k =
      let (s1, e, l) = first_received s p.after m ms p.received in
      let later =
        fill_lem ms left s1 m (record { after = p.after; received = l }) (omega arith) k in
      record {
        session = later.session;
        read_buf = later.read_buf;
        others = later.others;
        filled =
            bind-ok (next_frame cipher) (λ _. fill cipher left)
              (record { session = s; read_buf = [] }) (next_frame_lem s s1 m e)
            ∙ later.filled;
        pending = later.pending;
        same = later.same;
        some_bytes = later.some_bytes;
      }

  -- The frames that are still to come are no more than the bytes that are.
  pending_count :
      (ms : List (List ℕ)) (s after : Session K)
      → receive_frames cipher (length ms) s ≡ (ok ms, after)
      → length ms ≤ length s.conn.incoming
  pending_count [] s after h = omega arith
  pending_count (m ∷ ms) s after h =
      let (s1, e, l) = first_received s after m ms h in
      omega (arith, pending_count ms s1 after l, receive_frame_takes cipher s s1 m e)

  -- What a read gives, where bytes are to come: at least one of them and at most as many as were asked for,
  -- the next ones in order; what is behind them is still to come.
  pub record IsNextChunk (n : ℕ) (a : SessionReadWriteCloser K) (ms : List (List ℕ)) : Type 0 where
    pub chunk : List ℕ
    pub next : SessionReadWriteCloser K
    pub others : List (List ℕ)
    pub read : adapter_read cipher n a ≡ (ok chunk, next)
    pub pending : IsPending next others
    pub in_order : a.read_buf ++ concat ms ≡ chunk ++ (next.read_buf ++ concat others)
    pub some_byte : 0 < length chunk
    pub no_more : length chunk ≤ n

  -- Given frames that arrive at the session, some byte in the buffer or in one of them, and room for a byte: `Read`
  -- ends, however many of the frames are empty, and gives the next bytes of the stream of all frames.
  pub adapter_read-IsNextChunk :
      (n : ℕ) (a : SessionReadWriteCloser K) (ms : List (List ℕ))
      → IsPending a ms
      → 0 < n
      → 0 < length (a.read_buf ++ concat ms)
      → IsNextChunk n a ms
  unfolding adapter_read
  adapter_read-IsNextChunk n a ms p h k =
      let f =
        fill_lem ms (suc (suc (length a.session.conn.incoming))) a.session a.read_buf p enough k in
      record {
        chunk = take n f.read_buf;
        next = record { session = f.session; read_buf = drop n f.read_buf };
        others = f.others;
        read =
            ap
              (λ b.
                (if b
                  then (ok [], a)
                  else (fill cipher (suc (suc (length a.session.conn.incoming))) >> copied cipher n)
                      a))
              room
            ∙ bind-ok (fill cipher (suc (suc (length a.session.conn.incoming))))
                (λ _. copied cipher n) a f.filled;
        pending = record { after = f.pending.after; received = f.pending.received };
        in_order =
            f.same
            ∙ ap (λ l. l ++ concat f.others) (sym (take-append-drop n f.read_buf))
            ∙ append_assoc (take n f.read_buf) (drop n f.read_buf) (concat f.others);
        some_byte = omega (arith, length-take n f.read_buf, f.some_bytes);
        no_more = omega (arith, length-take n f.read_buf);
      }
    where
      enough : length ms < suc (suc (length a.session.conn.incoming))
      enough = omega (arith, pending_count ms a.session p.after p.received)

      room : (n == 0) ≡ false
      room = ground arith
