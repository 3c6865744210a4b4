-- ===== src/Embedding/RoundTrip.antt =====
-- What one side sends is what the other receives, over any division into chunks.
use hermes_cashew.Base.{
  ℕ, suc, ◌+◌, ◌≤◌, ◌<◌, ◌≡◌, refl, sym, ap, ◌∙◌, Bool, true, List, [], ◌∷◌, ◌++◌, append_assoc,
  append-nil, length, length-append, take, drop, take-append-drop, take-length_append,
  drop-length_append, some, ltb, ltb→lt, not-ltb→le, subst, not, ◌||◌, if_cases, Bool-cases, inl,
  inr, arith,
}
use hermes_cashew.Embedding.{Failure, unavailable, ok, raised, max_frame}
use hermes_cashew.Embedding.Frame.{
  Wake, blocked, reset, ready, Wire, pack, unpack, read_exact, receive_body, receive_header,
  receive, send_chunks, send, worker_read_exact, worker_receive, worker_receive_body,
  worker_receive_header, worker_send,
}
use hermes_cashew.Embedding.Reading.{steady, readies, read_chunks-all, worker_read_chunks_lem}

pub unpack-pack : (n : ℕ) → n < 4294967296 → unpack (pack n) ≡ some n
unfolding pack unpack
unpack-pack n h = ap some (omega arith)

-- a payload behind its length
abbrev pub frame : List ℕ → List ℕ
frame payload = pack (length payload) ++ payload

-- The bytes that went out are the first of those that were pending, and all of them on success.
send_chunks-prefix :
    (ws : List Wake) (out pending : List ℕ)
    → (unsent : List ℕ) × ((send_chunks ws out pending).1 ++ unsent ≡ out ++ pending)
      × ((send_chunks ws out pending).0 ≡ ok tt → unsent ≡ [])
unfolding send_chunks
send_chunks-prefix ws out [] = ([], refl, λ _. refl)
send_chunks-prefix [] out (b ∷ pending) = (b ∷ pending, refl, λ e. cc)
send_chunks-prefix (blocked ∷ ws) out (b ∷ pending) = send_chunks-prefix ws out (b ∷ pending)
send_chunks-prefix (reset ∷ ws) out (b ∷ pending) = (b ∷ pending, refl, λ e. cc)
send_chunks-prefix (ready k ∷ ws) out (b ∷ pending) =
    let (unsent, sent, all) =
      send_chunks-prefix ws (out ++ take (suc k) (b ∷ pending)) (drop (suc k) (b ∷ pending)) in
    (
      unsent,
      sent
          ∙ append_assoc out (take (suc k) (b ∷ pending)) (drop (suc k) (b ∷ pending))
          ∙ ap (λ xs. out ++ xs) (take-append-drop (suc k) (b ∷ pending)),
      all,
    )

-- A failed `send` has put out a first part of the frame, or nothing if the payload is too long or
-- there is no channel; then it raises PROTOCOL. A `send` that returns has put out the frame.
pub send_lem :
    (channel : Bool) (ws : List Wake) (payload : List ℕ)
    → (unsent : List ℕ) × ((send channel ws payload).1 ++ unsent ≡ frame payload)
      × ((send channel ws payload).0 ≡ ok tt
          → (unsent ≡ []) × (length payload ≤ max_frame) × (channel ≡ true))
      × (ltb max_frame (length payload) || not channel ≡ true
          → send channel ws payload ≡ (raised (unavailable Failure.protocol), []))
unfolding send
send_lem channel ws payload = elim (Bool-cases (ltb max_frame (length payload) || not channel)) [
  | inl e ↦
      rw e (
        frame payload,
        refl,
        (λ (h : raised (unavailable Failure.protocol) ≡ ok tt). cc),
        λ _. refl,
      )
  | inr e ↦
      let (unsent, sent, all) = send_chunks-prefix ws [] (frame payload) in
      rw e (unsent, sent, (λ h. (all h, ground (arith), ground (arith))), λ h. cc)
]

pub read_exact-append :
    (bytes rest : List ℕ) (ws : List Wake)
    → steady ws ≡ true
    → length bytes ≤ readies ws
    → (ws' : List Wake) × (read_exact
          (length bytes)
          (record { arriving = bytes ++ rest; wakes = ws })
        ≡ (ok bytes, record { arriving = rest; wakes = ws' }))
      × (steady ws' ≡ true)
      × (readies ws ≤ readies ws' + length bytes)
unfolding read_exact
read_exact-append bytes rest ws st en =
    let (ws', reads, st', en') =
      read_chunks-all ws (length bytes) [] (bytes ++ rest) st en
        (omega (arith, length-append bytes rest)) in
    (
      ws',
      reads
          ∙ ap
              (λ xs.
                (ok xs, record { arriving = drop (length bytes) (bytes ++ rest); wakes = ws' }))
              (take-length_append bytes rest)
          ∙ ap (λ xs. (ok bytes, record { arriving = xs; wakes = ws' }))
              (drop-length_append bytes rest),
      st',
      en',
    )

receive_body-fits :
    (size : ℕ) (w : Wire) → size ≤ max_frame → receive_body (some size) w ≡ read_exact size w
unfolding receive_body
receive_body-fits size w h =
    if_cases (λ r. r ≡ read_exact size w) (ltb max_frame size)
      (λ e. absurd (omega (arith, ltb→lt _ _ e))) (λ e. refl)

-- The supervisor receives a frame whole, and leaves what follows it.
pub receive-frame :
    (payload rest : List ℕ) (ws : List Wake)
    → length payload ≤ max_frame
    → steady ws ≡ true
    → length payload + 4 ≤ readies ws
    → (ws' : List Wake) × (receive (some (record { arriving = frame payload ++ rest; wakes = ws }))
        ≡ (ok payload, some (record { arriving = rest; wakes = ws' })))
unfolding receive receive_header pack
receive-frame payload rest ws le st en =
    let n = length payload in
    let (ws', header, st', en') =
      read_exact-append (pack n) (payload ++ rest) ws st (omega arith) in
    let (ws'', body, _, _) = read_exact-append payload rest ws' st' (omega arith) in
    (
      ws'',
      ap (λ r. ((receive_header r).0, some (receive_header r).1)) (header)
          ∙ ap
              (λ o. (
                (receive_body o (record { arriving = payload ++ rest; wakes = ws' })).0,
                some (receive_body o (record { arriving = payload ++ rest; wakes = ws' })).1,
              ))
              (unpack-pack n (omega arith))
          ∙ ap (λ r. (r.0, some r.1)) (receive_body-fits n _ le ∙ body),
    )

worker_read_exact_lem :
    (size : ℕ) (limit : ℕ → ℕ) (s : List ℕ)
    → size ≤ length s
    → worker_read_exact size limit s ≡ some (take size s, drop size s)
unfolding worker_read_exact
worker_read_exact_lem size limit s h = worker_read_chunks_lem size limit size [] s (omega arith) h

worker_receive_body-fits :
    (size : ℕ) (limit : ℕ → ℕ) (s : List ℕ)
    → size ≤ max_frame
    → worker_receive_body (some size) limit s ≡ worker_read_exact size limit s
unfolding worker_receive_body
worker_receive_body-fits size limit s h =
    if_cases (λ r. r ≡ worker_read_exact size limit s) (ltb max_frame size)
      (λ e. absurd (omega (arith, ltb→lt _ _ e))) (λ e. refl)

-- a frame with its length in front of it, read by the worker
pub worker_receive_by :
    (limit : ℕ → ℕ) (size : ℕ) (s : List ℕ)
    → 4 ≤ length s
    → unpack (take 4 s) ≡ some size
    → size ≤ max_frame
    → size ≤ length (drop 4 s)
    → worker_receive limit s ≡ some (take size (drop 4 s), drop size (drop 4 s))
unfolding worker_receive worker_receive_header
worker_receive_by limit size s h e le enough =
    ap (worker_receive_header limit) (worker_read_exact_lem 4 limit s h)
    ∙ ap (λ o. worker_receive_body o limit (drop 4 s)) e
    ∙ worker_receive_body-fits size limit (drop 4 s) le
    ∙ worker_read_exact_lem size limit (drop 4 s) enough

pub worker_receive-frame :
    (payload rest : List ℕ) (limit : ℕ → ℕ)
    → length payload ≤ max_frame
    → worker_receive limit (frame payload ++ rest) ≡ some (payload, rest)
unfolding pack
worker_receive-frame payload rest limit le =
    worker_receive_by limit (length payload) (frame payload ++ rest) (omega arith)
      (unfold pack in unpack-pack (length payload) (omega arith)) le
      (omega (arith, length-append payload rest))
    ∙ ap (λ xs. some (xs, drop (length payload) (payload ++ rest)))
        (take-length_append payload rest)
    ∙ ap (λ xs. some (payload, xs)) (drop-length_append payload rest)

-- When the supervisor's send returns, however the kernel took the bytes in parts, the worker
-- receives exactly the payload, in chunks of any size, and what follows on the stream is left.
pub worker_receive-send :
    (channel : Bool) (ws : List Wake) (payload : List ℕ) (limit : ℕ → ℕ) (rest : List ℕ)
    → (send channel ws payload).0 ≡ ok tt
    → worker_receive limit ((send channel ws payload).1 ++ rest) ≡ some (payload, rest)
worker_receive-send channel ws payload limit rest h =
    let (unsent, sent, all, _) = send_lem channel ws payload in
    let (none_left, le, _) = all h in
    let whole : (send channel ws payload).1 ≡ frame payload =
      sym (append-nil _) ∙ ap (λ xs. (send channel ws payload).1 ++ xs) (sym none_left) ∙ sent in
    ap (λ out. worker_receive limit (out ++ rest)) whole
    ∙ worker_receive-frame payload rest limit le

-- A payload that the worker sends is received whole by the supervisor, and what follows is left
-- on the stream, if the channel does not break and at least as many waits as the frame has bytes
-- end with bytes before the deadline.
pub receive-worker_send :
    (payload out rest : List ℕ) (ws : List Wake)
    → worker_send payload ≡ some out
    → steady ws ≡ true
    → length payload + 4 ≤ readies ws
    → (ws' : List Wake) × (receive (some (record { arriving = out ++ rest; wakes = ws }))
        ≡ (ok payload, some (record { arriving = rest; wakes = ws' })))
unfolding worker_send
receive-worker_send payload out rest ws h st en =
    elim (Bool-cases (ltb max_frame (length payload))) [
      | inl e ↦ absurd (cc (rw e at h))
      | inr e ↦
          let same : frame payload ≡ out = cc (rw e at h) in
          subst
            (λ xs.
              (ws' : List Wake) × (receive (some (record { arriving = xs ++ rest; wakes = ws }))
                ≡ (ok payload, some (record { arriving = rest; wakes = ws' }))))
            same (receive-frame payload rest ws (not-ltb→le _ _ e) st en)
    ]
