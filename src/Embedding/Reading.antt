-- ===== src/Embedding/Reading.antt =====
-- What the reading loops of both sides take from the stream, whatever the chunks.
use hermes_cashew.Base.{
  ℕ, zero, suc, ◌+◌, ◌-◌, ◌≤◌, min, ◌≡◌, refl, sym, ap, ◌∙◌, Bool, true, false, List, [], ◌∷◌, ◌++◌,
  append_assoc, append-nil, some, length, length-take, length-drop, take, drop, take-split,
  drop-split, arith,
}
use hermes_cashew.Embedding.{ok}
use hermes_cashew.Embedding.Frame.{
  Wake, blocked, reset, ready, Wire, read_chunks, worker_read_chunks,
}

-- The channel does not break, and `readies` waits end with bytes.
abbrev pub steady : List Wake → Bool
steady [] = true
steady (blocked ∷ ws) = steady ws
steady (reset ∷ ws) = false
steady (ready k ∷ ws) = steady ws

abbrev pub readies : List Wake → ℕ
readies [] = 0
readies (blocked ∷ ws) = readies ws
readies (reset ∷ ws) = readies ws
readies (ready k ∷ ws) = suc (readies ws)

-- one chunk of `m` bytes and the `size - m` after it
next_chunk :
    (m size : ℕ) (got s : List ℕ)
    → m ≤ size
    → (got ++ take m s) ++ take (size - m) (drop m s) ≡ got ++ take size s
next_chunk m size got s h =
    append_assoc got (take m s) (take (size - m) (drop m s))
    ∙ ap (λ xs. got ++ xs) (sym (take-split m size s h))

-- A chunk has as many bytes as `recv` may return, if they are there.
ready_chunk :
    (k : ℕ) (ws : List Wake) (size : ℕ) (got : List ℕ) (b : ℕ) (s : List ℕ)
    → min (suc size) (suc k) ≤ length (b ∷ s)
    → read_chunks (ready k ∷ ws) (suc size) got (b ∷ s)
      ≡ read_chunks ws
          (suc size - min (suc size) (suc k))
          (got ++ take (min (suc size) (suc k)) (b ∷ s))
          (drop (min (suc size) (suc k)) (b ∷ s))
unfolding read_chunks
ready_chunk k ws size got b s h =
    let m = min (suc size) (suc k) in
    let taken : length (take m (b ∷ s)) ≡ m = omega (arith, length-take m (b ∷ s)) in
    ap (λ n. read_chunks ws (suc size - n) (got ++ take m (b ∷ s)) (drop m (b ∷ s))) taken

-- With bytes and waits enough the loop ends, with exactly the bytes that it was asked for.
pub read_chunks-all :
    (ws : List Wake) (size : ℕ) (got s : List ℕ)
    → steady ws ≡ true
    → size ≤ readies ws
    → size ≤ length s
    → (rest : List Wake) × (read_chunks ws size got s
        ≡ (ok (got ++ take size s), record { arriving = drop size s; wakes = rest }))
      × (steady rest ≡ true)
      × (readies ws ≤ readies rest + size)
unfolding read_chunks
read_chunks-all ws zero got s st en le = (ws, rw (append-nil got) refl, st, omega arith)
read_chunks-all [] (suc size) got s st en le = absurd (omega arith)
read_chunks-all (blocked ∷ ws) (suc size) got s st en le =
    read_chunks-all ws (suc size) got s st en le
read_chunks-all (reset ∷ ws) (suc size) got s st en le = cc
read_chunks-all (ready k ∷ ws) (suc size) got [] st en le = absurd (omega arith)
read_chunks-all (ready k ∷ ws) (suc size) got (b ∷ s) st en le =
    let m = min (suc size) (suc k) in
    let (rest, reads, steady_rest, enough) =
      read_chunks-all ws (suc size - m) (got ++ take m (b ∷ s)) (drop m (b ∷ s)) st (omega arith)
        (omega (arith, length-drop m (b ∷ s))) in
    (
      rest,
      ready_chunk k ws size got b s (omega arith)
          ∙ reads
          ∙ ap
              (λ xs.
                (ok xs, record { arriving = drop (suc size - m) (drop m (b ∷ s)); wakes = rest }))
              (next_chunk m (suc size) got (b ∷ s) (omega arith))
          ∙ ap (λ xs. (ok (got ++ take (suc size) (b ∷ s)), record { arriving = xs; wakes = rest }))
              (sym (drop-split m (suc size) (b ∷ s) (omega arith))),
      steady_rest,
      omega arith,
    )

-- Whatever the waits are: what the loop returns is the front of the stream, and the rest is left.
pub read_chunks_sound :
    (ws : List Wake) (size : ℕ) (got s : List ℕ) {bytes : List ℕ} {w : Wire}
    → read_chunks ws size got s ≡ (ok bytes, w)
    → (size ≤ length s) × (bytes ≡ got ++ take size s) × (w.arriving ≡ drop size s)
unfolding read_chunks
read_chunks_sound ws zero got s e =
    (omega arith, cc (append-nil got, ap (λ r. r.0) e), sym (ap (λ r. r.1.arriving) e))
read_chunks_sound [] (suc size) got s e = absurd (cc (ap (λ r. r.0) e))
read_chunks_sound (blocked ∷ ws) (suc size) got s e = read_chunks_sound ws (suc size) got s e
read_chunks_sound (reset ∷ ws) (suc size) got s e = absurd (cc (ap (λ r. r.0) e))
read_chunks_sound (ready k ∷ ws) (suc size) got [] e = absurd (cc (ap (λ r. r.0) e))
read_chunks_sound (ready k ∷ ws) (suc size) got (b ∷ s) e =
    let m = min (suc size) (suc k) in
    let c = length (take m (b ∷ s)) in
    let (fits, same, left) =
      read_chunks_sound ws (suc size - c) (got ++ take m (b ∷ s)) (drop m (b ∷ s)) e in
    let whole : c ≡ m = omega (arith, length-take m (b ∷ s), length-drop m (b ∷ s), fits) in
    let left_over : suc size - c ≡ suc size - m = ap (λ n. suc size - n) whole in
    (
      omega (arith, length-take m (b ∷ s), length-drop m (b ∷ s), fits),
      same
          ∙ ap (λ n. (got ++ take m (b ∷ s)) ++ take n (drop m (b ∷ s))) left_over
          ∙ next_chunk m (suc size) got (b ∷ s) (omega arith),
      left
          ∙ ap (λ n. drop n (drop m (b ∷ s))) left_over
          ∙ sym (drop-split m (suc size) (b ∷ s) (omega arith)),
    )

-- The worker's loop returns the front of the stream as soon as the stream has that many bytes.
pub worker_read_chunks_lem :
    (fuel : ℕ) (limit : ℕ → ℕ) (size : ℕ) (got s : List ℕ)
    → size ≤ fuel
    → size ≤ length s
    → worker_read_chunks fuel limit size got s ≡ some (got ++ take size s, drop size s)
unfolding worker_read_chunks
worker_read_chunks_lem fuel limit zero got s f h = rw (append-nil got) refl
worker_read_chunks_lem zero limit (suc size) got s f h = absurd (omega arith)
worker_read_chunks_lem (suc fuel) limit (suc size) got [] f h = absurd (omega arith)
worker_read_chunks_lem (suc fuel) limit (suc size) got (b ∷ s) f h =
    let m = min (suc size) (suc (limit fuel)) in
    let whole : length (take m (b ∷ s)) ≡ m = omega (arith, length-take m (b ∷ s)) in
    ap (λ n. worker_read_chunks fuel limit (suc size - n) (got ++ take m (b ∷ s)) (drop m (b ∷ s)))
      whole
    ∙ worker_read_chunks_lem fuel limit (suc size - m) (got ++ take m (b ∷ s)) (drop m (b ∷ s))
        (omega arith) (omega (arith, length-drop m (b ∷ s)))
    ∙ ap (λ xs. some (xs, drop (suc size - m) (drop m (b ∷ s))))
        (next_chunk m (suc size) got (b ∷ s) (omega arith))
    ∙ ap (λ xs. some (got ++ take (suc size) (b ∷ s), xs))
        (sym (drop-split m (suc size) (b ∷ s) (omega arith)))
