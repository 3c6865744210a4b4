-- ===== src/Embedding/Agreement.antt =====
-- The two implementations of the reader agree: what the supervisor's returns, the worker's would.
use hermes_cashew.Base.{
  ℕ, ◌≤◌, ◌≡◌, refl, sym, ap, subst, ◌∙◌, List, [], length, take, drop, Option, none, some, ltb,
  not-ltb→le, Bool-cases, inl, inr,
}
use hermes_cashew.Embedding.{Result, ok, raised, max_frame}
use hermes_cashew.Embedding.Frame.{
  Wire, unpack, read_exact, receive_body, receive_header, receive, worker_receive,
}
use hermes_cashew.Embedding.Reading.{read_chunks_sound}
use hermes_cashew.Embedding.RoundTrip.{worker_receive_by}

receive_body_sound :
    (o : Option ℕ) (w : Wire) {payload : List ℕ} {w' : Wire}
    → receive_body o w ≡ (ok payload, w')
    → (size : ℕ) × (o ≡ some size) × (size ≤ max_frame) × (read_exact size w ≡ (ok payload, w'))
unfolding receive_body
receive_body_sound none w e = absurd (cc (ap (λ r. r.0) e))
receive_body_sound (some size) w e = elim (Bool-cases (ltb max_frame size)) [
  | inl long ↦ absurd (cc (ap (λ r. r.0) (rw long at e)))
  | inr short ↦ (size, refl, not-ltb→le _ _ short, rw short at e)
]

receive_header_sound :
    (r : Result (List ℕ) × Wire) {payload : List ℕ} {w' : Wire}
    → receive_header r ≡ (ok payload, w')
    → (header : List ℕ) × (w : Wire) × (r ≡ (ok header, w))
      × (receive_body (unpack header) w ≡ (ok payload, w'))
unfolding receive_header
receive_header_sound (ok header, w) e = (header, w, refl, e)
receive_header_sound (raised x, w) e = absurd (cc (ap (λ r. r.0) e))

read_exact_sound :
    (size : ℕ) (w : Wire) {bytes : List ℕ} {w' : Wire}
    → read_exact size w ≡ (ok bytes, w')
    → (size ≤ length w.arriving)
      × (bytes ≡ take size w.arriving)
      × (w'.arriving ≡ drop size w.arriving)
unfolding read_exact
read_exact_sound size w e = read_chunks_sound w.wakes size [] w.arriving e

some_inj : (w w' : Wire) → some w ≡ some w' → w ≡ w'
some_inj w w' e = cc

-- Whatever its waits are: a payload that the supervisor's non-blocking receive returns, with what
-- it leaves on the stream, is what the worker's blocking receive would return and leave on the
-- same stream, for any sizes of its chunks.
pub receive-worker_receive :
    (w w' : Wire) (payload : List ℕ) (limit : ℕ → ℕ)
    → receive (some w) ≡ (ok payload, some w')
    → worker_receive limit w.arriving ≡ some (payload, w'.arriving)
unfolding receive
receive-worker_receive w w' payload limit e =
    let (header, w1, e1, body) =
      receive_header_sound (read_exact 4 w)
        (λ i. ((e i).0, some_inj (receive_header (read_exact 4 w)).1 w' (ap (λ r. r.1) e) i)) in
    let (size, e2, le, e3) = receive_body_sound (unpack header) w1 body in
    let (h4, is_header, left1) = read_exact_sound 4 w e1 in
    let (enough, is_payload, left2) = read_exact_sound size w1 e3 in
    worker_receive_by limit size w.arriving h4 (ap unpack (sym is_header) ∙ e2) le
      (subst (λ xs. size ≤ length xs) left1 enough)
    ∙ ap (λ xs. some (take size xs, drop size xs)) (sym left1)
    ∙ ap (λ xs. some (xs, drop size w1.arriving)) (sym is_payload)
    ∙ ap (λ xs. some (payload, xs)) (sym left2)
