-- ===== src/Embedding/Frame.antt =====
-- The frames on the socket between the supervisor and its worker: `_LENGTH`, `_read_exact`,
-- `_receive` and `_send` of both sides. A byte is a number below 256.
use hermes_cashew.Base.{
  ℕ, zero, suc, ◌+◌, ◌-◌, ◌*◌, ◌/◌, ◌%◌, min, Bool, List, [], ◌∷◌, ◌++◌, Option, none, some, length,
  take, drop, ltb, if◌then◌else◌, ◌||◌, not,
}
use hermes_cashew.Embedding.{
  Failure, Exception, unavailable, os_error, Result, ok, raised, max_frame,
}

-- `struct.Struct("!I").pack`: four bytes, the highest first.
unfoldable pub pack : ℕ → List ℕ
pack n = (n / 16777216 % 256) ∷ (n / 65536 % 256) ∷ (n / 256 % 256) ∷ (n % 256) ∷ []

-- `unpack(…)[0]`, which wants exactly four bytes.
unfoldable pub unpack : List ℕ → Option ℕ
unpack (a ∷ b ∷ c ∷ d ∷ []) = some (a * 16777216 + b * 65536 + c * 256 + d)
unpack bs = none

-- What ends one wait for the channel before the deadline: `recv` or `send` would block after all,
-- the channel is broken, or it moves at most `suc k` bytes.
pub data Wake : Type 0 where
  blocked reset : Wake
  ready : ℕ → Wake

-- The reading end: the bytes that the peer sends before it closes, and the waits up to the
-- deadline, after which `select` or the clock ends the loop.
pub record Wire : Type 0 where
  pub arriving : List ℕ
  pub wakes : List Wake

-- The loop of `_read_exact`: `got` is what the chunks make up, `size` what is missing.
unfoldable pub read_chunks : List Wake → ℕ → List ℕ → List ℕ → Result (List ℕ) × Wire
read_chunks ws zero got s = (ok got, record { arriving = s; wakes = ws })
read_chunks [] (suc size) got s =
    (raised (unavailable Failure.timeout), record { arriving = s; wakes = [] })
read_chunks (blocked ∷ ws) (suc size) got s = read_chunks ws (suc size) got s
read_chunks (reset ∷ ws) (suc size) got s = (raised os_error, record { arriving = s; wakes = ws })
read_chunks (ready k ∷ ws) (suc size) got [] =
    (raised (unavailable Failure.exited), record { arriving = []; wakes = ws })
read_chunks (ready k ∷ ws) (suc size) got (b ∷ s) =
    let n = min (suc size) (suc k) in
    read_chunks ws (suc size - length (take n (b ∷ s))) (got ++ take n (b ∷ s)) (drop n (b ∷ s))

unfoldable pub read_exact : ℕ → Wire → Result (List ℕ) × Wire
read_exact size w = read_chunks w.wakes size [] w.arriving

-- the frame behind its length, which `_read_exact` returned in four bytes
unfoldable pub receive_body : Option ℕ → Wire → Result (List ℕ) × Wire
receive_body none w = (raised Exception.value_error, w)
receive_body (some size) w =
    let body = read_exact size w in
    if ltb max_frame size then (raised (unavailable Failure.protocol), w) else body

unfoldable pub receive_header : Result (List ℕ) × Wire → Result (List ℕ) × Wire
receive_header (ok header, w) = receive_body (unpack header) w
receive_header (raised e, w) = (raised e, w)

-- Without a channel the worker is gone.
unfoldable pub receive : Option Wire → Result (List ℕ) × Option Wire
receive none = (raised (unavailable Failure.exited), none)
receive (some w) = let r = receive_header (read_exact 4 w) in (r.0, some r.1)

-- The loop of `_send` over what is pending; `out` is what the kernel has taken.
unfoldable pub send_chunks : List Wake → List ℕ → List ℕ → Result (Unit {0}) × List ℕ
send_chunks ws out [] = (ok tt, out)
send_chunks [] out (b ∷ pending) = (raised (unavailable Failure.timeout), out)
send_chunks (blocked ∷ ws) out (b ∷ pending) = send_chunks ws out (b ∷ pending)
send_chunks (reset ∷ ws) out (b ∷ pending) = (raised os_error, out)
send_chunks (ready k ∷ ws) out (b ∷ pending) =
    send_chunks ws (out ++ take (suc k) (b ∷ pending)) (drop (suc k) (b ∷ pending))

-- `channel` says that there is a channel.
unfoldable pub send : Bool → List Wake → List ℕ → Result (Unit {0}) × List ℕ
send channel ws payload =
    if ltb max_frame (length payload) || not channel
    then (raised (unavailable Failure.protocol), [])
    else send_chunks ws [] (pack (length payload) ++ payload)

-- The worker's `_read_exact` on its blocking socket: the next `recv` returns at most
-- `suc (limit fuel)` bytes, and `none` is EOFError. A byte comes with each round, so that as many
-- rounds as bytes are enough.
unfoldable pub worker_read_chunks : ℕ → (ℕ → ℕ) → ℕ → List ℕ → List ℕ → Option (List ℕ × List ℕ)
worker_read_chunks fuel limit zero got s = some (got, s)
worker_read_chunks fuel limit (suc size) got [] = none
worker_read_chunks zero limit (suc size) got (b ∷ s) = none
worker_read_chunks (suc fuel) limit (suc size) got (b ∷ s) =
    let n = min (suc size) (suc (limit fuel)) in
    worker_read_chunks fuel limit (suc size - length (take n (b ∷ s))) (got ++ take n (b ∷ s))
      (drop n (b ∷ s))

unfoldable pub worker_read_exact : ℕ → (ℕ → ℕ) → List ℕ → Option (List ℕ × List ℕ)
worker_read_exact size limit s = worker_read_chunks size limit size [] s

unfoldable pub worker_receive_body : Option ℕ → (ℕ → ℕ) → List ℕ → Option (List ℕ × List ℕ)
worker_receive_body none limit s = none
worker_receive_body (some size) limit s =
    let body = worker_read_exact size limit s in if ltb max_frame size then none else body

unfoldable pub worker_receive_header : (ℕ → ℕ) → Option (List ℕ × List ℕ) → Option (List ℕ × List ℕ)
worker_receive_header limit none = none
worker_receive_header limit (some (header, s)) = worker_receive_body (unpack header) limit s

-- `none` is any of its exceptions: each of them ends the worker.
unfoldable pub worker_receive : (ℕ → ℕ) → List ℕ → Option (List ℕ × List ℕ)
worker_receive limit s = worker_receive_header limit (worker_read_exact 4 limit s)

-- `sendall` writes everything.
unfoldable pub worker_send : List ℕ → Option (List ℕ)
worker_send payload =
    if ltb max_frame (length payload) then none else some (pack (length payload) ++ payload)
