-- ===== src/Embedding/Exchange.antt =====
-- One request through both sides: what `encode` sends passes the worker's checks, and what the
-- worker replies passes the supervisor's.
use hermes_cashew.Base.{
  ℕ, ◌*◌, ◌≤◌, ◌≡◌, refl, ap, ◌∙◌, true, false, List, [], ◌∷◌, some, String, str_eq_refl, ltb, ◌==◌,
  length, All, arith,
}
use hermes_cashew.Base.Value.{Value, null, bool, int, float, str, seq, dict, get}
use hermes_cashew.Embedding.{ok, max_frame}
use hermes_cashew.Embedding.Request.{encode_request}
use hermes_cashew.Embedding.Bounds.{IsText, IsUuid, encode_request_iff}
use hermes_cashew.Embedding.Messages.{
  equals_text, equals_number, equals_device, accept_vectors, Launch, from_list, to_list,
  encode_message, shutdown_message,
}
use hermes_cashew.Embedding.Worker.{
  Library, Vectors, Running, Turn, replies, has_bad_text, vectors_message, send_reply, reply_to,
  encode_texts, is_text, turn,
}

pub to_list-from_list : (vs : List Value) → to_list (from_list vs) ≡ vs
unfolding to_list from_list
to_list-from_list [] = refl
to_list-from_list (v ∷ vs) = ap (λ us. v ∷ us) (to_list-from_list vs)

==_refl : (n : ℕ) → n == n ≡ true
==_refl n = ground arith

-- what numpy and the model are relied on for: an array of this many rows and columns
pub record IsArray (v : Vectors) (rows columns : ℕ) : Type 0 where
  pub rows_are : v.rows ≡ rows
  pub columns_are : v.columns ≡ columns
  pub bytes_are : length v.raw ≡ rows * columns * 4

module _ (lib : Library) (l : Launch) (w : Running lib) where
  no_bad_text : (vs : List Value) → All IsText vs → has_bad_text lib vs ≡ false
  unfolding has_bad_text
  no_bad_text [] h = refl
  no_bad_text (str s ∷ vs) h = ground (arith, no_bad_text vs h.1)
  no_bad_text (null ∷ vs) h = absurd h.0
  no_bad_text (bool b ∷ vs) h = absurd h.0
  no_bad_text (int z ∷ vs) h = absurd h.0
  no_bad_text (float x ∷ vs) h = absurd h.0
  no_bad_text (seq xs ∷ vs) h = absurd h.0
  no_bad_text (dict d ∷ vs) h = absurd h.0

  turn-encode_message :
      (request_id : String) (texts : List Value)
      → All IsText texts
      → length texts ≤ 100
      → turn lib l w (encode_message l.generation request_id texts)
        ≡ reply_to lib l w (some (str request_id)) (length texts) (lib.encode w.model texts)
  unfolding turn encode_message get equals_text equals_number is_text encode_texts
  turn-encode_message request_id texts good few =
      let same = to_list-from_list texts in
      let short : ltb 100 (length texts) ≡ false = ground arith in
      rw (str_eq_refl l.generation, same, short, no_bad_text texts good) refl

  reply_to-array :
      (request_id : String) (count : ℕ) (v : Vectors)
      → IsArray v count w.dimension
      → lib.is_finite v.raw ≡ true
      → reply_to lib l w (some (str request_id)) count (some v)
        ≡ send_reply lib (vectors_message lib l w (some (str request_id)) count v) v.raw
  unfolding reply_to
  reply_to-array request_id count v a f =
      rw (a.rows_are, a.columns_are, ==_refl count, ==_refl w.dimension, f) refl

  send_reply-short :
      (header : Value) (v : Vectors) (count : ℕ)
      → IsArray v count w.dimension
      → lib.json_length header ≤ max_frame
      → count * w.dimension * 4 ≤ max_frame
      → send_reply lib header v.raw ≡ replies header v.raw
  unfolding send_reply
  send_reply-short header v count a h b =
      let short_header : ltb max_frame (lib.json_length header) ≡ false = ground (arith, h) in
      let short : ltb max_frame (length v.raw) ≡ false = rw a.bytes_are (ground (arith, b)) in
      rw (short_header, short) refl

  accept_vectors-message :
      (request_id : String) (count : ℕ) (v : Vectors)
      → IsArray v count w.dimension
      → lib.is_finite v.raw ≡ true
      → accept_vectors lib.is_finite l.generation request_id count w.dimension
          (some w.device)
          (vectors_message lib l w (some (str request_id)) count v)
          v.raw
        ≡ true
  unfolding accept_vectors vectors_message get equals_text equals_number equals_device
  accept_vectors-message request_id count v a f =
      rw
        (
          a.rows_are,
          a.columns_are,
          a.bytes_are,
          str_eq_refl l.generation,
          str_eq_refl request_id,
          str_eq_refl w.device,
          ==_refl count,
          ==_refl w.dimension,
          ==_refl (count * w.dimension * 4),
          f,
        )
        refl

  -- For a generation and a request id of 32 hexadecimal digits, texts that encode accepts, and a
  -- model that returns a finite array of one row for each text and of the announced dimension: if
  -- neither the document of the header nor the array's bytes are longer than a frame may be, the
  -- worker refuses nothing, it replies with the array's bytes, and header and bytes pass the
  -- supervisor's check against the announced dimension and device.
  pub accept_vectors-turn :
      (request_id : String) (texts : List Value) (payload : List ℕ) (v : Vectors)
      → IsUuid l.generation
      → IsUuid request_id
      → encode_request l.generation request_id texts ≡ ok (some payload)
      → lib.encode w.model texts ≡ some v
      → IsArray v (length texts) w.dimension
      → lib.is_finite v.raw ≡ true
      → lib.json_length (vectors_message lib l w (some (str request_id)) (length texts) v)
        ≤ max_frame
      → length texts * w.dimension * 4 ≤ max_frame
      → (header : Value) × (turn lib l w (encode_message l.generation request_id texts)
          ≡ replies header v.raw)
        × (accept_vectors lib.is_finite l.generation request_id
              (length texts)
              w.dimension
              (some w.device)
              header
              v.raw
            ≡ true)
  accept_vectors-turn request_id texts payload v hg hr e encoded a f short_header short =
      let (good, _, few, _) =
        ((encode_request_iff l.generation request_id texts payload hg hr).0 e).0 in
      (
        vectors_message lib l w (some (str request_id)) (length texts) v,
        turn-encode_message request_id texts good few
            ∙ ap (reply_to lib l w (some (str request_id)) (length texts)) encoded
            ∙ reply_to-array request_id (length texts) v a f
            ∙ send_reply-short _ v (length texts) a short_header short,
        accept_vectors-message request_id (length texts) v a f,
      )

  pub turn-shutdown_message : turn lib l w (shutdown_message l.generation) ≡ Turn.stops
  unfolding turn shutdown_message get equals_text
  turn-shutdown_message = rw (str_eq_refl l.generation) refl
