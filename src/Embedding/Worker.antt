-- ===== src/Embedding/Worker.antt =====
-- plugins/memory/cashew/embedding_worker.py: `main`, after the parsing of its arguments.
-- SentenceTransformer and numpy are parameters.
use hermes_cashew.Base.{
  ℕ, ◌*◌, Bool, true, false, List, [], ◌∷◌, Option, none, some, String, str_eq, ltb, leb, ◌==◌,
  ◌&&◌, ◌||◌, not, length, if◌then◌else◌,
}
use hermes_cashew.Base.Int.{ℤ, pos}
use hermes_cashew.Base.Value.{Value, null, int, str, seq, dict, end, field, get}
use hermes_cashew.Embedding.{max_frame, max_dimension, default_embedding_device}
use hermes_cashew.Embedding.Request.{codes, utf8_length}
use hermes_cashew.Embedding.Messages.{equals_text, equals_number, agrees_dimension, Launch, to_list}

-- what `np.asarray(…, dtype="<f4")` holds: its shape, and its bytes in the order of C
pub record Vectors : Type 0 where
  pub rows : ℕ
  pub columns : ℕ
  pub raw : List ℕ

-- The model library. `load name none` leaves the device to it; a failed call is `none`.
pub record Library : Type 1 where
  pub Model : Type 0
  pub load : String → Option String → Option Model
  -- `str(model.device)`, if there is one
  pub device_of : Model → Option String
  -- `int(get_dim())`, if there is such a method
  pub dimension_of : Model → Option ℤ
  pub encode : Model → List Value → Option Vectors
  -- `np.isfinite(…).all()` on the bytes
  pub is_finite : List ℕ → Bool
  -- how many bytes the JSON document of a message has
  pub json_length : Value → ℕ

module _ (lib : Library) where
  open lib use {Model, load, device_of, dimension_of, encode, is_finite, json_length}

  -- the second attempt, on the CPU
  unfoldable pub load_on_cpu : Launch → Option (Model × String)
  load_on_cpu l =
      if str_eq l.device default_embedding_device
      then none
      else elim (load l.model (some default_embedding_device)) [
        | none ↦ none
        | some m ↦ some (m, default_embedding_device)
      ]

  unfoldable pub first_load : Launch → Option Model
  first_load l = load l.model (if str_eq l.device "auto" then none else some l.device)

  unfoldable pub load_model : Launch → Option (Model × String)
  load_model l = elim (first_load l) [ none ↦ load_on_cpu l | some m ↦ some (m, l.device) ]

  -- With "auto" the model says where it is.
  unfoldable pub effective_device : Launch → Model → String → String
  effective_device l m d =
      if str_eq l.device "auto" then elim (device_of m) [ none ↦ d | some e ↦ e ] else d

  -- the dimension, unless one of the checks on it raises
  unfoldable pub checked_dimension : Launch → Option ℤ → Option ℕ
  checked_dimension l (some (pos n)) =
      if ltb 0 n && leb n max_dimension && agrees_dimension l.dimension n then some n else none
  checked_dimension l z = none

  unfoldable pub hello_message : Launch → String → ℕ → Value
  hello_message l device dimension = dict (
      field "op" (str "hello") (
        field "version" (int (pos 1)) (
          field "generation" (str l.generation) (
            field "model" (str l.model) (
              field "requested_device" (str l.device)
                (field "dimension" (int (pos dimension)) (field "device" (str device) end)))))))

  -- a worker that has said hello
  pub record Running : Type 0 where
    pub model : Model
    pub device : String
    pub dimension : ℕ

  unfoldable pub announced : Launch → Model → String → Option ℕ → Option (Running × Value)
  announced l m d none = none
  announced l m d (some n) =
      some (record { model = m; device = d; dimension = n }, hello_message l d n)

  -- `main` up to the loop: `none` is an exception, which ends the process.
  unfoldable pub begin : Launch → Option (Running × Value)
  begin l = elim (load_model l) [
    | none ↦ none
    | some (m, d) ↦ announced l m (effective_device l m d) (checked_dimension l (dimension_of m))
  ]

  -- One turn of the loop: it returns, raises, raises with the header of a reply sent, or replies
  -- with a header and the bytes.
  pub data Turn : Type 0 where
    stops fails : Turn
    breaks : Value → Turn
    replies : Value → List ℕ → Turn

  -- `not isinstance(text, str) or len(text.encode("utf-8")) > 1048576` for one of the texts
  unfoldable pub has_bad_text : List Value → Bool
  has_bad_text [] = false
  has_bad_text (str s ∷ vs) = ltb 1048576 (utf8_length (codes s)) || has_bad_text vs
  has_bad_text (v ∷ vs) = true

  unfoldable pub vectors_message : Launch → Running → Option Value → ℕ → Vectors → Value
  vectors_message l w request_id count v = dict (
      field "op" (str "vectors") (
        field "version" (int (pos 1)) (
          field "generation" (str l.generation) (
            field "request_id" (elim request_id [ none ↦ null | some i ↦ i ])
              (field "count" (int (pos count)) (
                field "dimension" (int (pos w.dimension)) (
                  field "device" (str w.device)
                    (field "bytes" (int (pos (v.rows * v.columns * 4))) end))))))))

  -- the two `_send`s
  unfoldable pub send_reply : Value → List ℕ → Turn
  send_reply header raw =
      if ltb max_frame (json_length header)
      then fails
      else if ltb max_frame (length raw)
      then breaks header
      else replies header raw

  unfoldable pub reply_to : Launch → Running → Option Value → ℕ → Option Vectors → Turn
  reply_to l w request_id count none = fails
  reply_to l w request_id count (some v) =
      if not (v.rows == count && v.columns == w.dimension) || not (is_finite v.raw)
      then fails
      else send_reply (vectors_message l w request_id count v) v.raw

  unfoldable pub encode_texts : Launch → Running → Option Value → Option Value → Turn
  encode_texts l w request_id (some (seq items)) =
      if ltb 100 (length (to_list items)) || has_bad_text (to_list items)
      then fails
      else reply_to l w request_id (length (to_list items)) (encode w.model (to_list items))
  encode_texts l w request_id texts = fails

  unfoldable pub is_text : Option Value → Bool
  is_text (some (str s)) = true
  is_text v = false

  unfoldable pub turn : Launch → Running → Value → Turn
  turn l w (dict r) =
      if not (equals_text (get "generation" r) l.generation)
      then fails
      else if equals_text (get "op" r) "shutdown"
      then stops
      else if not (equals_text (get "op" r) "encode")
          || not (equals_number (get "version" r) 1)
          || not (is_text (get "request_id" r))
      then fails
      else encode_texts l w (get "request_id" r) (get "texts" r)
  turn l w v = fails
