-- ===== src/Embedding/Messages.antt =====
-- The messages between the supervisor and its worker, as the dictionaries on both sides of
-- `json.dumps` and `json.loads`, and the comparisons of their entries.
use hermes_cashew.Base.{
  ℕ, ◌*◌, ◌^◌, Bool, true, false, List, [], ◌∷◌, Option, none, some, String, str_eq, ltb, leb, ◌==◌,
  ◌&&◌, ◌||◌, not, length, if◌then◌else◌,
}
use hermes_cashew.Base.Int.{pos}
use hermes_cashew.Base.Value.{
  Value, null, bool, int, float, str, seq, dict, finite, Items, nil, cons, end, field, get,
}
use hermes_cashew.Embedding.{max_dimension, default_embedding_device}
use hermes_cashew.Embedding.Request.{codes}

-- `value == text`, where an absent key is None
unfoldable pub equals_text : Option Value → String → Bool
equals_text (some (str s)) t = str_eq s t
equals_text v t = false

-- `value == n`: True is 1, False is 0, and a float is compared by its value.
unfoldable pub equals_number : Option Value → ℕ → Bool
equals_number (some (int (pos m))) n = m == n
equals_number (some (bool true)) n = 1 == n
equals_number (some (bool false)) n = 0 == n
equals_number (some (float (finite (pos m)))) n = m == n * 2 ^ 1074
equals_number v n = false

-- `value == self.effective_device`, which is None before the first hello
unfoldable pub equals_device : Option Value → Option String → Bool
equals_device v (some d) = equals_text v d
equals_device none none = true
equals_device (some null) none = true
equals_device (some v) none = false

-- `isinstance(value, int) and not isinstance(value, bool)` in the range of a dimension
unfoldable pub reported_dimension : Option Value → Option ℕ
reported_dimension (some (int (pos n))) = if ltb 0 n && leb n max_dimension then some n else none
reported_dimension v = none

-- a text that is not empty and has at most 64 characters
unfoldable pub reported_device : Option Value → Option String
reported_device (some (str s)) =
    if ltb 0 (length (codes s)) && leb (length (codes s)) 64 then some s else none
reported_device v = none

-- What the worker is started with, and what the supervisor compares with.
pub record Launch : Type 0 where
  pub generation : String
  pub model : String
  pub device : String
  pub dimension : ℕ

pub record Hello : Type 0 where
  pub device : String
  pub dimension : ℕ

-- `self.dimension > 0 and reported_dimension != self.dimension` is an error
unfoldable pub agrees_dimension : ℕ → ℕ → Bool
agrees_dimension wanted reported = not (ltb 0 wanted) || reported == wanted

-- `device != "auto" and reported_device not in {device, "cpu"}` is an error
unfoldable pub agrees_device : String → String → Bool
agrees_device wanted reported =
    str_eq wanted "auto" || str_eq reported wanted || str_eq reported default_embedding_device

unfoldable pub agreed : Launch → Option ℕ → Option String → Option Hello
agreed l none d = none
agreed l (some n) none = none
agreed l (some n) (some d) =
    if agrees_dimension l.dimension n && agrees_device l.device d
    then some (record { device = d; dimension = n })
    else none

-- The check of `_start_once` on the worker's first message: `none` is PROTOCOL.
unfoldable pub accept_hello : Launch → Value → Option Hello
accept_hello l (dict h) =
    if equals_text (get "op" h) "hello"
      && equals_number (get "version" h) 1
      && equals_text (get "generation" h) l.generation
      && equals_text (get "model" h) l.model
      && equals_text (get "requested_device" h) l.device
    then agreed l (reported_dimension (get "dimension" h)) (reported_device (get "device" h))
    else none
accept_hello l v = none

-- The check of `_encode_owned` on the header of a reply and on its bytes.
unfoldable pub accept_vectors :
    (List ℕ → Bool) → String → String → ℕ → ℕ → Option String → Value → List ℕ → Bool
accept_vectors is_finite generation request_id count dimension device (dict h) raw =
    equals_text (get "op" h) "vectors"
    && equals_number (get "version" h) 1
    && equals_text (get "generation" h) generation
    && equals_text (get "request_id" h) request_id
    && equals_number (get "count" h) count
    && equals_number (get "dimension" h) dimension
    && equals_device (get "device" h) device
    && equals_number (get "bytes" h) (count * dimension * 4)
    && length raw == count * dimension * 4
    && is_finite raw
accept_vectors is_finite generation request_id count dimension device v raw = false

unfoldable pub from_list : List Value → Items
from_list [] = nil
from_list (v ∷ vs) = cons v (from_list vs)

unfoldable pub to_list : Items → List Value
to_list nil = []
to_list (cons v vs) = v ∷ to_list vs

-- the request of `encode`, and the one of `close`
unfoldable pub encode_message : String → String → List Value → Value
encode_message generation request_id texts = dict (
    field "op" (str "encode") (
      field "version" (int (pos 1)) (
        field "generation" (str generation)
          (field "request_id" (str request_id) (field "texts" (seq (from_list texts)) end)))))

unfoldable pub shutdown_message : String → Value
shutdown_message generation =
    dict (field "op" (str "shutdown") (field "generation" (str generation) end))
