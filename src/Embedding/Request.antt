-- ===== src/Embedding/Request.antt =====
-- The request of `EmbeddingSupervisor.encode`: the checks on the texts and the JSON document that
-- is sent. A text is its code points; the model has no lone surrogates, on which `encode("utf-8")`
-- raises before anything is sent.
use Prim.Native.Char.{code}
use hermes_cashew.Base.{
  ℕ, ◌+◌, ◌-◌, ◌/◌, ◌%◌, Bool, true, false, List, [], ◌∷◌, ◌++◌, Option, none, some, String, length,
  ltb, leb, ◌==◌, ◌&&◌, if◌then◌else◌,
}
use hermes_cashew.Base.Value.{Value, str}
use hermes_cashew.Embedding.{Failure, unavailable, Result, ok, raised, max_frame}

abbrev pub codes : String → List ℕ
codes String.[] = []
codes (String.◌∷◌ c s) = code c ∷ codes s

-- `len(text.encode("utf-8"))`
unfoldable pub utf8_length : List ℕ → ℕ
utf8_length [] = 0
utf8_length (c ∷ cs) =
    (if ltb c 128 then 1 else if ltb c 2048 then 2 else if ltb c 65536 then 3 else 4)
    + utf8_length cs

unfoldable pub hex_digit : ℕ → ℕ
hex_digit n = if ltb n 10 then n + 48 else n + 87

-- "\uXXXX"
unfoldable pub unicode_escape : ℕ → List ℕ
unfolding hex_digit
unicode_escape c =
    92
    ∷ 117
    ∷ hex_digit (c / 4096 % 16)
    ∷ hex_digit (c / 256 % 16)
    ∷ hex_digit (c / 16 % 16)
    ∷ hex_digit (c % 16)
    ∷ []

-- One code point under `ensure_ascii=True`; past 65535 it is two surrogates.
unfoldable pub escape_code : ℕ → List ℕ
unfolding unicode_escape
escape_code c =
    if c == 34
    then 92 ∷ 34 ∷ []
    else if c == 92
    then 92 ∷ 92 ∷ []
    else if c == 10
    then 92 ∷ 110 ∷ []
    else if c == 13
    then 92 ∷ 114 ∷ []
    else if c == 9
    then 92 ∷ 116 ∷ []
    else if c == 8
    then 92 ∷ 98 ∷ []
    else if c == 12
    then 92 ∷ 102 ∷ []
    else if leb 32 c && leb c 126
    then c ∷ []
    else if ltb c 65536
    then unicode_escape c
    else unicode_escape (55296 + (c - 65536) / 1024) ++ unicode_escape (56320 + (c - 65536) % 1024)

unfoldable pub escape : List ℕ → List ℕ
escape [] = []
escape (c ∷ cs) = escape_code c ++ escape cs

-- `json.dumps(text, …)`
unfoldable pub dumps_text : String → List ℕ
dumps_text s = 34 ∷ (escape (codes s) ++ (34 ∷ []))

-- The texts of the list, with a comma before each but the first. Nothing else comes this far.
unfoldable pub dumps_items : Bool → List Value → List ℕ
dumps_items first [] = []
dumps_items first (str s ∷ vs) =
    (if first then [] else 44 ∷ []) ++ (dumps_text s ++ dumps_items false vs)
dumps_items first (v ∷ vs) = dumps_items false vs

unfoldable pub dumps_head : String → String → List ℕ
dumps_head generation request_id =
    (123 ∷ dumps_text "op")
    ++ (58 ∷ dumps_text "encode")
    ++ (44 ∷ dumps_text "version")
    ++ (58 ∷ 49 ∷ 44 ∷ dumps_text "generation")
    ++ (58 ∷ dumps_text generation)
    ++ (44 ∷ dumps_text "request_id")
    ++ (58 ∷ dumps_text request_id)
    ++ (44 ∷ dumps_text "texts")
    ++ (58 ∷ 91 ∷ [])

-- the whole request, with its separators "," and ":"
unfoldable pub request_payload : String → String → List Value → List ℕ
request_payload generation request_id texts =
    dumps_head generation request_id ++ (dumps_items true texts ++ (93 ∷ 125 ∷ []))

abbrev pub encode_envelope_bytes : ℕ
encode_envelope_bytes = 1024

-- The loop over the texts: `first` is `index == 0`, `estimated` is `estimated_frame_bytes`.
unfoldable pub check_texts : Bool → ℕ → List Value → Result ℕ
check_texts first estimated [] = ok estimated
check_texts first estimated (str s ∷ vs) =
    let next = estimated + (length (dumps_text s) + (if first then 0 else 1)) in
    let rest = check_texts false next vs in
    if ltb 1048576 (utf8_length (codes s))
    then raised (unavailable Failure.protocol)
    else if ltb max_frame next
    then raised (unavailable Failure.protocol)
    else rest
check_texts first estimated (v ∷ vs) = raised (unavailable Failure.protocol)

unfoldable pub checked_payload : List ℕ → Result ℕ → Result (Option (List ℕ))
checked_payload payload (raised e) = raised e
checked_payload payload (ok estimated) =
    if ltb max_frame (length payload)
    then raised (unavailable Failure.protocol)
    else ok (some payload)

-- `encode` up to the lock: `none` is the empty array for no texts, for which no worker is asked.
unfoldable pub encode_request : String → String → List Value → Result (Option (List ℕ))
encode_request generation request_id [] = ok none
encode_request generation request_id (v ∷ vs) =
    if ltb 100 (length (v ∷ vs))
    then raised (unavailable Failure.protocol)
    else checked_payload (request_payload generation request_id (v ∷ vs))
        (check_texts true encode_envelope_bytes (v ∷ vs))
