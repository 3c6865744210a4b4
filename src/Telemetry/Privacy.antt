-- ===== src/Telemetry/Privacy.antt =====
-- What an event that leaves the process can say.
use hermes_cashew.Base.{
  ℕ, ◌≤◌, subst, ◌≡◌, refl, Bool, true, false, ◌&&◌, List, [], ◌∷◌, ◌++◌, Option, none, some,
  String, member, leb, le→leb, arith, member-append_left, member-append_right, Bool-cases, inl, inr,
}
use hermes_cashew.Base.Int.{pos, clamp_to-le}
use hermes_cashew.Base.Value.{Value, int, str, seq, dict, Items, nil, cons, Fields, end, field}
use hermes_cashew.Telemetry.Buckets.{
  Result, ok, overflow, ◌>>=◌, bounded_int, duration_bucket, IsKept, duration_bucket-IsKept,
}
use hermes_cashew.Telemetry.Events.{
  safe_operations, safe_states, safe_fallbacks, safe_error_classes, safe_error_class, operation,
  allowed_text, Arguments, Metadata, select, safe_metadata, with_extra, metadata_fields, envelope,
  event, canonical_error, canonical_event, no_arguments, as_dict, sub_value, first_item, put_number,
  put_text,
}

-- The texts that an event may hold as a value: the fixed ones, and the four lists.
abbrev pub public_texts : List String
public_texts =
    ("error" ∷ "python" ∷ "cashew operation failed" ∷ "cashew.unknown" ∷ "redacted" ∷ [])
    ++ (safe_operations ++ (safe_states ++ (safe_fallbacks ++ safe_error_classes)))

abbrev pub public_keys : List String
public_keys =
    "level" ∷ "platform" ∷ "message" ∷ "tags" ∷ "operation" ∷ "contexts" ∷ "cashew" ∷ "breadcrumbs"
    ∷ "values" ∷ "exception" ∷ "type" ∷ "value" ∷ "generation" ∷ "count" ∷ "queue_depth" ∷ "state"
    ∷ "fallback" ∷ "duration_bucket_ms" ∷ []

-- A value is public if its keys and texts are on the lists and its numbers are at most 10 ^ 9.
unfoldable mutual
  unfolding member

  pub is_public : Value → Bool
  is_public (int (pos n)) = leb n 1000000000
  is_public (str s) = member s public_texts
  is_public (seq xs) = items_public xs
  is_public (dict d) = fields_public d
  is_public v = false

  pub items_public : Items → Bool
  items_public nil = true
  items_public (cons v rest) = is_public v && items_public rest

  pub fields_public : Fields → Bool
  fields_public end = true
  fields_public (field k v rest) = member k public_keys && (is_public v && fields_public rest)

abbrev fixed_texts : List String
fixed_texts = "error" ∷ "python" ∷ "cashew operation failed" ∷ "cashew.unknown" ∷ "redacted" ∷ []

module _ (s : String) where
  operations-public : member s safe_operations ≡ true → member s public_texts ≡ true
  operations-public h =
      member-append_right s fixed_texts _ (member-append_left s safe_operations _ h)

  states-public : member s safe_states ≡ true → member s public_texts ≡ true
  states-public h =
      member-append_right s (fixed_texts ++ safe_operations) _
        (member-append_left s safe_states _ h)

  fallbacks-public : member s safe_fallbacks ≡ true → member s public_texts ≡ true
  fallbacks-public h =
      member-append_right s (fixed_texts ++ safe_operations ++ safe_states) _
        (member-append_left s safe_fallbacks _ h)

  errors-public : member s safe_error_classes ≡ true → member s public_texts ≡ true
  errors-public h =
      member-append_right s (fixed_texts ++ safe_operations ++ safe_states ++ safe_fallbacks) _ h

operation-public : (v : Value) → member (operation v) public_texts ≡ true
unfolding operation member
operation-public (str s) = elim (Bool-cases (member s safe_operations)) [
  | inl h ↦ rw h (operations-public s h)
  | inr h ↦ rw h
]
operation-public v = refl

error-public : (s : String) → member (safe_error_class s) public_texts ≡ true
unfolding safe_error_class member
error-public s = elim (Bool-cases (member s safe_error_classes)) [
  | inl h ↦ rw h (errors-public s h)
  | inr h ↦ rw h
]

canonical_error-public : (v : Value) → member (canonical_error v) public_texts ≡ true
unfolding canonical_error safe_error_class member
canonical_error-public (str s) = error-public s
canonical_error-public v = refl

allowed_text-member :
    (l : List String) (v : Value) (s : String) → allowed_text l v ≡ some s → member s l ≡ true
unfolding allowed_text
allowed_text-member l (str t) s h = ground arith
allowed_text-member l v s h = ground arith

envelope-public :
    (op err : String) (d : Fields)
    → member op public_texts ≡ true
    → member err public_texts ≡ true
    → fields_public d ≡ true
    → is_public (envelope op d err) ≡ true
unfolding envelope is_public
envelope-public op err d h k f = rw (h, k, f)

abbrev pub AtMost : ℕ → Option ℕ → Type 0
AtMost b none = Unit
AtMost b (some n) = n ≤ b

abbrev pub OneOf : List String → Option String → Type 0
OneOf l none = Unit
OneOf l (some s) = member s l ≡ true

abbrev pub Kept : Option ℕ → Type 0
Kept none = Unit
Kept (some b) = IsKept b

-- What `select` lets through.
pub record IsSafe (m : Metadata) : Type 0 where
  pub generation : AtMost 1000000000 m.generation
  pub count : AtMost 1000000000 m.count
  pub queue_depth : AtMost 1000000000 m.queue_depth
  pub state : OneOf safe_states m.state
  pub fallback : OneOf safe_fallbacks m.fallback
  pub duration : Kept m.duration_bucket_ms

bounded_int-AtMost : (v : Value) → AtMost 1000000000 (bounded_int v)
unfolding bounded_int
bounded_int-AtMost (int z) = clamp_to-le z 1000000000
bounded_int-AtMost v = tt

allowed_text-OneOf : (l : List String) (v : Value) → OneOf l (allowed_text l v)
unfolding allowed_text
allowed_text-OneOf l (str t) = ground arith
allowed_text-OneOf l v = tt

duration_bucket-Kept : (v : Value) (o : Option ℕ) → duration_bucket v ≡ ok o → Kept o
duration_bucket-Kept v none h = tt
duration_bucket-Kept v (some b) h = duration_bucket-IsKept v b h

selected : Arguments → Option ℕ → Metadata
selected a bucket = record {
  generation = bounded_int a.generation;
  count = bounded_int a.count;
  queue_depth = bounded_int a.queue_depth;
  state = allowed_text safe_states a.state;
  fallback = allowed_text safe_fallbacks a.fallback;
  duration_bucket_ms = bucket;
}

selected-IsSafe : (a : Arguments) (o : Option ℕ) → Kept o → IsSafe (selected a o)
unfolding selected
selected-IsSafe a o k = record {
  generation = bounded_int-AtMost a.generation;
  count = bounded_int-AtMost a.count;
  queue_depth = bounded_int-AtMost a.queue_depth;
  state = allowed_text-OneOf safe_states a.state;
  fallback = allowed_text-OneOf safe_fallbacks a.fallback;
  duration = k;
}

pub ok-inj {ℓ} : {A : Type ℓ} {a b : A} → ok a ≡ ok b → a ≡ b
ok-inj h = cc

pub bind-ok-inv {ℓ κ} :
    {A : Type ℓ} {B : Type κ} (r : Result A) (f : A → Result B) {b : B}
    → (r >>= f) ≡ ok b
    → (a : A) × (r ≡ ok a) × (f a ≡ ok b)
bind-ok-inv (ok a) f h = (a, refl, h)
bind-ok-inv overflow f h = cc

pub select-IsSafe : (a : Arguments) (m : Metadata) → select a ≡ ok m → IsSafe m
unfolding select selected
select-IsSafe a m h =
    let (o, e, f) = bind-ok-inv (duration_bucket a.duration_ms) (λ o. ok (selected a o)) h in
    subst IsSafe (ok-inj f) (selected-IsSafe a o (duration_bucket-Kept a.duration_ms o e))

put_number-public :
    (k : String) (o : Option ℕ) (rest : Fields)
    → member k public_keys ≡ true
    → AtMost 1000000000 o
    → fields_public rest ≡ true
    → fields_public (put_number k o rest) ≡ true
unfolding is_public
put_number-public k none rest hk h hr = hr
put_number-public k (some n) rest hk h hr = rw (hk, le→leb n 1000000000 h, hr)

put_text-public :
    (l : List String) (k : String) (o : Option String) (rest : Fields)
    → member k public_keys ≡ true
    → ((s : String) → member s l ≡ true → member s public_texts ≡ true)
    → OneOf l o
    → fields_public rest ≡ true
    → fields_public (put_text k o rest) ≡ true
unfolding is_public
put_text-public l k none rest hk up h hr = hr
put_text-public l k (some s) rest hk up h hr = rw (hk, up s h, hr)

Kept-AtMost : (o : Option ℕ) → Kept o → AtMost 1000000000 o
Kept-AtMost none k = tt
Kept-AtMost (some b) k = omega (arith, k.bounded)

metadata-public : (m : Metadata) → IsSafe m → fields_public (metadata_fields m) ≡ true
unfolding metadata_fields is_public
metadata-public m s = put_number-public "generation" m.generation _ refl s.generation (
    put_number-public "count" m.count _ refl s.count (
      put_number-public "queue_depth" m.queue_depth _ refl s.queue_depth (
        put_text-public safe_states "state" m.state _ refl states-public s.state (
          put_text-public safe_fallbacks "fallback" m.fallback _ refl fallbacks-public s.fallback (
            put_number-public "duration_bucket_ms" m.duration_bucket_ms end refl
              (Kept-AtMost m.duration_bucket_ms s.duration) refl)))))

-- the context of the event `e` that is to be made canonical
abbrev pub raw_context : Value → Option Fields
raw_context e = as_dict (sub_value "cashew" (sub_value "contexts" e))

abbrev pub raw_error : Value → Value
raw_error e = sub_value "type" (first_item (sub_value "values" (sub_value "exception" e)))

-- Whatever value the canonical form is taken of, its result consists of public keys, public texts
-- and numbers of at most 10 ^ 9.
pub canonical_event-public : (e w : Value) → canonical_event e ≡ ok w → is_public w ≡ true
unfolding canonical_event safe_metadata
canonical_event-public e w h =
    let (m, p, q) = bind-ok-inv (safe_metadata no_arguments (raw_context e)) _ h in
    subst (λ v. is_public v ≡ true) (ok-inj q)
      (envelope-public _ _ (metadata_fields m)
        (operation-public (sub_value "operation" (sub_value "tags" e)))
        (canonical_error-public (raw_error e)) (metadata-public m (select-IsSafe _ m p)))

-- So does the event that a capture hands over, whatever the error, the operation and the metadata.
pub event-public :
    (error : String) (op : Value) (a : Arguments) (extra : Option Fields) (w : Value)
    → event error op a extra ≡ ok w
    → is_public w ≡ true
unfolding event safe_metadata
event-public error op a extra w h =
    let (m, p, q) = bind-ok-inv (safe_metadata a extra) _ h in
    subst (λ v. is_public v ≡ true) (ok-inj q)
      (envelope-public (operation op) (safe_error_class error) (metadata_fields m)
        (operation-public op) (error-public error)
        (metadata-public m (select-IsSafe (with_extra extra a) m p)))
