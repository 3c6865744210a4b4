-- ===== src/Integrity/Verify.antt =====
-- What a repair is held to: `_profile_repair_request_error`, `_actionable_count_keys` and
-- `_repair_verification_matches`.
use hermes_cashew.Base.{
  Bool, true, false, List, [], ◌∷◌, ◌++◌, Option, none, some, String, str_eq, member, ◌==◌, ◌&&◌,
  ◌||◌, not, if◌then◌else◌,
}
use hermes_cashew.Base.Int.{ℤ, pos, negsuc, leb_ℤ, ltb_ℤ}
use hermes_cashew.Base.Value.{
  Value, null, bool, int, float, str, seq, dict, Float, finite, nil, cons, Fields, end, field, get,
}

-- Python's truth of a value
unfoldable pub is_true : Value → Bool
is_true null = false
is_true (bool b) = b
is_true (int (pos n)) = not (n == 0)
is_true (int (negsuc n)) = true
is_true (float (finite (pos n))) = not (n == 0)
is_true (float x) = true
is_true (str s) = not (str_eq s "")
is_true (seq nil) = false
is_true (seq (cons v vs)) = true
is_true (dict end) = false
is_true (dict (field k v d)) = true

-- the truth of `d.get(key, 0)`, and of `d.get(key)`
unfoldable pub is_set : String → Fields → Bool
is_set key d = elim (get key d) [ none ↦ false | some v ↦ is_true v ]

unfoldable pub is_bad_deadline : Float → Bool
is_bad_deadline (finite z) = ltb_ℤ z (pos 0)
is_bad_deadline x = true

unfoldable pub profile_repair_request_error : Float → ℤ → ℤ → String → Option String
profile_repair_request_error deadline_seconds batch_size max_items permanence_policy =
    if is_bad_deadline deadline_seconds
    then some "invalid_deadline"
    else if leb_ℤ batch_size (pos 0) || leb_ℤ max_items (pos 0)
    then some "invalid_repair_bounds"
    else if not (member permanence_policy ("report" ∷ "preserve_permanent" ∷ "preserve_decay" ∷ []))
    then some "invalid_permanence_policy"
    else none

-- the counts that an action is to bring to zero
unfoldable pub keys_of : String → List String
keys_of action =
    if str_eq action "repair_vec"
    then "missing_vec" ∷ "stale_vec" ∷ "invalid_vec" ∷ "vec_mismatched" ∷ []
    else if str_eq action "repair_embeddings"
    then "missing_embeddings" ∷ "invalid_embeddings" ∷ []
    else if str_eq action "remove_orphan_embeddings"
    then "orphan_embeddings" ∷ []
    else if str_eq action "remove_orphan_edges"
    then "orphan_edges" ∷ []
    else if str_eq action "remove_self_edges"
    then "self_edges" ∷ []
    else if str_eq action "promote_core_memories"
    then "core_memory_not_permanent" ∷ []
    else []

unfoldable pub keys_of_all : List String → List String
keys_of_all [] = []
keys_of_all (action ∷ actions) = keys_of action ++ keys_of_all actions

unfoldable pub selected : Option (List String) → List String
selected none =
    "repair_vec" ∷ "repair_embeddings" ∷ "remove_orphan_embeddings" ∷ "remove_orphan_edges" ∷ []
selected (some actions) = actions

-- The set as a list, in which a key may stand twice.
unfoldable pub actionable_count_keys : Option (List String) → String → List String
actionable_count_keys actions permanence_policy =
    keys_of_all (selected actions)
    ++ (if str_eq permanence_policy "report" then [] else "permanent_and_decayed" ∷ [])

-- `bool(actual)`
unfoldable pub any_set : List String → Fields → Bool
any_set [] counts = false
any_set (key ∷ keys) counts = is_set key counts || any_set keys counts

unfoldable pub status_is : String → Fields → Bool
status_is word d = elim (get "status" d) [
  | none ↦ false
  | some v ↦ elim v [
    | str s ↦ str_eq s word
    | null ↦ false
    | bool b ↦ false
    | int z ↦ false
    | float x ↦ false
    | seq vs ↦ false
    | dict e ↦ false
  ]
]

-- `equal` is Python's `==` on the values of the two dictionaries.
module _ (equal : Value → Value → Bool) where
  unfoldable pub same_value : Option Value → Option Value → Bool
  same_value (some v) (some w) = equal v w
  same_value v w = false

  -- `actual == declared` at one key: both leave it out, or both have it with equal values
  unfoldable pub agrees_at : String → Fields → Fields → Bool
  agrees_at key counts remaining =
      if is_set key counts
      then is_set key remaining && same_value (get key counts) (get key remaining)
      else not (is_set key remaining)

  unfoldable pub agrees : List String → Fields → Fields → Bool
  agrees [] counts remaining = true
  agrees (key ∷ keys) counts remaining =
      agrees_at key counts remaining && agrees keys counts remaining

  unfoldable pub matches_counts : Fields → List String → Option Value → Option Value → Bool
  matches_counts repair keys (some (dict counts)) (some (dict remaining)) =
      agrees keys counts remaining
      && (if status_is "completed" repair
          then not (any_set keys counts)
          else status_is "partial" repair
            && (any_set keys counts || is_set "skipped" repair || is_set "failures" repair))
  matches_counts repair keys counts remaining = false

  unfoldable pub repair_verification_matches :
      Fields → Fields → Option (List String) → String → Bool
  repair_verification_matches repair inspection actions permanence_policy =
      (status_is "ok" inspection || status_is "findings" inspection)
      && matches_counts repair (actionable_count_keys actions permanence_policy)
          (get "counts" inspection) (get "remaining" repair)
