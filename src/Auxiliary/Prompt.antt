-- ===== src/Auxiliary/Prompt.antt =====
-- The bound on a prompt. A text is the list of its code points, so that lengths are those of the
-- language.
use hermes_cashew.Base.{
  ℕ, ◌+◌, ◌-◌, ◌≡◌, refl, List, [], ◌∷◌, ◌++◌, length, length-append, length-take, length-drop,
  take, drop, leb, min, if◌then◌else◌, arith, if_cases, not-leb→lt, leb→le,
}

abbrev pub prompt_limit : ℕ
prompt_limit = 32000

abbrev pub prompt_prefix : ℕ
prompt_prefix = 4096

-- "\n\n[Cashew truncated older prompt content.]\n\n"
abbrev pub marker : List ℕ
marker =
    10 ∷ 10 ∷ 91 ∷ 67 ∷ 97 ∷ 115 ∷ 104 ∷ 101 ∷ 119 ∷ 32 ∷ 116 ∷ 114 ∷ 117 ∷ 110 ∷ 99 ∷ 97 ∷ 116
    ∷ 101 ∷ 100 ∷ 32 ∷ 111 ∷ 108 ∷ 100 ∷ 101 ∷ 114 ∷ 32 ∷ 112 ∷ 114 ∷ 111 ∷ 109 ∷ 112 ∷ 116 ∷ 32
    ∷ 99 ∷ 111 ∷ 110 ∷ 116 ∷ 101 ∷ 110 ∷ 116 ∷ 46 ∷ 93 ∷ 10 ∷ 10 ∷ []

unfoldable pub trim_auxiliary_prompt : List ℕ → List ℕ
trim_auxiliary_prompt prompt =
    let prefix = take prompt_prefix prompt in
    let suffix_size = prompt_limit - length prefix - length marker in
    if leb (length prompt) prompt_limit
    then prompt
    else prefix ++ (marker ++ drop (length prompt - suffix_size) prompt)

length-parts : (xs ys zs : List ℕ) → length (xs ++ (ys ++ zs)) ≡ length xs + (length ys + length zs)
length-parts xs ys zs = omega (arith, length-append xs (ys ++ zs), length-append ys zs)

length-marker : length marker ≡ 44
length-marker = refl

-- A trimmed prompt has the length of the prompt, or 32000 where the prompt is longer.
pub length-trim_auxiliary_prompt :
    (prompt : List ℕ) → length (trim_auxiliary_prompt prompt) ≡ min (length prompt) prompt_limit
unfolding trim_auxiliary_prompt
length-trim_auxiliary_prompt prompt =
    if_cases (λ (l : List ℕ). length l ≡ min (length prompt) prompt_limit)
      (leb (length prompt) prompt_limit)
      (λ short. omega (arith, leb→le (length prompt) prompt_limit short))
      (λ long. omega (
        arith,
        not-leb→lt (length prompt) prompt_limit long,
        length-parts (take prompt_prefix prompt) marker (
            drop
              (length prompt - (prompt_limit - length (take prompt_prefix prompt) - length marker))
              prompt),
        length-take prompt_prefix prompt,
        length-drop
            (length prompt - (prompt_limit - length (take prompt_prefix prompt) - length marker))
            prompt,
        length-marker,
      ))
