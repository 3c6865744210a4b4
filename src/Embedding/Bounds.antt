-- ===== src/Embedding/Bounds.antt =====
-- The estimate of `encode` bounds the request, so what it accepts fits in a frame.
use hermes_cashew.Base.{
  ℕ, ◌+◌, ◌≤◌, ◌≡◌, ◌≢◌, ◌↔◌, refl, sym, ap, ◌∙◌, Bool, true, false, List, [], ◌∷◌, ◌++◌, some,
  String, length, length-append, All, ltb, ltb→lt, not-ltb→le, if◌then◌else◌, if_cases, Bool-cases,
  inl, inr, arith,
}
use hermes_cashew.Base.Value.{Value, null, bool, int, float, str, seq, dict}
use hermes_cashew.Embedding.{Failure, unavailable, Result, ok, raised, max_frame}
use hermes_cashew.Embedding.Request.{
  codes, utf8_length, escape_code, escape, dumps_text, dumps_items, dumps_head, request_payload,
  encode_envelope_bytes, check_texts, checked_payload, encode_request,
}

-- what the checks ask of one text
abbrev pub IsText : Value → Type 0
IsText (str s) = utf8_length (codes s) ≤ 1048576
IsText v = ⊥

-- a digit of `uuid4().hex`
abbrev pub IsHexDigit : ℕ → Type 0
IsHexDigit c = (48 ≤ c) × (c ≤ 102) × (c ≢ 92)

abbrev pub IsUuid : String → Type 0
IsUuid s = All IsHexDigit (codes s) × (length (codes s) ≡ 32)

length-escape_code : (c : ℕ) → IsHexDigit c → length (escape_code c) ≡ 1
unfolding escape_code
length-escape_code c h = ground arith

length-escape : (cs : List ℕ) → All IsHexDigit cs → length (escape cs) ≡ length cs
unfolding escape
length-escape [] h = refl
length-escape (c ∷ cs) h = omega (
  arith,
  length-append (escape_code c) (escape cs),
  length-escape_code c h.0,
  length-escape cs h.1,
)

length-dumps_text : (s : String) → IsUuid s → length (dumps_text s) ≡ 34
unfolding dumps_text
length-dumps_text s h =
    omega (arith, length-append (escape (codes s)) (34 ∷ []), length-escape (codes s) h.0, h.1)

length-dumps_items :
    (first : Bool) (s : String) (vs : List Value)
    → length (dumps_items first (str s ∷ vs))
      ≡ (length (dumps_text s) + (if first then 0 else 1)) + length (dumps_items false vs)
unfolding dumps_items
length-dumps_items true s vs = omega (arith, length-append (dumps_text s) (dumps_items false vs))
length-dumps_items false s vs = omega (arith, length-append (dumps_text s) (dumps_items false vs))

-- The loop accepts exactly the texts that are short enough, one by one and together.
check_texts_iff :
    (first : Bool) (estimated n : ℕ) (vs : List Value)
    → estimated ≤ max_frame
    → (check_texts first estimated vs ≡ ok n) ↔ (
        All IsText vs
        × (estimated + length (dumps_items first vs) ≤ max_frame)
        × (n ≡ estimated + length (dumps_items first vs)))
unfolding check_texts dumps_items
check_texts_iff first estimated n [] h =
    ((λ e. (tt, omega arith, ground (arith))), λ t. ap ok (omega (arith, t.2)))
check_texts_iff first estimated n (str s ∷ vs) h =
    let next = estimated + (length (dumps_text s) + (if first then 0 else 1)) in
    let items = length-dumps_items first s vs in
    elim (Bool-cases (ltb 1048576 (utf8_length (codes s)))) [
      | inl e1 ↦ rw e1 (
        (λ (e : raised (unavailable Failure.protocol) ≡ ok n). absurd (cc e)),
        λ t. absurd (omega (arith, t.0.0, ltb→lt _ _ e1)),
      )
      | inr e1 ↦ elim (Bool-cases (ltb max_frame next)) [
        | inl e2 ↦
            rw (e1, e2)
              (
                (λ (e : raised (unavailable Failure.protocol) ≡ ok n). absurd (cc e)),
                λ t. absurd (omega (arith, t.1, ltb→lt _ _ e2, items)),
              )
        | inr e2 ↦
            let (to, from) = check_texts_iff false next n vs (not-ltb→le _ _ e2) in
            rw (e1, e2)
              (
                (λ e.
                    let (texts, fits, same) = to e in
                    ((not-ltb→le _ _ e1, texts), omega (arith, items), omega (arith, items))),
                λ t. from (t.0.1, omega (arith, t.1, items), omega (arith, t.2, items)),
              )
      ]
    ]
check_texts_iff first estimated n (null ∷ vs) h = ((λ e. absurd (cc e)), λ t. absurd t.0.0)
check_texts_iff first estimated n (bool b ∷ vs) h = ((λ e. absurd (cc e)), λ t. absurd t.0.0)
check_texts_iff first estimated n (int z ∷ vs) h = ((λ e. absurd (cc e)), λ t. absurd t.0.0)
check_texts_iff first estimated n (float x ∷ vs) h = ((λ e. absurd (cc e)), λ t. absurd t.0.0)
check_texts_iff first estimated n (seq xs ∷ vs) h = ((λ e. absurd (cc e)), λ t. absurd t.0.0)
check_texts_iff first estimated n (dict d ∷ vs) h = ((λ e. absurd (cc e)), λ t. absurd t.0.0)

key_lengths :
    (length (dumps_text "op") ≡ 4)
    × (length (dumps_text "encode") ≡ 8)
    × (length (dumps_text "version") ≡ 9)
    × (length (dumps_text "generation") ≡ 12)
    × (length (dumps_text "request_id") ≡ 12)
    × (length (dumps_text "texts") ≡ 7)
unfolding dumps_text escape escape_code
key_lengths = (refl, refl, refl, refl, refl, refl)

length_nine :
    (a b c d e f g h i : List ℕ)
    → length (a ++ b ++ c ++ d ++ e ++ f ++ g ++ h ++ i)
      ≡ length a
        + length b
        + length c
        + length d
        + length e
        + length f
        + length g
        + length h
        + length i
length_nine a b c d e f g h i = omega (
  arith,
  length-append a b,
  length-append (a ++ b) c,
  length-append (a ++ b ++ c) d,
  length-append (a ++ b ++ c ++ d) e,
  length-append (a ++ b ++ c ++ d ++ e) f,
  length-append (a ++ b ++ c ++ d ++ e ++ f) g,
  length-append (a ++ b ++ c ++ d ++ e ++ f ++ g) h,
  length-append (a ++ b ++ c ++ d ++ e ++ f ++ g ++ h) i,
)

length-dumps_head : (g r : String) → IsUuid g → IsUuid r → length (dumps_head g r) ≡ 132
unfolding dumps_head
length-dumps_head g r hg hr = omega (
  arith,
  length_nine (123 ∷ dumps_text "op") (58 ∷ dumps_text "encode") (44 ∷ dumps_text "version")
      (58 ∷ 49 ∷ 44 ∷ dumps_text "generation") (58 ∷ dumps_text g) (44 ∷ dumps_text "request_id")
      (58 ∷ dumps_text r) (44 ∷ dumps_text "texts") (58 ∷ 91 ∷ []),
  length-dumps_text g hg,
  length-dumps_text r hr,
  key_lengths.0,
  key_lengths.1,
  key_lengths.2,
  key_lengths.3,
  key_lengths.4,
  key_lengths.5,
)

-- The estimate never falls short of the request.
length-request_payload :
    (g r : String) (vs : List Value)
    → IsUuid g
    → IsUuid r
    → length (request_payload g r vs) ≤ encode_envelope_bytes + length (dumps_items true vs)
unfolding request_payload
length-request_payload g r vs hg hr = omega (
  arith,
  length-append (dumps_head g r) (dumps_items true vs ++ (93 ∷ 125 ∷ [])),
  length-append (dumps_items true vs) (93 ∷ 125 ∷ []),
  length-dumps_head g r hg hr,
)

-- what `encode` asks of its texts
abbrev pub Accepts : List Value → Type 0
Accepts vs =
    All IsText vs
    × (1 ≤ length vs)
    × (length vs ≤ 100)
    × (encode_envelope_bytes + length (dumps_items true vs) ≤ max_frame)

checked_payload-inv :
    (q : List ℕ) (r : Result ℕ) (p : List ℕ)
    → checked_payload q r ≡ ok (some p)
    → (n : ℕ) × (r ≡ ok n) × (p ≡ q) × (length p ≤ max_frame)
unfolding checked_payload
checked_payload-inv q (raised x) p e = absurd (cc e)
checked_payload-inv q (ok n) p e = elim (Bool-cases (ltb max_frame (length q))) [
  | inl long ↦ absurd (cc (rw long at e))
  | inr short ↦
      let same : p ≡ q = cc (rw short at e) in
      (n, refl, same, omega (arith, not-ltb→le _ _ short, ap length same))
]

checked_payload-fits :
    (q : List ℕ) (n : ℕ) → length q ≤ max_frame → checked_payload q (ok n) ≡ ok (some q)
unfolding checked_payload
checked_payload-fits q n h =
    if_cases (λ r. r ≡ ok (some q)) (ltb max_frame (length q))
      (λ e. absurd (omega (arith, ltb→lt _ _ e))) (λ e. refl)

-- For a generation and a request id of 32 hexadecimal digits: encode goes on to the worker, with
-- the request's JSON document as payload, exactly when there are 1 to 100 texts, all are texts of
-- at most 1048576 bytes in UTF-8, and 1024 plus the length of their JSON is at most the frame's
-- limit; the payload then fits in a frame.
pub encode_request_iff :
    (g r : String) (vs : List Value) (p : List ℕ)
    → IsUuid g
    → IsUuid r
    → (encode_request g r vs ≡ ok (some p))
      ↔ (Accepts vs × (p ≡ request_payload g r vs) × (length p ≤ max_frame))
unfolding encode_request
encode_request_iff g r [] p hg hr = ((λ e. absurd (cc e)), λ t. absurd (omega (arith, t.0.1)))
encode_request_iff g r (v ∷ vs) p hg hr = elim (Bool-cases (ltb 100 (length (v ∷ vs)))) [
  | inl e ↦ rw e (
    (λ (x : raised (unavailable Failure.protocol) ≡ ok (some p)). absurd (cc x)),
    λ t. absurd (omega (arith, t.0.2, ltb→lt _ _ e)),
  )
  | inr e ↦ rw e (
    (λ x.
        let (n, e1, e2, le) = checked_payload-inv _ _ p x in
        let (texts, fits, _) =
          (check_texts_iff true encode_envelope_bytes n (v ∷ vs) (omega arith)).0 e1 in
        ((texts, omega arith, not-ltb→le _ _ e, fits), e2, le)),
    λ t.
        let (texts, _, _, fits) = t.0 in
        ap (checked_payload (request_payload g r (v ∷ vs))) (
          (check_texts_iff true encode_envelope_bytes _ (v ∷ vs) (omega arith)).1
            (texts, fits, refl))
        ∙ checked_payload-fits (request_payload g r (v ∷ vs)) _
            (omega (arith, length-request_payload g r (v ∷ vs) hg hr, fits))
        ∙ ap (λ q. ok (some q)) (sym t.1),
  )
]
