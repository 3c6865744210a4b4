-- ===== src/Embedding/Handshake.antt =====
-- The worker's first message passes the supervisor's check.
use hermes_cashew.Base.{
  ℕ, ◌≤◌, ◌≡◌, refl, sym, ap, subst, ◌∙◌, true, Option, none, some, String, str_eq, str_eq_refl,
  ltb, leb, lt→ltb, le→leb, and-inv, ◌&&◌, length, ◌⊎◌, inl, inr, Bool-cases, arith,
}
use hermes_cashew.Base.Int.{ℤ, pos, negsuc}
use hermes_cashew.Base.Value.{Value, get}
use hermes_cashew.Embedding.{max_dimension, default_embedding_device}
use hermes_cashew.Embedding.Request.{codes}
use hermes_cashew.Embedding.Messages.{
  equals_text, equals_number, reported_dimension, reported_device, agrees_dimension, agrees_device,
  agreed, Launch, accept_hello,
}
use hermes_cashew.Embedding.Worker.{
  Library, load_on_cpu, first_load, load_model, effective_device, checked_dimension, hello_message,
  Running, announced, begin,
}

-- the length that the supervisor allows for the name of a device
abbrev pub IsShown : String → Type 0
IsShown d = (1 ≤ length (codes d)) × (length (codes d) ≤ 64)

module _ (lib : Library) where
  load_on_cpu-device :
      (l : Launch) {m : lib.Model} {d : String}
      → load_on_cpu lib l ≡ some (m, d)
      → d ≡ default_embedding_device
  unfolding load_on_cpu
  load_on_cpu-device l {m} {d} e = elim (Bool-cases (str_eq l.device default_embedding_device)) [
    | inl cpu ↦ absurd (cc (rw cpu at e))
    | inr other ↦ loaded (lib.load l.model (some default_embedding_device)) (rw other at e)
  ]
    where
      loaded :
          (o : Option lib.Model)
          → elim o as (λ _. Option (lib.Model × String)) [
            | none ↦ none
            | some x ↦ some (x, default_embedding_device)
          ]
            ≡ some (m, d)
          → d ≡ default_embedding_device
      loaded none q = absurd (cc q)
      loaded (some x) q = cc q

  load_model-device :
      (l : Launch) (o : Option lib.Model) {m : lib.Model} {d : String}
      → elim o as (λ _. Option (lib.Model × String)) [
        | none ↦ load_on_cpu lib l
        | some x ↦ some (x, l.device)
      ]
        ≡ some (m, d)
      → (d ≡ l.device) ⊎ (d ≡ default_embedding_device)
  load_model-device l none e = inr (load_on_cpu-device l e)
  load_model-device l (some x) e = inl (cc e)

  agrees-effective_device :
      (l : Launch) (m : lib.Model) (d : String)
      → (d ≡ l.device) ⊎ (d ≡ default_embedding_device)
      → agrees_device l.device (effective_device lib l m d) ≡ true
  unfolding effective_device agrees_device
  agrees-effective_device l m d (inl same) = elim (Bool-cases (str_eq l.device "auto")) [
    | inl auto ↦ rw auto refl
    | inr other ↦ rw other (rw (same, str_eq_refl l.device) refl)
  ]
  agrees-effective_device l m d (inr same) = elim (Bool-cases (str_eq l.device "auto")) [
    | inl auto ↦ rw auto refl
    | inr other ↦ rw (other, same) (ground (arith))
  ]

  checked_dimension-inv :
      (l : Launch) (z : Option ℤ) {n : ℕ}
      → checked_dimension lib l z ≡ some n
      → (ltb 0 n && leb n max_dimension ≡ true) × (agrees_dimension l.dimension n ≡ true)
  unfolding checked_dimension
  checked_dimension-inv l none e = absurd (cc e)
  checked_dimension-inv l (some (negsuc k)) e = absurd (cc e)
  checked_dimension-inv l (some (pos k)) {n} e =
      elim (Bool-cases (ltb 0 k && leb k max_dimension && agrees_dimension l.dimension k)) [
        | inl good ↦
            let same : k ≡ n = cc (rw good at e) in
            subst
              (λ j.
                (ltb 0 j && leb j max_dimension ≡ true) × (agrees_dimension l.dimension j ≡ true))
              same (and-inv _ _ good)
        | inr bad ↦ absurd (cc (rw bad at e))
      ]

  accept_hello-message :
      (l : Launch) (d : String) (n : ℕ)
      → IsShown d
      → ltb 0 n && leb n max_dimension ≡ true
      → agrees_dimension l.dimension n ≡ true
      → agrees_device l.device d ≡ true
      → accept_hello l (hello_message lib l d n) ≡ some (record { device = d; dimension = n })
  unfolding accept_hello hello_message get equals_text equals_number agreed reported_dimension
      reported_device
  accept_hello-message l d n shown hn an ad =
      rw
        (
          str_eq_refl l.generation,
          str_eq_refl l.model,
          str_eq_refl l.device,
          hn,
          lt→ltb 0 (length (codes d)) shown.0,
          le→leb (length (codes d)) 64 shown.1,
          an,
          ad,
        )
        refl

  announced-inv :
      (l : Launch) (m : lib.Model) (d : String) (o : Option ℕ) {w : Running lib} {h : Value}
      → announced lib l m d o ≡ some (w, h)
      → (n : ℕ) × (o ≡ some n)
        × (w ≡ record { model = m; device = d; dimension = n })
        × (h ≡ hello_message lib l d n)
  unfolding announced
  announced-inv l m d none e = absurd (cc e)
  announced-inv l m d (some n) e = (n, refl, cc e, cc e)

  begin-inv :
      (l : Launch) (o : Option (lib.Model × String)) {w : Running lib} {h : Value}
      → o ≡ load_model lib l
      → elim o as (λ _. Option (Running lib × Value)) [
        | none ↦ none
        | some (m, d) ↦
            announced lib l m
              (effective_device lib l m d)
              (checked_dimension lib l (lib.dimension_of m))
      ]
        ≡ some (w, h)
      → (ltb 0 w.dimension && leb w.dimension max_dimension ≡ true)
        × (agrees_dimension l.dimension w.dimension ≡ true)
        × (agrees_device l.device w.device ≡ true)
        × (h ≡ hello_message lib l w.device w.dimension)
  unfolding load_model
  begin-inv l none e q = absurd (cc q)
  begin-inv l (some (m, d)) e q =
      let (n, good, same, says) = announced-inv l m _ _ q in
      let (range, agrees) = checked_dimension-inv l _ good in
      let loaded = load_model-device l (first_load lib l) (sym e) in
      rw same (range, agrees, agrees-effective_device l m d loaded, says)

  -- Whenever the worker gets as far as its hello, on the device asked for, on the CPU after a
  -- failed load or on the device that the model names under auto, and the name of that device has
  -- 1 to 64 characters, the supervisor's check accepts the hello and takes over the worker's
  -- device and dimension.
  pub accept_hello-begin :
      (l : Launch) (w : Running lib) (h : Value)
      → begin lib l ≡ some (w, h)
      → IsShown w.device
      → accept_hello l h ≡ some (record { device = w.device; dimension = w.dimension })
  unfolding begin
  accept_hello-begin l w h e shown =
      let (range, agrees, device, says) = begin-inv l (load_model lib l) refl e in
      ap (accept_hello l) says
      ∙ accept_hello-message l w.device w.dimension shown range agrees device
