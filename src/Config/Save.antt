-- ===== src/Config/Save.antt =====
-- What a save leaves on the disk wherever it stops, and what a load accepts.
use hermes_cashew.Base.{
  ◌≡◌, refl, sym, ap, ◌∙◌, ◌⊎◌, inl, inr, Bool, true, false, List, [], ◌∷◌, Option, none, String,
  member, member-cons, str_eq_refl, arith,
}
use hermes_cashew.Base.Value.{dict, Fields, end, field, get}
use hermes_cashew.Config.Fields.{Result, ok, err, config_keys, validate_config_values}
use hermes_cashew.Config.Normal.{
  Settled, bind-ok-inv, validate_config_values-Settled, validate_config_values_idem,
}
use hermes_cashew.Base.{some, ◌≤◌, ◌+◌, ◌-◌}
use hermes_cashew.Base.Value.{Value}
use hermes_cashew.Config.Normal.{ok-inj}
use hermes_cashew.Config.Files.{
  Document, holds, Parsers, Disk, Stop, raises, sticks, interrupts, Point, at_create, at_entry,
  at_write, at_mode, at_replace, at_sync, attempt, atomic_write_config, saved_object, write_object,
  save_config, same_keys, all_there, load_config, merged_document, override_all,
  load_effective_config_snapshot, known_key,
}
use hermes_cashew.Config.RoundTrip.{load_config-saved_object, has_key-Settled}

-- The document is the old one, or the object that was to be written.
abbrev pub IsOldOrNew : Result Fields → Disk → Disk → Type 0
IsOldOrNew written before after =
    (after.document ≡ before.document)
    ⊎ ((o : Fields) × (written ≡ ok o) × (after.document ≡ holds (dict o)))

member_self : (k : String) (ks : List String) → member k (k ∷ ks) ≡ true
unfolding member
member_self k ks = rw (str_eq_refl k)

-- No operation is interrupted, and the handler unlinks the file of those that raise.
pub IsHandled : (Point → Option Stop) → Type 0
IsHandled stop = (stop at_entry ≡ none) × ((p : Point) → (stop p ≡ none) ⊎ (stop p ≡ some raises))

abbrev Left : (Point → Option Stop) → Result Fields → Disk → Disk → Type 0
Left stop r before after =
    IsOldOrNew r before after
    × (before.temporary ≤ after.temporary)
    × (after.temporary ≤ before.temporary + 1)
    × (IsHandled stop → after.temporary ≡ before.temporary)

attempt_elim :
    (P : Bool × Disk → Type 0) (o : Option Stop) (unlinked d : Disk) (rest : Bool × Disk)
    → ((o ≡ some raises) → P (true, unlinked))
    → ((o ≡ some sticks) ⊎ (o ≡ some interrupts) → P (true, d))
    → (o ≡ none → P rest)
    → P (attempt o unlinked d rest)
unfolding attempt
attempt_elim P none unlinked d rest p q r = r refl
attempt_elim P (some raises) unlinked d rest p q r = p refl
attempt_elim P (some sticks) unlinked d rest p q r = q (inl refl)
attempt_elim P (some interrupts) unlinked d rest p q r = q (inr refl)

-- A stop of the other kinds is not handled.
not_handled :
    (stop : Point → Option Stop) (p : Point)
    → (stop p ≡ some sticks) ⊎ (stop p ≡ some interrupts)
    → IsHandled stop
    → ⊥
unfolding IsHandled
not_handled stop p bad h = ground (arith, h.1 p, bad)

-- What a write leaves, by what it answers.
abbrev WriteLeft : (Point → Option Stop) → Value → Disk → Bool × Disk → Type 0
WriteLeft stop v before x =
    ((x.1.document ≡ before.document) ⊎ (x.1.document ≡ holds v))
    × (before.temporary ≤ x.1.temporary)
    × (x.1.temporary ≤ before.temporary + 1)
    × (IsHandled stop → x.1.temporary ≡ before.temporary)

module _ (stop : Point → Option Stop) (v : Value) (d : Disk) where
  -- an operation under the handler, with the disk that it leaves and the file that lies there
  under_handler :
      (p : Point) (unlinked staged : Disk) (rest : Bool × Disk)
      → WriteLeft stop v d (true, unlinked)
      → (staged.document ≡ d.document) ⊎ (staged.document ≡ holds v)
      → (d.temporary ≤ staged.temporary) × (staged.temporary ≤ d.temporary + 1)
      → WriteLeft stop v d rest
      → WriteLeft stop v d (attempt (stop p) unlinked staged rest)
  under_handler p unlinked staged rest ok_unlinked document size ok_rest =
      attempt_elim (WriteLeft stop v d) (stop p) unlinked staged rest (λ _. ok_unlinked)
        (λ bad. (document, size.0, size.1, λ h. absurd (not_handled stop p bad h))) (λ _. ok_rest)

  atomic_write_config-Left : WriteLeft stop v d (atomic_write_config stop v d)
  unfolding atomic_write_config IsHandled
  atomic_write_config-Left =
      let same : WriteLeft stop v d (true, d) = (inl refl, omega arith, omega arith, λ h. refl) in
      let back : WriteLeft stop v d (true, record d { temporary = (d.temporary + 1) - 1 }) =
        (inl refl, omega arith, omega arith, λ h. omega arith) in
      attempt_elim (WriteLeft stop v d) (stop at_create) d d _ (λ _. same) (λ _. same)
        (λ _.
          attempt_elim (WriteLeft stop v d) (stop at_entry) _ _ _
            (λ e. (inl refl, omega arith, omega arith, λ h. absurd (cc (e, h.0))))
            (λ e. (inl refl, omega arith, omega arith, λ h. absurd (not_handled stop at_entry e h)))
            (λ _.
              under_handler at_write _ _ _ back (inl refl) (omega arith, omega arith)
                (under_handler at_mode _ _ _ back (inl refl) (omega arith, omega arith)
                  (under_handler at_replace _ _ _ back (inl refl) (omega arith, omega arith)
                    (under_handler at_sync _ _ _
                      (inr refl, omega arith, omega arith, λ h. omega arith) (inr refl)
                      (omega arith, omega arith)
                      (inr refl, omega arith, omega arith, λ h. omega arith))))))

  abbrev Returned : Bool × Disk → Type 0
  Returned x = x.0 ≡ false → x.1.document ≡ holds v

  attempt-Returned :
      (o : Option Stop) (unlinked staged : Disk) (rest : Bool × Disk)
      → Returned rest
      → Returned (attempt o unlinked staged rest)
  attempt-Returned o unlinked staged rest r =
      attempt_elim Returned o unlinked staged rest (λ _ h. absurd (cc h)) (λ _ h. absurd (cc h))
        (λ _. r)

  atomic_write_config-Returned : Returned (atomic_write_config stop v d)
  unfolding atomic_write_config
  atomic_write_config-Returned = attempt-Returned (stop at_create) d d _ (
      attempt-Returned (stop at_entry) _ _ _ (
        attempt-Returned (stop at_write) _ _ _ (
          attempt-Returned (stop at_mode) _ _ _ (
            attempt-Returned (stop at_replace) _ _ _
              (attempt-Returned (stop at_sync) _ _ _ (λ _. refl))))))

module _ (is_absolute is_within : String → Bool) where
  write_object-atomic :
      (stop : Point → Option Stop) (r : Result Fields) (disk : Disk)
      → Left stop r disk (write_object is_absolute is_within stop r disk).1
  unfolding write_object
  write_object-atomic stop (err e) disk = (inl refl, omega arith, omega arith, λ h. refl)
  write_object-atomic stop (ok o) disk =
      let (document, low, high, clean) = atomic_write_config-Left stop (dict o) disk in
      (either_ok (atomic_write_config stop (dict o) disk).1 o document, low, high, clean)
    where
      either_ok :
          (d : Disk) (o : Fields)
          → (d.document ≡ disk.document) ⊎ (d.document ≡ holds (dict o))
          → IsOldOrNew (ok o) disk d
      either_ok d o (inl e) = inl e
      either_ok d o (inr e) = inr (o, refl, e)

  -- Wherever a save stops: the document is the one that was there, or the whole object that
  -- saved_object makes of it and the values; at most one temporary file more is left behind, and
  -- none if each operation succeeds or raises an exception that the handler catches, the handler
  -- can unlink, and nothing stops the save between the creation of the file and the handler's
  -- scope.
  pub save_config-atomic :
      (stop : Point → Option Stop) (values : Fields) (disk : Disk)
      → let after = (save_config is_absolute is_within stop values disk).1 in
        IsOldOrNew (saved_object is_absolute is_within values disk.document) disk after
        × (disk.temporary ≤ after.temporary)
        × (after.temporary ≤ disk.temporary + 1)
        × (IsHandled stop → after.temporary ≡ disk.temporary)
  unfolding save_config
  save_config-atomic stop values disk =
      write_object-atomic stop (saved_object is_absolute is_within values disk.document) disk

  write_object-done :
      (stop : Point → Option Stop) (r : Result Fields) (disk after : Disk)
      → write_object is_absolute is_within stop r disk ≡ (ok false, after)
      → (o : Fields) × (r ≡ ok o) × (after.document ≡ holds (dict o))
  unfolding write_object
  write_object-done stop (ok o) disk after h = (
    o,
    refl,
    sym (ap (λ p. p.1.document) h)
        ∙ atomic_write_config-Returned stop (dict o) disk (ok-inj (ap (λ p. p.0) h)),
  )
  write_object-done stop (err e) disk after h = cc

  same_keys-Settled :
      (ks js : List String) (c : Fields)
      → ((j : String) → member j ks ≡ true → member j js ≡ true)
      → Settled ks c
      → same_keys js c ≡ true
  unfolding same_keys
  same_keys-Settled [] js end sub s = refl
  same_keys-Settled [] js (field k w rest) sub s = absurd s
  same_keys-Settled (k ∷ ks) js end sub s = absurd s
  same_keys-Settled (k ∷ ks) js (field i w rest) sub s =
      rw (ap (λ x. member x js) s.0, sub k (member_self k ks))
        (same_keys-Settled ks js rest (λ j m. sub j (member-cons j k ks m)) s.1.1)

  all_there-Settled :
      (ks js : List String) (c : Fields)
      → Settled ks c
      → ((j : String) → member j js ≡ true → member j ks ≡ true)
      → all_there js c ≡ true
  unfolding all_there
  all_there-Settled ks [] c s sub = refl
  all_there-Settled ks (j ∷ js) c s sub =
      rw (has_key-Settled ks c j s, sub j (member_self j js))
        (all_there-Settled ks js c s (λ i m. sub i (member-cons i j js m)))

  -- A save that reports success has left an object on the disk that loads, with no override in
  -- the environment, to a configuration with every known setting as it was written.
  pub load_config-save_config :
      (parsers : Parsers) (stop : Point → Option Stop) (values : Fields) (disk after : Disk)
      → save_config is_absolute is_within stop values disk ≡ (ok false, after)
      → (o : Fields) × (c : Fields) × (after.document ≡ holds (dict o))
        × (load_config is_absolute is_within parsers (λ k. none) after.document ≡ ok c)
        × ((j : String) → known_key j ≡ true → get j c ≡ get j o)
  unfolding save_config
  load_config-save_config parsers stop values disk after h =
      let (o, s, d) =
        write_object-done stop (saved_object is_absolute is_within values disk.document) disk after
          h in
      let (c, l, same) =
        load_config-saved_object is_absolute is_within parsers values disk.document o s in
      (o, c, d, ap (load_config is_absolute is_within parsers (λ k. none)) d ∙ l, same)

  -- A load that succeeds, under any environment and from any document, returns the settings in
  -- order, each with a value of its class: counts in their ranges, a timeout of at most 300
  -- seconds, texts that are not blank, flags that are booleans.
  pub load_config-Settled :
      (parsers : Parsers) (env : String → Option String) (document : Document) (c : Fields)
      → load_config is_absolute is_within parsers env document ≡ ok c
      → Settled config_keys c
  unfolding load_config
  load_config-Settled parsers env document c h =
      let (merged, m, q) = bind-ok-inv (merged_document document) _ h in
      let (all, a, v) =
        bind-ok-inv (override_all is_absolute is_within parsers env config_keys merged) _ q in
      validate_config_values-Settled is_absolute is_within all c v

  -- The snapshot of a validated configuration is accepted, and read as it is.
  pub load_effective_config_snapshot-validated :
      (parsers : Parsers) (values c : Fields)
      → validate_config_values is_absolute is_within values ≡ ok c
      → load_effective_config_snapshot is_absolute is_within parsers (dict c) ≡ ok c
  unfolding load_effective_config_snapshot
  load_effective_config_snapshot-validated parsers values c h =
      let s = validate_config_values-Settled is_absolute is_within values c h in
      rw
        (
          same_keys-Settled config_keys config_keys c (λ j m. m) s,
          all_there-Settled config_keys config_keys c s (λ j m. m),
        )
        (validate_config_values_idem is_absolute is_within values c h)
