-- ===== src/Integrity/Transaction.antt =====
-- What the report of a repair says of the file is true of the file.
use hermes_cashew.Base.{
  ℕ, ◌≡◌, refl, sym, ap, subst, ◌∙◌, Bool, true, false, Option, none, some, String, ◌&&◌, ◌||◌, not,
  if◌then◌else◌, if_elim, if_cases, and-inv, ◌⊎◌, inl, inr,
}
use hermes_cashew.Base.Int.{ℤ}
use hermes_cashew.Base.Value.{Value, bool, Float, Fields, get, put}
use hermes_cashew.Base.Dict.{get-put}
use hermes_cashew.Integrity.Verify.{is_set, status_is, profile_repair_request_error}
use hermes_cashew.Integrity.Delegate.{
  Asked, Profile, repair_unavailable, inspect_integrity, apply_on_connection,
}
use hermes_cashew.Integrity.Repair.{
  Failed, plainly, bool_or_null, repair_failure, Progress, at_start, Exit, returns, raises,
  committed_report, Stage, stage, matches, after_commit, try_commit, before_commit, run_repair,
  with_backup, with_transaction, differs_model, differs_dimension, with_identity, with_connection,
  left, admitted, known_commit, handle, handled, concluded, apply_profile_repairs,
}

get-repair_failure :
    (reason : String) (f : Failed)
    → get "committed" (repair_failure reason f) ≡ some (bool_or_null f.committed)
unfolding repair_failure get put
get-repair_failure reason f = with_path f.backup_path f.mutation_uncertain f.recovery_required
  where
    with_path :
        (o : Option String) (u r : Bool)
        → get "committed" (
            repair_failure reason
              (record f { backup_path = o; mutation_uncertain = u; recovery_required = r }))
          ≡ some (bool_or_null f.committed)
    with_path none true true = refl
    with_path none true false = refl
    with_path none false true = refl
    with_path none false false = refl
    with_path (some x) true true = refl
    with_path (some x) true false = refl
    with_path (some x) false true = refl
    with_path (some x) false false = refl

get-committed_report :
    (path : String) (result before after : Fields)
    → get "committed" (committed_report path result before after) ≡ some (bool true)
unfolding committed_report
get-committed_report path result before after = simp get-put refl

module _ (p : Profile) (equal : Value → Value → Bool) (show : Value → String) where
  open p use {World, Content, durable, backed_up, in_transaction, commit, inspect, repair}

  -- a report that denies the commit
  abbrev Denies : Exit → Type 0 → Type 0
  Denies (returns r) T = get "committed" r ≡ some (bool false) → T
  Denies raises T = Unit {0}

  -- A stage and the content `c` that the file had before.
  record IsHonest (c : Content) (s : Stage p equal show) : Type 0 where
    denied : Denies s.exit (durable s.world ≡ c)
    unattempted : s.progress.commit_attempted ≡ false → durable s.world ≡ c
    still_open : in_transaction s.world ≡ true → durable s.world ≡ c
    recoverable : (durable s.world ≡ c) ⊎ (backed_up s.world ≡ some c)

  kept-IsHonest :
      (c : Content) (e : Exit) (g : Progress) (w : World)
      → durable w ≡ c
      → IsHonest c (stage p equal show e g w)
  unfolding stage
  kept-IsHonest c e g w d = record {
    denied = denies e;
    unattempted = λ _. d;
    still_open = λ _. d;
    recoverable = inl d;
  }
    where
      denies : (e' : Exit) → Denies e' (durable w ≡ c)
      denies (returns r) = λ _. d
      denies raises = tt

  -- Delegation to upstream changes neither the file nor the backup.
  durable-inspect_integrity :
      (m : Option String) (d : Option ℕ) (w : World)
      → durable (inspect_integrity p m d w).1 ≡ durable w
  unfolding inspect_integrity
  durable-inspect_integrity m d w =
      if_elim (λ (r : Fields × World). durable r.1 ≡ durable w) p.has_api (p.inspect_durable m d w)
        refl

  backed_up-inspect_integrity :
      (m : Option String) (d : Option ℕ) (w : World)
      → backed_up (inspect_integrity p m d w).1 ≡ backed_up w
  unfolding inspect_integrity
  backed_up-inspect_integrity m d w =
      if_elim (λ (r : Fields × World). backed_up r.1 ≡ backed_up w) p.has_api
        (p.inspect_backup m d w) refl

  in_transaction-inspect_integrity :
      (m : Option String) (d : Option ℕ) (w : World)
      → in_transaction (inspect_integrity p m d w).1 ≡ in_transaction w
  unfolding inspect_integrity
  in_transaction-inspect_integrity m d w =
      if_elim (λ (r : Fields × World). in_transaction r.1 ≡ in_transaction w) p.has_api
        (p.inspect_open m d w) refl

  apply_on_connection_keeps :
      (a : Asked) (w : World)
      → (durable (apply_on_connection p true a w).1 ≡ durable w)
        × (backed_up (apply_on_connection p true a w).1 ≡ backed_up w)
  unfolding apply_on_connection
  apply_on_connection_keeps a w =
      if_elim Keeps (not (in_transaction w)) (refl, refl)
        (if_elim Keeps (not p.has_api) (refl, refl) (p.repair_durable _ w, p.repair_backup _ w))
    where
      Keeps : Fields × World → Type 0
      Keeps r = (durable r.1 ≡ durable w) × (backed_up r.1 ≡ backed_up w)

  after_commit-IsHonest :
      (c : Content) (a : Asked) (path : String) (result before : Fields) (g : Progress) (w : World)
      → g.commit_attempted ≡ true
      → in_transaction w ≡ false
      → backed_up w ≡ some c
      → IsHonest c (after_commit p equal show a path result before g w)
  unfolding after_commit stage
  after_commit-IsHonest c a path result before g w attempted shut b =
      let i = inspect_integrity p a.expected_model a.expected_dimension w in
      let open' = in_transaction-inspect_integrity a.expected_model a.expected_dimension w in
      let b' = backed_up-inspect_integrity a.expected_model a.expected_dimension w ∙ b in
      if_elim (IsHonest c) (matches p equal show a result i.0)
        (record {
          denied = λ h. absurd (cc (h, get-committed_report path result before i.0));
          unattempted = λ h. absurd (cc (h, attempted));
          still_open = λ h. absurd (cc (h, open', shut));
          recoverable = inr b';
        })
        (record {
          denied = λ h. absurd (
              cc (
                h,
                get-repair_failure "postcommit_verification_failed" (record plainly {
                  backup_path = some path;
                  committed = some true;
                  mutated = is_set "mutated" result;
                  mutation_uncertain = true;
                  recovery_required = true;
                }),
              ));
          unattempted = λ h. absurd (cc (h, attempted));
          still_open = λ h. absurd (cc (h, open', shut));
          recoverable = inr b';
        })

  try_commit-IsHonest :
      (c : Content) (a : Asked) (path : String) (result before : Fields) (g : Progress) (w : World)
      → durable w ≡ c
      → backed_up w ≡ some c
      → IsHonest c (try_commit p equal show a path result before g w)
  unfolding try_commit stage
  try_commit-IsHonest c a path result before g w d b =
      if_cases (IsHonest c) (commit w).0
        (λ e.
          after_commit-IsHonest c a path result before
            (record g { commit_attempted = true; commit_succeeded = true }) (commit w).1 refl
            (p.commit_closed w e) (p.commit_backup w ∙ b))
        (λ e. record {
          denied = tt;
          unattempted = λ h. absurd (cc h);
          still_open = λ h. p.commit_open w e h ∙ d;
          recoverable = inr (p.commit_backup w ∙ b);
        })

  before_commit-IsHonest :
      (c : Content) (a : Asked) (path : String) (result : Fields) (g : Progress) (w : World)
      → durable w ≡ c
      → backed_up w ≡ some c
      → IsHonest c (before_commit p equal show a path result g w)
  unfolding before_commit
  before_commit-IsHonest c a path result g w d b =
      let i = inspect_integrity p a.expected_model a.expected_dimension w in
      let d' = durable-inspect_integrity a.expected_model a.expected_dimension w ∙ d in
      let b' = backed_up-inspect_integrity a.expected_model a.expected_dimension w ∙ b in
      if_elim (IsHonest c) (matches p equal show a result i.0)
        (try_commit-IsHonest c a path result i.0 g i.1 d' b')
        (kept-IsHonest c _ g (p.rollback i.1) (p.rollback_durable i.1 ∙ d'))

  run_repair-IsHonest :
      (c : Content) (a : Asked) (path : String) (g : Progress) (w : World)
      → durable w ≡ c
      → backed_up w ≡ some c
      → IsHonest c (run_repair p equal show a path g w)
  unfolding run_repair
  run_repair-IsHonest c a path g w d b =
      let r = apply_on_connection p true a w in
      let (same, backup) = apply_on_connection_keeps a w in
      let g' : Progress = record g { repair_result = some r.0 } in
      if_elim (IsHonest c) (status_is "completed" r.0 || status_is "partial" r.0)
        (before_commit-IsHonest c a path r.0 g' r.1 (same ∙ d) (backup ∙ b))
        (kept-IsHonest c _ g' (p.rollback r.1) (p.rollback_durable r.1 ∙ (same ∙ d)))

  with_backup-IsHonest :
      (c : Content) (a : Asked) (g : Progress) (r : Option String × World)
      → durable r.1 ≡ c
      → ((path : String) → r.0 ≡ some path → backed_up r.1 ≡ some c)
      → IsHonest c (with_backup p equal show a g r)
  unfolding with_backup
  with_backup-IsHonest c a g (none, w) d b = kept-IsHonest c raises g w d
  with_backup-IsHonest c a g (some path, w) d b =
      run_repair-IsHonest c a path (record g { backup_path = some path }) w d (b path refl)

  with_transaction-IsHonest :
      (c : Content) (a : Asked) (g : Progress) (w : World)
      → durable w ≡ c
      → IsHonest c (with_transaction p equal show a g w)
  unfolding with_transaction
  with_transaction-IsHonest c a g w d =
      let t = p.begin w in
      let d' = p.begin_durable w ∙ d in
      if_elim (IsHonest c) t.0
        (with_backup-IsHonest c a g (p.create_verified_backup t.1) (p.backup_durable t.1 ∙ d')
          (λ path e. p.backup_holds t.1 e ∙ ap some d'))
        (kept-IsHonest c raises g t.1 d')

  with_identity-IsHonest :
      (c : Content) (a : Asked) (g : Progress) (r : Option (String × ℕ) × World)
      → durable r.1 ≡ c
      → IsHonest c (with_identity p equal show a g r)
  unfolding with_identity
  with_identity-IsHonest c a g (none, w) d = kept-IsHonest c _ g w d
  with_identity-IsHonest c a g (some (m, n), w) d =
      if_elim (IsHonest c) (differs_model p equal show a.expected_model m) (kept-IsHonest c _ g w d)
        (if_elim (IsHonest c) (differs_dimension p equal show a.expected_dimension n)
          (kept-IsHonest c _ g w d) (with_transaction-IsHonest c _ g w d))

  with_connection-IsHonest :
      (c : Content) (a : Asked) (w : World)
      → durable w ≡ c
      → IsHonest c (with_connection p equal show a w)
  unfolding with_connection
  with_connection-IsHonest c a w d =
      let o = p.connect w in
      let d' = p.connect_durable w ∙ d in
      if_elim (IsHonest c) o.0
        (with_identity-IsHonest c a (record at_start { connected = true }) (p.identity o.1)
          (p.identity_durable o.1 ∙ d'))
        (kept-IsHonest c raises at_start o.1 d')

  left-IsHonest :
      (c : Content) (s : Stage p equal show) → IsHonest c s → IsHonest c (left p equal show s)
  unfolding left stage
  left-IsHonest c s v =
      let l = p.leave s.world in
      let same = p.leave_durable s.world in
      record {
        denied = ends l.0 (denies s.exit v.denied);
        unattempted = λ h. same ∙ v.unattempted h;
        still_open = λ h. same ∙ v.still_open (sym (p.leave_open s.world) ∙ h);
        recoverable = elim v.recoverable [
          | inl d ↦ inl (same ∙ d)
          | inr b ↦ inr (p.leave_backup s.world ∙ b)
        ];
      }
    where
      denies :
          (e : Exit) → Denies e (durable s.world ≡ c) → Denies e (durable (p.leave s.world).1 ≡ c)
      denies (returns r) h = λ q. p.leave_durable s.world ∙ h q
      denies raises h = tt

      ends :
          (b : Bool)
          → Denies s.exit (durable (p.leave s.world).1 ≡ c)
          → Denies (if b then s.exit else raises) (durable (p.leave s.world).1 ≡ c)
      ends true h = h
      ends false h = tt

  admitted-IsHonest : (a : Asked) (w : World) → IsHonest (durable w) (admitted p equal show a w)
  unfolding admitted
  admitted-IsHonest a w =
      let l = p.admit w in
      if_elim (IsHonest (durable w)) l.0
        (left-IsHonest (durable w) (with_connection p equal show a l.1)
          (with_connection-IsHonest (durable w) a l.1 (p.admit_durable w)))
        (kept-IsHonest (durable w) raises at_start l.1 (p.admit_durable w))

  -- What the caller learns and finds.
  abbrev Reports : Content → Fields × World → Type 0
  Reports c r =
      (get "committed" r.0 ≡ some (bool false) → durable r.1 ≡ c)
      × ((durable r.1 ≡ c) ⊎ (backed_up r.1 ≡ some c))

  known_commit_denied :
      (g : Progress) → known_commit p equal show g ≡ some false → g.commit_attempted ≡ false
  unfolding known_commit
  known_commit_denied g h =
      if_cases (λ (o : Option Bool). o ≡ some false → g.commit_attempted ≡ false) g.commit_succeeded
        (λ _ q. absurd (cc q))
        (λ _.
          if_cases (λ (o : Option Bool). o ≡ some false → g.commit_attempted ≡ false)
            g.commit_attempted (λ _ q. absurd (cc q)) (λ e _. e))
        h

  denied_commit :
      (g : Progress)
      → some (bool_or_null (known_commit p equal show g)) ≡ some (bool false)
      → g.commit_attempted ≡ false
  denied_commit g h = known_commit_denied g (denial (known_commit p equal show g) h)
    where
      denial : (o : Option Bool) → some (bool_or_null o) ≡ some (bool false) → o ≡ some false
      denial none q = absurd (cc q)
      denial (some true) q = absurd (cc q)
      denial (some false) q = refl

  handle-Reports :
      (c : Content) (s : Stage p equal show)
      → IsHonest c s
      → Reports c (handle p equal show s.progress s.world)
  unfolding handle
  handle-Reports c s v =
      let g = s.progress in
      if_cases (Reports c) (g.connected && in_transaction s.world)
        (λ e.
          let d = p.rollback_durable s.world ∙ v.still_open (and-inv _ _ e).1 in ((λ _. d), inl d))
        (λ _. (
          (λ h.
              v.unattempted
                (denied_commit _ (sym (get-repair_failure "operator_repair_failed" _) ∙ h))),
          v.recoverable,
        ))

  handled-Reports :
      (c : Content) (e : Exit) (s : Stage p equal show)
      → s.exit ≡ e
      → IsHonest c s
      → Reports c (handled p equal show e s.progress s.world)
  unfolding handled
  handled-Reports c (returns r) s q v =
      (subst (λ x. Denies x (durable s.world ≡ c)) q v.denied, v.recoverable)
  handled-Reports c raises s q v = handle-Reports c s v

  concluded-Reports :
      (c : Content) (s : Stage p equal show) → IsHonest c s → Reports c (concluded p equal show s)
  unfolding concluded
  concluded-Reports c s v =
      let h = handled p equal show s.exit s.progress s.world in
      let (denied, recoverable) = handled-Reports c s.exit s refl v in
      if_elim (λ (w : World). Reports c (h.0, w)) s.progress.connected
        (
          (λ q. p.close_durable h.1 ∙ denied q),
          elim recoverable [
            | inl d ↦ inl (p.close_durable h.1 ∙ d)
            | inr b ↦ inr (p.close_backup h.1 ∙ b)
          ],
        )
        (denied, recoverable)

  apply_profile_repairs-Reports :
      (deadline_seconds : Float) (batch_size max_items : ℤ) (a : Asked) (w : World)
      → Reports
          (durable w)
          (apply_profile_repairs p equal show deadline_seconds batch_size max_items a w)
  unfolding apply_profile_repairs
  apply_profile_repairs-Reports deadline_seconds batch_size max_items a w =
      checked
        (profile_repair_request_error deadline_seconds batch_size max_items a.permanence_policy)
    where
      checked :
          (o : Option String)
          → Reports (durable w) (elim o as (λ _. Fields × World) [
            | some reason ↦ (repair_failure reason plainly, w)
            | none ↦
                if not (p.is_file w)
                then (repair_failure "profile_not_found" plainly, w)
                else if not p.has_api
                then (repair_unavailable true, w)
                else concluded p equal show (admitted p equal show a w)
          ])
      checked (some reason) = ((λ _. refl), inl refl)
      checked none =
          if_elim (Reports (durable w)) (not (p.is_file w)) ((λ _. refl), inl refl)
            (if_elim (Reports (durable w)) (not p.has_api) ((λ _. refl), inl refl)
              (concluded-Reports (durable w) (admitted p equal show a w) (admitted-IsHonest a w)))

  -- Over any profile that behaves as SQLite, the backup and upstream document: when the report of
  -- an operator's repair says that nothing was committed, whatever failed on the way, the file
  -- holds what it held before.
  pub durable-apply_profile_repairs :
      (deadline_seconds : Float) (batch_size max_items : ℤ) (a : Asked) (w : World)
      → get "committed"
          (apply_profile_repairs p equal show deadline_seconds batch_size max_items a w).0
        ≡ some (bool false)
      → durable (apply_profile_repairs p equal show deadline_seconds batch_size max_items a w).1
        ≡ durable w
  durable-apply_profile_repairs deadline_seconds batch_size max_items a w =
      (apply_profile_repairs-Reports deadline_seconds batch_size max_items a w).0

  -- However an operator's repair ends, errors of the commit and of leaving the admission
  -- included, the file holds what it held before, or a verified backup holds that.
  pub backed_up-apply_profile_repairs :
      (deadline_seconds : Float) (batch_size max_items : ℤ) (a : Asked) (w : World)
      → (durable (apply_profile_repairs p equal show deadline_seconds batch_size max_items a w).1
          ≡ durable w)
        ⊎ (backed_up
              (apply_profile_repairs p equal show deadline_seconds batch_size max_items a w).1
            ≡ some (durable w))
  backed_up-apply_profile_repairs deadline_seconds batch_size max_items a w =
      (apply_profile_repairs-Reports deadline_seconds batch_size max_items a w).1
