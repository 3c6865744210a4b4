-- ===== src/Sync/Accounting.antt =====
-- The producer keeps the account, and so does any sequence of calls.
use hermes_cashew.Base.{
  ◌+◌, ◌-◌, ◌≡◌, refl, ap, ◌∙◌, Bool, true, false, ◌&&◌, ◌||◌, List, [], ◌∷◌, ◌++◌, String, length,
  length-append, ltb, ltb→lt, arith, if_elim, if_cases,
}
use hermes_cashew.Health.{admit, reject, work_snapshot}
use hermes_cashew.Sync.Turns.{
  Turn, Item, turn, shutdown, Gate, Provider, maxsize, put_nowait, evict, is_admitted, taken_from,
  get_items, is_idle, raced, settle_second, count_evicted, drop_oldest, settle_first, new_turn,
  heard, sync_turn,
}
use hermes_cashew.Sync.Worker.{Call, syncs, takes, begins, shuts_down, posts, ends, step, run}
use hermes_cashew.Sync.Calls.{
  IsSound, turns, turns-append, turns-le, Accounts, get_items-IsSound, begin_turn-IsSound,
  end_turn-IsSound, begin_shutdown-IsSound, post_sentinel-IsSound, admit-Accounts, reject-Accounts,
  drop_pending-Accounts,
}

put_turn-IsSound :
    (t : Turn) (p : Provider)
    → ltb (length p.items) maxsize ≡ true
    → IsSound p
    → IsSound (record p {
      items = p.items ++ turn t ∷ [];
      unfinished = p.unfinished + 1;
      outcomes = admit p.outcomes;
    })
unfolding Accounts
put_turn-IsSound t p room s =
    let (a, b, c) =
      admit-Accounts p.outcomes (turns p.items + turns p.hand) _
        (s.pending, s.in_flight, s.reconciled) in
    let more = length-append p.items (turn t ∷ []) in
    let turns_more = turns-append p.items (turn t ∷ []) in
    record {
      pending = omega (arith, a, turns_more);
      in_flight = b;
      reconciled = c;
      unfinished = omega (arith, s.unfinished, more);
      bounded = omega (arith, ltb→lt (length p.items) maxsize room, more);
      plain = λ d. omega (arith, s.plain d, more, turns_more);
      current = s.current;
    }

reject-IsSound : (p : Provider) → IsSound p → IsSound (record p { outcomes = reject p.outcomes })
unfolding Accounts
reject-IsSound p s =
    let (a, b, c) = reject-Accounts p.outcomes _ _ (s.pending, s.in_flight, s.reconciled) in
    record {
      pending = a;
      in_flight = b;
      reconciled = c;
      unfinished = s.unfinished;
      bounded = s.bounded;
      plain = s.plain;
      current = s.current;
    }

settle_second-IsSound :
    (t : Turn) (p : Provider) → IsSound p → IsSound (settle_second (put_nowait (turn t) p))
unfolding put_nowait
settle_second-IsSound t p s =
    if_cases (λ (x : Bool × Provider). IsSound (settle_second x)) (ltb (length p.items) maxsize)
      (λ room. put_turn-IsSound t p room s) (λ full. reject-IsSound p s)

-- Before a shutdown the oldest item is a turn.
count_evicted-IsSound :
    (p : Provider) → p.gate.shutdown_started ≡ false → IsSound p → IsSound (count_evicted (evict p))
unfolding evict Accounts
count_evicted-IsSound p up s = evicts_at p.items refl
  where
    evicts_at :
        (is : List Item)
        → p.items ≡ is
        → IsSound (
            count_evicted (elim is as (λ x. Bool × Provider) [
              | [] ↦ (false, p)
              | i ∷ rest ↦ (true, record p { items = rest; unfinished = p.unfinished - 1 })
            ]))
    evicts_at [] e = s
    evicts_at (shutdown ∷ rest) e =
        absurd (omega (arith, s.plain up, ap turns e, ap length e, turns-le rest))
    evicts_at (turn t ∷ rest) e =
        let (a, b, c) =
          drop_pending-Accounts p.outcomes (turns rest + turns p.hand) _
            (omega (arith, s.pending, ap turns e), s.in_flight, s.reconciled) in
        record {
          pending = a;
          in_flight = b;
          reconciled = c;
          unfinished = omega (arith, s.unfinished, ap length e);
          bounded = omega (arith, s.bounded, ap length e);
          plain = λ d. omega (arith, s.plain d, ap turns e, ap length e);
          current = s.current;
        }

raced-IsSound : (b : Bool) (p : Provider) → IsSound p → IsSound (raced b p)
raced-IsSound true p s = get_items-IsSound p s
raced-IsSound false p s = s

taken_from-gate : (is : List Item) (p : Provider) → (taken_from is p).gate ≡ p.gate
unfolding taken_from
taken_from-gate [] p = ground arith
taken_from-gate (shutdown ∷ is) p = refl
taken_from-gate (turn t ∷ is) p = ground arith

raced-gate : (b : Bool) (p : Provider) → (raced b p).gate ≡ p.gate
raced-gate true p =
    unfold get_items in
    if_elim (λ (q : Provider). q.gate ≡ p.gate) (is_idle p) (taken_from-gate p.items p) refl
raced-gate false p = refl

drop_oldest-IsSound :
    (t : Turn) (second : Bool) (p : Provider)
    → p.gate.shutdown_started ≡ false
    → IsSound p
    → IsSound (drop_oldest t second p)
unfolding drop_oldest
drop_oldest-IsSound t second p up s =
    settle_second-IsSound t _ (raced-IsSound second _ (count_evicted-IsSound p up s))

settle_first-IsSound :
    (t : Turn) (first second : Bool) (p : Provider)
    → p.gate.shutdown_started ≡ false
    → IsSound p
    → IsSound (settle_first t first second (put_nowait (turn t) p))
unfolding put_nowait
settle_first-IsSound t first second p up s =
    if_cases (λ (x : Bool × Provider). IsSound (settle_first t first second x))
      (ltb (length p.items) maxsize) (λ room. put_turn-IsSound t p room s)
      (λ full.
        drop_oldest-IsSound t second (raced first p)
          (ap (λ (g : Gate). g.shutdown_started) (raced-gate first p) ∙ up)
          (raced-IsSound first p s))

heard-IsSound : (a : String) (p : Provider) → IsSound p → IsSound (heard a p)
heard-IsSound a p s = record {
  pending = s.pending;
  in_flight = s.in_flight;
  reconciled = s.reconciled;
  unfinished = s.unfinished;
  bounded = s.bounded;
  plain = s.plain;
  current = s.current;
}

admitted_up : (g : Gate) → is_admitted g ≡ true → g.shutdown_started ≡ false
unfolding is_admitted
admitted_up g h = ground arith

sync_turn-IsSound :
    (user assistant session : String) (first second : Bool) (p : Provider)
    → IsSound p
    → IsSound (sync_turn user assistant session first second p)
unfolding sync_turn
sync_turn-IsSound user assistant session first second p s =
    if_cases IsSound (is_admitted p.gate)
      (λ a.
        settle_first-IsSound (new_turn user assistant session p) first second (heard assistant p)
          (admitted_up p.gate a) (heard-IsSound assistant p s))
      (λ r.
        if_elim IsSound (p.gate.has_queue && (p.gate.initializing || p.gate.shutdown_started))
          (reject-IsSound p s) s)

step-IsSound : (c : Call) (p : Provider) → IsSound p → IsSound (step c p)
unfolding step
step-IsSound (syncs user assistant session first second) p s =
    sync_turn-IsSound user assistant session first second p s
step-IsSound takes p s = get_items-IsSound p s
step-IsSound begins p s = begin_turn-IsSound p s
step-IsSound (ends e) p s = end_turn-IsSound e p s
step-IsSound shuts_down p s = begin_shutdown-IsSound p s
step-IsSound posts p s = post_sentinel-IsSound p s

-- From a sound provider, whatever the host and the worker do, in any order: the ledger's pending
-- work is the turns in the queue and in the worker's hand, its work in flight the turn that runs,
-- it is reconciled, each unfinished item of the queue is accounted for, and the queue holds at
-- most 16 items.
pub run-IsSound : (cs : List Call) (p : Provider) → IsSound p → IsSound (run cs p)
unfolding run
run-IsSound [] p s = s
run-IsSound (c ∷ cs) p s = run-IsSound cs (step c p) (step-IsSound c p s)

-- After any such calls from a sound provider the snapshot of the ledger says that it is
-- reconciled.
pub run-reconciled :
    (cs : List Call) (p : Provider)
    → IsSound p
    → (work_snapshot (run cs p).outcomes).reconciled ≡ true
run-reconciled cs p s = let after = run-IsSound cs p s in unfold work_snapshot in ground arith
