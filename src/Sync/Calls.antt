-- ===== src/Sync/Calls.antt =====
-- What holds of the queue, the worker's hand and the ledger together, whatever the order of calls.
use hermes_cashew.Base.{
  ℕ, zero, suc, ◌+◌, ◌-◌, ◌≤◌, ◌≡◌, refl, ap, subst, ◌∙◌, Bool, true, false, List, [], ◌∷◌, ◌++◌,
  Option, none, some, length, length-append, ltb, ltb→lt, if◌then◌else◌, arith, if_elim, if_cases,
  ◌==◌,
}
use hermes_cashew.Health.{
  OutcomeLedger, admit, reject, drop_pending, start, complete, fail, drop_in_flight,
  reject_in_flight, accounted,
}
use hermes_cashew.Sync.Turns.{
  Turn, Item, turn, shutdown, Provider, maxsize, put_nowait, batch_rest, batches, taken_from,
  get_items, is_idle,
}
use hermes_cashew.Sync.Worker.{
  Ending, completes, gives_up, refused, fails, begin_from, begin_turn, settle_turn, end_turn,
  begin_shutdown, post_sentinel,
}

-- the turns of a list of items
abbrev pub turns : List Item → ℕ
turns [] = 0
turns (turn t ∷ is) = turns is + 1
turns (shutdown ∷ is) = turns is

pub turns-append : (is js : List Item) → turns (is ++ js) ≡ turns is + turns js
turns-append [] js = omega arith
turns-append (turn t ∷ is) js = omega (arith, turns-append is js)
turns-append (shutdown ∷ is) js = turns-append is js

abbrev pub busy : Option (Turn × ℕ) → ℕ
busy none = 0
busy (some r) = 1

abbrev pub Current : ℕ → Option (Turn × ℕ) → Type 0
Current g none = Unit
Current g (some r) = (r.1 == g) ≡ true

-- The turns that wait are those of the queue and of the hand, the one in flight is the one that
-- runs, the ledger is reconciled, each item that was put and not done is somewhere, the queue keeps
-- its bound, and no sentinel is in it before a shutdown.
pub record IsSound (p : Provider) : Type 0 where
  pub pending : p.outcomes.pending ≡ turns p.items + turns p.hand
  pub in_flight : p.outcomes.in_flight ≡ busy p.running
  pub reconciled : p.outcomes.accepted ≡ accounted p.outcomes
  pub unfinished : p.unfinished ≡ length p.items + length p.hand + busy p.running
  pub bounded : length p.items ≤ maxsize
  pub plain : p.gate.shutdown_started ≡ false → turns p.items ≡ length p.items
  pub current : Current p.generation p.running

pub turns-le : (is : List Item) → turns is ≤ length is
turns-le [] = omega arith
turns-le (turn t ∷ is) = omega (arith, turns-le is)
turns-le (shutdown ∷ is) = omega (arith, turns-le is)

pub batch_rest-turns :
    (k : ℕ) (is : List Item)
    → (turns (batch_rest k is).0 + turns (batch_rest k is).1 ≡ turns is)
      × (length (batch_rest k is).0 + length (batch_rest k is).1 ≡ length is)
      × (turns is ≡ length is → turns (batch_rest k is).1 ≡ length (batch_rest k is).1)
unfolding batch_rest
batch_rest-turns zero is = (omega arith, omega arith, λ h. h)
batch_rest-turns (suc k) [] = (refl, refl, λ h. refl)
batch_rest-turns (suc k) (shutdown ∷ is) =
    (omega arith, omega arith, λ h. omega (arith, turns-le is))
batch_rest-turns (suc k) (turn t ∷ is) =
    let (a, b, c) = batch_rest-turns k is in
    (omega (arith, a), omega (arith, b), λ h. c (omega arith))

-- The exit of the worker, and what the hosts read, play no part.
IsSound-exited : (b : Bool) (p : Provider) → IsSound p → IsSound (record p { exited = b })
IsSound-exited b p s = record {
  pending = s.pending;
  in_flight = s.in_flight;
  reconciled = s.reconciled;
  unfinished = s.unfinished;
  bounded = s.bounded;
  plain = s.plain;
  current = s.current;
}

-- An idle worker has nothing in its hand.
idle : (p : Provider) → is_idle p ≡ true → (p.hand ≡ []) × (p.running ≡ none)
idle p h = ground arith

taken_from-IsSound :
    (is : List Item) (p : Provider)
    → p.items ≡ is
    → p.hand ≡ []
    → p.running ≡ none
    → IsSound p
    → IsSound (taken_from is p)
unfolding taken_from
taken_from-IsSound [] p e h r s =
    if_elim IsSound p.gate.shutdown_started (IsSound-exited true p s) s
taken_from-IsSound (shutdown ∷ is) p e h r s = record {
  pending = s.pending ∙ ap (λ x. turns x + turns p.hand) e;
  in_flight = s.in_flight;
  reconciled = s.reconciled;
  unfinished = omega (arith, s.unfinished, ap length e);
  bounded = omega (arith, s.bounded, ap length e);
  plain = λ d. omega (arith, s.plain d, ap length e, ap turns e, turns-le is);
  current = s.current;
}
taken_from-IsSound (turn t ∷ is) p e h r s =
    let (a, b, c) = batch_rest-turns 7 is in
    if_elim IsSound (batches p.gate.config)
      (record {
        pending = omega (arith, s.pending, ap turns e, ap turns h, a);
        in_flight = s.in_flight;
        reconciled = s.reconciled;
        unfinished = omega (arith, s.unfinished, ap length e, ap length h, b);
        bounded = omega (arith, s.bounded, ap length e, b);
        plain = λ d. c (omega (arith, s.plain d, ap turns e, ap length e));
        current = s.current;
      })
      (record {
        pending = omega (arith, s.pending, ap turns e, ap turns h);
        in_flight = s.in_flight;
        reconciled = s.reconciled;
        unfinished = omega (arith, s.unfinished, ap length e, ap length h);
        bounded = omega (arith, s.bounded, ap length e);
        plain = λ d. omega (arith, s.plain d, ap turns e, ap length e);
        current = s.current;
      })

pub get_items-IsSound : (p : Provider) → IsSound p → IsSound (get_items p)
unfolding get_items
get_items-IsSound p s =
    if_cases IsSound (is_idle p)
      (λ i. let (h, r) = idle p i in taken_from-IsSound p.items p refl h r s) (λ i. s)

unfoldable pub Accounts : OutcomeLedger → ℕ → ℕ → Type 0
Accounts l waiting flying =
    (l.pending ≡ waiting) × (l.in_flight ≡ flying) × (l.accepted ≡ accounted l)

start-Accounts : (l : OutcomeLedger) (n m : ℕ) → Accounts l (n + 1) m → Accounts (start l) n (m + 1)
unfolding start Accounts
start-Accounts l n m (p, f, r) = ground arith

begin_from-IsSound :
    (is : List Item) (p : Provider)
    → p.hand ≡ is
    → p.running ≡ none
    → IsSound p
    → IsSound (begin_from is p)
unfolding begin_from Accounts
begin_from-IsSound [] p e r s = s
begin_from-IsSound (shutdown ∷ is) p e r s = record {
  pending = s.pending ∙ ap (λ x. turns p.items + turns x) e;
  in_flight = s.in_flight;
  reconciled = s.reconciled;
  unfinished = omega (arith, s.unfinished, ap length e);
  bounded = s.bounded;
  plain = s.plain;
  current = s.current;
}
begin_from-IsSound (turn t ∷ is) p e r s =
    let (a, b, c) =
      start-Accounts p.outcomes (turns p.items + turns is) 0
        (omega (arith, s.pending, ap turns e), s.in_flight ∙ ap busy r, s.reconciled) in
    record {
      pending = a;
      in_flight = omega (arith, b);
      reconciled = c;
      unfinished = omega (arith, s.unfinished, ap length e, ap busy r);
      bounded = s.bounded;
      plain = s.plain;
      current = ground arith;
    }

pub begin_turn-IsSound : (p : Provider) → IsSound p → IsSound (begin_turn p)
unfolding begin_turn
begin_turn-IsSound p s = begins_at p.running refl
  where
    begins_at :
        (o : Option (Turn × ℕ))
        → p.running ≡ o
        → IsSound (elim o as (λ x. Provider) [
          | none ↦ if p.exited then p else begin_from p.hand p
          | some r ↦ p
        ])
    begins_at none e = if_elim IsSound p.exited s (begin_from-IsSound p.hand p refl e s)
    begins_at (some r) e = s

-- The ledger hears of the end of a turn in flight.
settle_turn-Accounts :
    (e : Ending) (l : OutcomeLedger) (n : ℕ) → Accounts l n 1 → Accounts (settle_turn e l) n 0
unfolding settle_turn complete drop_in_flight reject_in_flight fail Accounts
settle_turn-Accounts completes l n (p, f, r) = ground arith
settle_turn-Accounts gives_up l n (p, f, r) = ground arith
settle_turn-Accounts refused l n (p, f, r) = ground arith
settle_turn-Accounts (fails x y) l n (p, f, r) = ground arith

pub end_turn-IsSound : (e : Ending) (p : Provider) → IsSound p → IsSound (end_turn e p)
unfolding end_turn Accounts
end_turn-IsSound e p s = ends_at p.running refl
  where
    ends_at :
        (o : Option (Turn × ℕ))
        → p.running ≡ o
        → IsSound (elim o as (λ x. Provider) [
          | none ↦ p
          | some r ↦ record p {
            outcomes = if r.1 == p.generation then settle_turn e p.outcomes else p.outcomes;
            running = none;
            unfinished = p.unfinished - 1;
          }
        ])
    ends_at none q = s
    ends_at (some r) q =
        let same = subst (Current p.generation) q s.current in
        let (a, b, c) =
          settle_turn-Accounts e p.outcomes (turns p.items + turns p.hand)
            (s.pending, s.in_flight ∙ ap busy q, s.reconciled) in
        record {
          pending = rw same a;
          in_flight = rw same b;
          reconciled = rw same c;
          unfinished = omega (arith, s.unfinished, ap busy q);
          bounded = s.bounded;
          plain = s.plain;
          current = tt;
        }

pub begin_shutdown-IsSound : (p : Provider) → IsSound p → IsSound (begin_shutdown p)
unfolding begin_shutdown
begin_shutdown-IsSound p s =
    if_elim IsSound p.gate.has_queue
      (record {
        pending = s.pending;
        in_flight = s.in_flight;
        reconciled = s.reconciled;
        unfinished = s.unfinished;
        bounded = s.bounded;
        plain = λ d. cc;
        current = s.current;
      })
      s

pub post_sentinel-IsSound : (p : Provider) → IsSound p → IsSound (post_sentinel p)
unfolding post_sentinel put_nowait
post_sentinel-IsSound p s =
    if_cases IsSound p.gate.shutdown_started
      (λ down.
        if_cases (λ (x : Bool × Provider). IsSound x.1) (ltb (length p.items) maxsize)
          (λ room. record {
            pending = omega (arith, s.pending, turns-append p.items (shutdown ∷ []));
            in_flight = s.in_flight;
            reconciled = s.reconciled;
            unfinished = omega (arith, s.unfinished, length-append p.items (shutdown ∷ []));
            bounded = omega (
              arith,
              ltb→lt (length p.items) maxsize room,
              length-append p.items (shutdown ∷ []),
            );
            plain = λ d. cc;
            current = s.current;
          })
          (λ full. s))
      (λ up. s)

pub admit-Accounts : (l : OutcomeLedger) (n m : ℕ) → Accounts l n m → Accounts (admit l) (n + 1) m
unfolding admit Accounts
admit-Accounts l n m (p, f, r) = (omega arith, f, omega arith)

pub reject-Accounts : (l : OutcomeLedger) (n m : ℕ) → Accounts l n m → Accounts (reject l) n m
unfolding reject Accounts
reject-Accounts l n m a = a

pub drop_pending-Accounts :
    (l : OutcomeLedger) (n m : ℕ) → Accounts l (n + 1) m → Accounts (drop_pending l) n m
unfolding drop_pending Accounts
drop_pending-Accounts l n m (p, f, r) = ground arith
