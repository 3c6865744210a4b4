-- ===== src/Sync/Drain.antt =====
-- The worker drains the queue: each round of its loop brings the unfinished items down by one.
use hermes_cashew.Base.{
  ℕ, zero, suc, ◌+◌, ◌-◌, ◌≤◌, ◌<◌, ◌≡◌, refl, sym, ap, subst, ◌∙◌, false, List, [], ◌∷◌, none,
  length, arith, if_cases,
}
use hermes_cashew.Sync.Turns.{Item, turn, shutdown, Provider, get_items, taken_from, batches}
use hermes_cashew.Sync.Worker.{
  Ending, begin_from, begin_turn, end_turn, Call, takes, begins, ends, step, run,
}
use hermes_cashew.Sync.Calls.{
  IsSound, turns, busy, batch_rest-turns, turns-le, get_items-IsSound, begin_turn-IsSound,
  end_turn-IsSound,
}

-- A worker between two turns, before a shutdown, with turns in its hand only.
pub record IsReady (p : Provider) : Type 0 where
  pub sound : IsSound p
  pub between : p.running ≡ none
  pub working : p.exited ≡ false
  pub up : p.gate.shutdown_started ≡ false
  pub plain_hand : turns p.hand ≡ length p.hand

begin_turn-between :
    (p : Provider) → p.running ≡ none → p.exited ≡ false → begin_turn p ≡ begin_from p.hand p
unfolding begin_turn
begin_turn-between p r x = rw (r, x)

end_turn-between : (e : Ending) (p : Provider) → p.running ≡ none → end_turn e p ≡ p
unfolding end_turn
end_turn-between e p r = rw r

-- how many turns a worker with this hand ends in a round
abbrev one_of : List Item → ℕ
one_of [] = 0
one_of (i ∷ is) = 1

-- A round with `n` items less to do.
record Ends (p q : Provider) (n : ℕ) : Type 0 where
  ready : IsReady q
  gate : q.gate ≡ p.gate
  unfinished : q.unfinished ≡ p.unfinished - n

end_from-Ends :
    (e : Ending) (is : List Item) (p : Provider)
    → p.hand ≡ is
    → IsReady p
    → IsSound (end_turn e (begin_from is p))
    → Ends p (end_turn e (begin_from is p)) (one_of is)
unfolding begin_from
end_from-Ends e [] p q r s =
    rw (end_turn-between e p r.between)
      (record { ready = r; gate = refl; unfinished = omega arith })
end_from-Ends e (shutdown ∷ is) p q r s =
    absurd (omega (arith, r.plain_hand, ap turns q, ap length q, turns-le is))
end_from-Ends e (turn t ∷ is) p q r s =
    unfold end_turn in
    record {
      ready = record {
        sound = s;
        between = refl;
        working = r.working;
        up = r.up;
        plain_hand = omega (arith, r.plain_hand, ap turns q, ap length q);
      };
      gate = refl;
      unfinished = refl;
    }

round_end-Ends :
    (e : Ending) (p : Provider) → IsReady p → Ends p (end_turn e (begin_turn p)) (one_of p.hand)
round_end-Ends e p r =
    let same = begin_turn-between p r.between r.working in
    let s = end_turn-IsSound e (begin_turn p) (begin_turn-IsSound p r.sound) in
    subst (λ q. Ends p (end_turn e q) (one_of p.hand)) (sym same)
      (end_from-Ends e p.hand p refl r (subst (λ q. IsSound (end_turn e q)) same s))

plain_rest :
    {n m : ℕ} (is : List Item)
    → n ≡ m
    → n ≡ turns is + 1
    → m ≡ suc (length is)
    → turns is ≡ length is
plain_rest is h a b = omega arith

-- What a read of the queue leaves: the same count, and an item in the hand if there is one at all.
record Takes (p q : Provider) : Type 0 where
  ready : IsReady q
  gate : q.gate ≡ p.gate
  unfinished : q.unfinished ≡ p.unfinished
  taken : 0 < p.unfinished → one_of q.hand ≡ 1

get_items-hand : (p : Provider) (i : Item) (is : List Item) → p.hand ≡ i ∷ is → get_items p ≡ p
unfolding get_items
get_items-hand p i is h = ground arith

get_items-between : (p : Provider) → p.hand ≡ [] → IsReady p → get_items p ≡ taken_from p.items p
unfolding get_items
get_items-between p h r = rw (r.working, r.between, h)

taken_from-Takes :
    (is : List Item) (p : Provider)
    → p.items ≡ is
    → p.hand ≡ []
    → IsReady p
    → IsSound (taken_from is p)
    → Takes p (taken_from is p)
unfolding taken_from
taken_from-Takes [] p e h r s =
    if_cases (Takes p) p.gate.shutdown_started (λ down. absurd (cc (down, r.up)))
      (λ up. record {
        ready = r;
        gate = refl;
        unfinished = refl;
        taken = λ u.
            absurd (omega (arith, r.sound.unfinished, ap length e, ap length h, ap busy r.between));
      })
taken_from-Takes (shutdown ∷ is) p e h r s =
    absurd (omega (arith, r.sound.plain r.up, ap turns e, ap length e, turns-le is))
taken_from-Takes (turn t ∷ is) p e h r s =
    let (a, b, c) = batch_rest-turns 7 is in
    let plain = plain_rest is (r.sound.plain r.up) (ap turns e) (ap length e) in
    if_cases (λ (q : Provider). IsSound q → Takes p q) (batches p.gate.config)
      (λ many sound. record {
        ready = record {
          sound = sound;
          between = r.between;
          working = r.working;
          up = r.up;
          plain_hand = omega (arith, a, b, c plain);
        };
        gate = refl;
        unfinished = refl;
        taken = λ u. refl;
      })
      (λ one sound. record {
        ready = record {
          sound = sound;
          between = r.between;
          working = r.working;
          up = r.up;
          plain_hand = refl;
        };
        gate = refl;
        unfinished = refl;
        taken = λ u. refl;
      })
      s

get_items-Takes : (p : Provider) → IsReady p → Takes p (get_items p)
get_items-Takes p r = takes_at p.hand refl
  where
    takes_at : (is : List Item) → p.hand ≡ is → Takes p (get_items p)
    takes_at [] h =
        let same = get_items-between p h r in
        subst (Takes p) (sym same)
          (taken_from-Takes p.items p refl h r (subst IsSound same (get_items-IsSound p r.sound)))
    takes_at (i ∷ is) h =
        subst (Takes p) (sym (get_items-hand p i is h))
          (record { ready = r; gate = refl; unfinished = refl; taken = λ u. ap one_of h })

-- the worker's rounds: it takes what it can, starts a turn and ends it
abbrev pub rounds : List Ending → List Call
rounds [] = []
rounds (e ∷ es) = takes ∷ begins ∷ ends e ∷ rounds es

one_less : (u n l x y : ℕ) → x ≡ u - n → (0 < u → n ≡ 1) → y ≡ x - l → y ≡ u - suc l
one_less zero n l x y a b c = omega (arith, a, c)
one_less (suc u) n l x y a b c = omega (arith, a, b (omega arith), c)

run-IsReady :
    (es : List Ending) (p : Provider)
    → IsReady p
    → IsReady (run (rounds es) p) × ((run (rounds es) p).unfinished ≡ p.unfinished - length es)
unfolding run step
run-IsReady [] p r = (r, omega arith)
run-IsReady (e ∷ es) p r =
    let t = get_items-Takes p r in
    let d = round_end-Ends e (get_items p) t.ready in
    let (ready, rest) = run-IsReady es (end_turn e (begin_turn (get_items p))) d.ready in
    (
      ready,
      one_less p.unfinished _ (length es) _ _
          (d.unfinished ∙ ap (λ u. u - one_of (get_items p).hand) t.unfinished) t.taken rest,
    )

drained_by :
    (q : Provider) → IsSound q → q.unfinished ≡ 0 → (length q.items ≡ 0) × (length q.hand ≡ 0)
drained_by q s u = (omega (arith, s.unfinished), omega (arith, s.unfinished))

-- Before a shutdown, a worker between two turns that runs as many rounds as there are unfinished
-- items, each ending its turn in any way, leaves nothing in the queue or in its hand, and no
-- pending work and none in flight in the ledger. In a round it takes what it can, starts a turn
-- and ends it.
pub run-drained :
    (es : List Ending) (p : Provider)
    → IsReady p
    → p.unfinished ≤ length es
    → let q = run (rounds es) p in
      (length q.items ≡ 0)
      × (length q.hand ≡ 0)
      × (q.outcomes.pending ≡ 0)
      × (q.outcomes.in_flight ≡ 0)
run-drained es p r h =
    let (ready, rest) = run-IsReady es p r in
    let q = run (rounds es) p in
    let s = ready.sound in
    let items_empty = drained_by q s (omega (arith, rest)) in
    (
      items_empty.0,
      items_empty.1,
      omega (arith, s.pending, turns-le q.items, turns-le q.hand, items_empty.0, items_empty.1),
      s.in_flight ∙ ap busy ready.between,
    )
