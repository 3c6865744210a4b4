-- ===== src/Embedding/Ownership.antt =====
-- The steps of `close`, of the owner and of other supervisors.
use hermes_cashew.Base.{ℕ, ◌-◌, ◌≡◌, refl, ap, true, List, leb, if_cases, inl}
use hermes_cashew.Embedding.Supervisor.{
  Owner, Phase, unlocked, Ending, claim_owner, give_up, release_owner, unmark,
}
use hermes_cashew.Embedding.Steps.{close_busy_in, claimed_in, other_released_in, begin_closing}
use hermes_cashew.Embedding.Sound.{
  is_itself, IsAccounted, Stays, Goes, Goes-refl, Goes-Alike, underway-closed, Goes-claim_owner,
  Goes-threads,
}

pub Goes-begin_closing : (rs : List ℕ) (e : Ending) → Goes rs rs e (begin_closing e)
Goes-begin_closing rs e =
    Goes-Alike rs e _ (refl, refl, refl, refl, refl, refl, refl) (λ _. refl) (λ _. refl)

pub Goes-unmark : (rs : List ℕ) (e : Ending) → Goes rs rs e (unmark e)
unfolding unmark
Goes-unmark rs e =
    if_cases (Goes rs rs e) (leb 1 e.unmarking)
      (λ h.
        Goes-threads rs (λ x. x.unmarking) e _ (λ cs. refl) h
          (refl, refl, refl, refl, refl, refl, refl) refl)
      (λ _. Goes-refl rs e)

pub Goes-close_busy_in : (rs : List ℕ) (p : Phase) (e : Ending) → Goes rs rs e (close_busy_in p e)
unfolding close_busy_in
Goes-close_busy_in rs unlocked e = Goes-refl rs e
Goes-close_busy_in rs p e =
    if_cases (Goes rs rs e) (leb 1 e.closing)
      (λ h.
        Goes-threads rs (λ x. x.closing) e _ (λ cs. refl) h
          (refl, refl, refl, refl, refl, refl, refl) refl)
      (λ _. Goes-refl rs e)

pub Stays-give_up : (o : Owner) (e : Ending) → e.owner ≡ o → Stays e (give_up o e)
unfolding give_up
Stays-give_up Owner.itself e h = record {
  closed_stays = λ c. c;
  lost_stays = λ _. refl;
  told_stays = λ t. t;
}
Stays-give_up Owner.nobody e h = record {
  closed_stays = λ c. c;
  lost_stays = λ l. l;
  told_stays = λ t. t;
}
Stays-give_up Owner.another e h = record {
  closed_stays = λ c. c;
  lost_stays = λ l. l;
  told_stays = λ t. t;
}

pub Goes-give_up :
    (rs : List ℕ) (o : Owner) (e : Ending)
    → e.owner ≡ o
    → (IsAccounted rs e → e.closed ≡ true)
    → Goes rs rs e (give_up o e)
unfolding give_up
Goes-give_up rs Owner.itself e h closed = record {
  stays = unfold give_up in Stays-give_up Owner.itself e h;
  sound = λ v. record {
    safe = inl (closed v);
    told = λ l. absurd (cc l);
    counted = v.counted;
    silent = v.silent;
    none_waits = v.none_waits;
  };
}
Goes-give_up rs Owner.nobody e h closed = Goes-refl rs e
Goes-give_up rs Owner.another e h closed = Goes-refl rs e

pub Goes-release_owner : (rs : List ℕ) (e : Ending) → Goes rs rs e (release_owner e)
unfolding release_owner
Goes-release_owner rs e =
    if_cases (Goes rs rs e) (leb 1 e.releasing)
      (λ h.
        let less : Ending = record e { releasing = e.releasing - 1 } in
        record {
          stays =
              let st : Stays less (give_up e.owner less) = Stays-give_up e.owner less refl in
              record {
                closed_stays = st.closed_stays;
                lost_stays = st.lost_stays;
                told_stays = st.told_stays;
              };
          sound = λ v.
              let closed = underway-closed rs (λ x. x.releasing) e (λ cs. refl) h v in
              (Goes-give_up rs e.owner less refl (λ _. closed)).sound (
                (Goes-Alike rs e less (refl, refl, refl, refl, refl, refl, refl) (λ c. c)
                    (λ _. closed)).sound
                  v);
        })
      (λ _. Goes-refl rs e)

pub Goes-claimed_in :
    (rs : List ℕ) (o : Owner) (e : Ending)
    → e.owner ≡ o
    → Goes rs rs e (claimed_in (claim_owner o) e)
unfolding claimed_in claim_owner
Goes-claimed_in rs Owner.nobody e h = Goes-claim_owner rs e Owner.another (ap is_itself h) refl
Goes-claimed_in rs Owner.itself e h = Goes-refl rs e
Goes-claimed_in rs Owner.another e h = Goes-refl rs e

pub Goes-other_released_in :
    (rs : List ℕ) (o : Owner) (e : Ending) → e.owner ≡ o → Goes rs rs e (other_released_in o e)
unfolding other_released_in
Goes-other_released_in rs Owner.another e h =
    Goes-claim_owner rs e Owner.nobody (ap is_itself h) refl
Goes-other_released_in rs Owner.nobody e h = Goes-refl rs e
Goes-other_released_in rs Owner.itself e h = Goes-refl rs e
