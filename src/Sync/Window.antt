-- ===== src/Sync/Window.antt =====
-- The queue is a window on the newest turns.
use hermes_cashew.Base.{
  ◌+◌, ◌-◌, ◌≤◌, ◌<◌, ◌≡◌, refl, sym, ap, ◌∙◌, Bool, true, false, List, [], ◌∷◌, ◌++◌, String,
  length, ltb, lt→ltb, not-ltb→le, ltb→lt, arith, if_cases, drop,
}
use hermes_cashew.Sync.Turns.{
  Turn, Item, turn, Provider, maxsize, put_nowait, evict, is_admitted, settle_second, count_evicted,
  drop_oldest, settle_first, new_turn, heard, sync_turn,
}

put_nowait-room :
    (i : Item) (p : Provider)
    → length p.items < maxsize
    → put_nowait i p ≡ (true, record p { items = p.items ++ i ∷ []; unfinished = p.unfinished + 1 })
unfolding put_nowait
put_nowait-room i p h = rw (lt→ltb (length p.items) maxsize h)

items-drop_oldest :
    (t : Turn) (p : Provider)
    → length p.items ≡ maxsize
    → (drop_oldest t false p).items ≡ drop 1 p.items ++ turn t ∷ []
unfolding drop_oldest evict
items-drop_oldest t p h = dropped_at p.items refl
  where
    dropped_at :
        (is : List Item)
        → p.items ≡ is
        → (settle_second (
            put_nowait (turn t) (
              count_evicted (elim is as (λ x. Bool × Provider) [
                | [] ↦ (false, p)
                | i ∷ rest ↦ (true, record p { items = rest; unfinished = p.unfinished - 1 })
              ])))).items
          ≡ drop 1 is ++ turn t ∷ []
    dropped_at [] e = absurd (omega (arith, h, ap length e))
    dropped_at (i ∷ rest) e =
        ap (λ (x : Bool × Provider). (settle_second x).items)
          (put_nowait-room (turn t) _ (omega (arith, h, ap length e)))

window_open :
    (p : Provider) → ltb (length p.items) maxsize ≡ true → length p.items + 1 - maxsize ≡ 0
window_open p h = omega (arith, ltb→lt (length p.items) maxsize h)

window_full :
    (p : Provider)
    → length p.items ≤ maxsize
    → ltb (length p.items) maxsize ≡ false
    → length p.items ≡ maxsize
window_full p b h = omega (arith, not-ltb→le (length p.items) maxsize h)

excess :
    (p : Provider)
    → length p.items ≤ maxsize
    → ltb (length p.items) maxsize ≡ false
    → length p.items + 1 - maxsize ≡ 1
excess p b h = omega (arith, window_full p b h)

-- An admitted turn, with no worker in between and at most 16 items queued, is put behind as many
-- of the newest items as leave room for it: a full queue loses its oldest one.
pub items-sync_turn :
    (user assistant session : String) (p : Provider)
    → is_admitted p.gate ≡ true
    → length p.items ≤ maxsize
    → (sync_turn user assistant session false false p).items
      ≡ drop (length p.items + 1 - maxsize) p.items ++ turn (new_turn user assistant session p) ∷ []
unfolding sync_turn put_nowait
items-sync_turn user assistant session p a b = rw a (
    if_cases
      (λ (x : Bool × Provider).
        (settle_first (new_turn user assistant session p) false false x).items
        ≡ drop (length p.items + 1 - maxsize) p.items
          ++ turn (new_turn user assistant session p) ∷ [])
      (ltb (length p.items) maxsize)
      (λ room. sym (
        ap (λ n. drop n p.items ++ turn (new_turn user assistant session p) ∷ [])
          (window_open p room)))
      (λ full.
        items-drop_oldest (new_turn user assistant session p) (heard assistant p)
          (window_full p b full)
        ∙ sym (
            ap (λ n. drop n p.items ++ turn (new_turn user assistant session p) ∷ [])
              (excess p b full))))
