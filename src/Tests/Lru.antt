-- ===== src/Tests/Lru.antt =====
-- The LRU on three adapters, and its theorems at concrete states.
use loraplex.Go.Dict
use loraplex.Cache.Lru.{
  Element, Lru, new_lru, element, unlink, split_back, touch, evict, remove, contains, ids,
}
use loraplex.Cache.Lru.Elements.{id_of, total}
use loraplex.Cache.Lru.Eviction.{evict-suffix}
use loraplex.Cache.Lru.Invariant.{IsValid}
use loraplex.Cache.Lru.Plain.{use_id, drop_id, has_id}
use loraplex.Cache.Lru.Refinement.{view, view-touch, view-remove}
use loraplex.Cache.Lru.Runs.{Call, touches, evicts, removes, step, run, run-new_lru-IsValid}
use loraplex.Go.Int64.{add64, sub64, lt64}
use loraplex.Prelude.{
  ◌+◌, str_eq, ◌++◌, refl, ◌⊎◌, map, List, ◌∷◌, ◌≤◌, codes, [], reverse, arith, ◌≡◌, ◌^◌, ◌<◌,
}

program : Unit {0}
unfolding step run new_lru element unlink split_back touch evict remove contains ids total add64
    sub64 lt64 str_eq Dict.lookup Dict.insert Dict.delete
program = tt

abbrev calls : List Call
calls =
    touches (codes "x") 40 1
    ∷ touches (codes "y") 30 2
    ∷ touches (codes "z") 20 3
    ∷ touches (codes "x") 99 4
    ∷ []

abbrev three : Lru
three = run calls (new_lru 100)

three-ids : ids three ≡ codes "x" ∷ codes "z" ∷ codes "y" ∷ []
unfolding program
three-ids = refl

-- 90 bytes are in use: room for 35 more costs the least recently used adapter.
three-evict : (evict 35 three).1 ≡ codes "y" ∷ []
unfolding program
three-evict = refl

-- A file larger than the limit costs all of them.
three-evict_all : (evict 1000 three).1 ≡ codes "y" ∷ codes "z" ∷ codes "x" ∷ []
unfolding program
three-evict_all = refl

three-size : three.cur_size ≡ 90
unfolding program
three-size = refl

three-IsValid : IsValid three
three-IsValid = run-new_lru-IsValid 100 calls

run-new_lru-IsValid_example :
    IsValid (run (touches (codes "x") 40 1 ∷ removes (codes "x") ∷ evicts 7 ∷ []) (new_lru 10))
run-new_lru-IsValid_example =
    run-new_lru-IsValid 10 (touches (codes "x") 40 1 ∷ removes (codes "x") ∷ evicts 7 ∷ [])

three_small : total three.order + 35 < 2 ^ 63
unfolding program
three_small = omega arith

three_small_max : three.max_size < 2 ^ 63
unfolding program
three_small_max = omega arith

evict-suffix_example :
    let (kept, evicted) = evict 35 three in
    (gone : List Element) × (three.order ≡ kept.order ++ gone)
    × (evicted ≡ reverse (map id_of gone))
    × (kept.max_size ≡ three.max_size)
    × ((kept.order ≡ []) ⊎ (total kept.order + 35 ≤ three.max_size))
    × ((g : Element) (gs : List Element)
        → gone ≡ g ∷ gs
        → three.max_size < total kept.order + g.value.size + 35)
evict-suffix_example = evict-suffix 35 three three-IsValid three_small three_small_max

view-touch_example : view (touch (codes "y") 5 9 three) ≡ use_id (codes "y") 5 (view three)
view-touch_example = view-touch three three-IsValid (codes "y") 5 9

view-remove_example :
    (view (remove (codes "z") three).0 ≡ drop_id (codes "z") (view three))
    × ((remove (codes "z") three).1 ≡ has_id (codes "z") (view three))
    × (contains (codes "z") three ≡ has_id (codes "z") (view three))
view-remove_example = view-remove three three-IsValid (codes "z")
