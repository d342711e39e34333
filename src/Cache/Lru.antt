-- ===== src/Cache/Lru.antt =====
-- internal/cache/lru.go. The map holds pointers to the elements of a `container/list`: an element has
-- a handle here, which stands for its address, and the map holds handles. A call of a method is one
-- step, since it holds the mutex throughout.
pub mod Elements
pub mod Identifiers
pub mod Invariant
pub mod Listed
pub mod Runs
pub mod Plain
pub mod Refinement
pub mod Eviction
use loraplex.Go.Dict
use loraplex.Go.Dict.{Dict}
use loraplex.Go.Int64.{add64, sub64, gt64}
use loraplex.Prelude.{
  Bool, ◌+◌, [], some, true, zero, ◌++◌, none, Text, ◌∷◌, length, ◌==◌, false, map, if◌then◌else◌,
  Option, suc, List, ℕ,
}

pub record LruEntry : Type 0 where
  pub adapter_id : Text
  pub size : ℕ
  pub accessed_at : ℕ

pub record Element : Type 0 where
  pub handle : ℕ
  pub value : LruEntry

pub record Lru : Type 0 where
  pub items : Dict ℕ
  pub order : List Element
  pub cur_size : ℕ
  pub max_size : ℕ
  pub next_handle : ℕ

unfoldable pub new_lru : ℕ → Lru
new_lru max_size = record {
  items = [];
  order = [];
  cur_size = 0;
  max_size = max_size;
  next_handle = 0;
}

-- The element at an address, and the list without it.
unfoldable pub element : ℕ → List Element → Option Element
element h [] = none
element h (e ∷ es) = if e.handle == h then some e else element h es

unfoldable pub unlink : ℕ → List Element → List Element
unlink h [] = []
unlink h (e ∷ es) = if e.handle == h then unlink h es else e ∷ unlink h es

-- `order.Back()` with what stands before it
unfoldable pub split_back : List Element → Option (List Element × Element)
split_back [] = none
split_back (e ∷ es) = elim (split_back es) [
  | none ↦ some ([], e)
  | some (front, last) ↦ some (e ∷ front, last)
]

unfoldable pub push_front : Text → ℕ → ℕ → Lru → Lru
push_front adapter_id size now l =
    let entry : LruEntry = record { adapter_id = adapter_id; size = size; accessed_at = now } in
    record l {
      order = record { handle = l.next_handle; value = entry } ∷ l.order;
      items = Dict.insert adapter_id l.next_handle l.items;
      cur_size = add64 l.cur_size size;
      next_handle = l.next_handle + 1;
    }

-- A hit stamps the element and moves it to the front. The size that was first recorded stays.
unfoldable pub stamp_and_move : ℕ → ℕ → Lru → Lru
stamp_and_move h now l = elim (element h l.order) [
  | none ↦ l
  | some e ↦
      let entry : LruEntry = record (e.value) { accessed_at = now } in
      record l { order = record { handle = h; value = entry } ∷ unlink h l.order }
]

unfoldable pub touch : Text → ℕ → ℕ → Lru → Lru
unfolding push_front stamp_and_move
touch adapter_id size now l = elim (Dict.lookup adapter_id l.items) [
  | none ↦ push_front adapter_id size now l
  | some h ↦ stamp_and_move h now l
]

-- One round of `Evict`: the element at the back leaves.
unfoldable pub drop_back : Lru → List Element → Element → Lru
drop_back l front e = record l {
  order = front;
  items = Dict.delete e.value.adapter_id l.items;
  cur_size = sub64 l.cur_size e.value.size;
}

-- Each round shortens the list, so its length bounds the rounds.
unfoldable pub evict_loop : ℕ → ℕ → Lru → List Text → Lru × List Text
unfolding drop_back
evict_loop zero required l evicted = (l, evicted)
evict_loop (suc k) required l evicted = elim (split_back l.order) [
  | none ↦ (l, evicted)
  | some (front, e) ↦
      let rest = evict_loop k required (drop_back l front e) (evicted ++ e.value.adapter_id ∷ []) in
      if gt64 (add64 l.cur_size required) l.max_size then rest else (l, evicted)
]

unfoldable pub evict : ℕ → Lru → Lru × List Text
unfolding evict_loop
evict required l = evict_loop (length l.order) required l []

unfoldable pub remove : Text → Lru → Lru × Bool
remove adapter_id l = elim (Dict.lookup adapter_id l.items) [
  | none ↦ (l, false)
  | some h ↦ elim (element h l.order) [
    | none ↦ (l, false)
    | some e ↦ (
      record l {
        order = unlink h l.order;
        items = Dict.delete adapter_id l.items;
        cur_size = sub64 l.cur_size e.value.size;
      },
      true,
    )
  ]
]

unfoldable pub contains : Text → Lru → Bool
contains adapter_id l = elim (Dict.lookup adapter_id l.items) [ none ↦ false | some h ↦ true ]

unfoldable pub len : Lru → ℕ
len l = length l.order

-- `Items`: the identifiers, most recently used first
unfoldable pub ids : Lru → List Text
ids l = map (λ e. e.value.adapter_id) l.order
