-- ===== src/Cache/Lru/Listed.antt =====
-- `Touch` of internal/cache/lru.go: which identifiers the map has.
use loraplex.Cache.Lru
use loraplex.Cache.Lru.{Lru, contains, push_front, stamp_and_move, element}
use loraplex.Go.Dict
use loraplex.Prelude.{
  inr, str_eq, ℕ, ◌≡◌, refl, true, inl, Text, Bool-cases, Option-cases, ◌⊎◌, str_eq_iff,
}

pub contains-touch :
    (id : Text) (size now : ℕ) (l : Lru) → contains id (Lru.touch id size now l) ≡ true
unfolding contains Lru.touch push_front stamp_and_move
contains-touch id size now l = elim (Option-cases (Dict.lookup id l.items)) [
  | inl e ↦ rw (e, Lru.touch) (rw (Dict.lookup-insert_self id l.next_handle l.items, contains) refl)
  | inr (a, e) ↦ elim (Option-cases (element a l.order)) [
    | inl gone ↦ rw (e, Lru.touch) (rw (gone, stamp_and_move) (rw (e, contains) refl))
    | inr (x, here) ↦ rw (e, Lru.touch) (rw (here, stamp_and_move) (rw (e, contains) refl))
  ]
]

-- What was listed stays.
pub contains-touch_other :
    (id j : Text) (size now : ℕ) (l : Lru)
    → contains j l ≡ true
    → contains j (Lru.touch id size now l) ≡ true
unfolding contains Lru.touch push_front stamp_and_move
contains-touch_other id j size now l listed = elim (Option-cases (Dict.lookup id l.items)) [
  | inl e ↦
      rw (e, Lru.touch)
        (elim (Bool-cases (str_eq id j)) [
          | inl same ↦ rw (Dict.lookup-insert id j l.next_handle l.items, contains) (rw same refl)
          | inr other ↦
              rw (Dict.lookup-insert id j l.next_handle l.items, contains) (rw other listed)
        ])
  | inr (a, e) ↦ elim (Option-cases (element a l.order)) [
    | inl gone ↦ rw (e, Lru.touch) (rw (gone, stamp_and_move) listed)
    | inr (x, here) ↦ rw (e, Lru.touch) (rw (here, stamp_and_move) listed)
  ]
]

-- What is listed then was touched or listed before.
pub contains-touch_only :
    (id j : Text) (size now : ℕ) (l : Lru)
    → contains j (Lru.touch id size now l) ≡ true
    → (id ≡ j) ⊎ (contains j l ≡ true)
unfolding contains Lru.touch push_front stamp_and_move
contains-touch_only id j size now l h = elim (Option-cases (Dict.lookup id l.items)) [
  | inl e ↦ elim (Bool-cases (str_eq id j)) [
    | inl same ↦ inl ((str_eq_iff id j).0 same)
    | inr other ↦
        let h1 = rw (e, Lru.touch) at h in
        inr (rw other at (rw (Dict.lookup-insert id j l.next_handle l.items, contains) at h1))
  ]
  | inr (a, e) ↦
      let h1 = rw (e, Lru.touch) at h in
      elim (Option-cases (element a l.order)) [
        | inl gone ↦ inr (rw (gone, stamp_and_move) at h1)
        | inr (x, here) ↦ inr (rw (here, stamp_and_move) at h1)
      ]
]
