-- ===== src/Cache/World.antt =====
-- The state that the cache's operations share, the store beside the disk, and their errors. An
-- operation gives the new state also when it fails.
use loraplex.Cache.Lru.{Lru}
use loraplex.Go.Fs.{Fs}
use loraplex.Prelude.{ok, Text, Result, none, some, Option, err}

pub record Store : Type 0 where
  pub base_path : Text
  pub lru : Lru

pub record World : Type 0 where
  pub store : Store
  pub fs : Fs

pub data CacheError : Type 0 where
  path_traversal : CacheError
  io : CacheError
  not_found : Text → CacheError

abbrev pub Cached : Type 0 → Type 0
Cached A = World → Result CacheError A × World

infixl 5 ◌>>=◌ ◌>>◌
abbrev pub ◌>>=◌ : {A B : Type 0} → Cached A → (A → Cached B) → Cached B
◌>>=◌ m f w = let (r, w') = m w in elim r [ err e ↦ (err e, w') | ok a ↦ f a w' ]

abbrev pub ◌>>◌ : {B : Type 0} → Cached (Unit {0}) → Cached B → Cached B
m >> k = m >>= λ _. k

abbrev pub return : {A : Type 0} → A → Cached A
return a w = (ok a, w)

abbrev pub fail : {A : Type 0} → CacheError → Cached A
fail e w = (err e, w)

-- A call of the file system whose error is returned, and one whose error is ignored.
abbrev pub on_disk : (Fs → Option Fs) → Cached (Unit {0})
on_disk f w = elim (f w.fs) [ none ↦ (err io, w) | some fs' ↦ (ok tt, record w { fs = fs' }) ]

abbrev pub ignoring : (Fs → Option Fs) → Cached (Unit {0})
ignoring f w = elim (f w.fs) [ none ↦ (ok tt, w) | some fs' ↦ (ok tt, record w { fs = fs' }) ]
