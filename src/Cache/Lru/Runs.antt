-- ===== src/Cache/Lru/Runs.antt =====
-- Any sequence of calls on a new LRU.
use loraplex.Cache.Lru.{Lru, new_lru, touch, evict, remove}
use loraplex.Cache.Lru.Eviction.{evict-Trimmed}
use loraplex.Cache.Lru.Invariant.{IsValid, new_lru-IsValid, touch-IsValid, remove-IsValid}
use loraplex.Prelude.{[], ◌∷◌, Text, List, ℕ}

-- The calls that change the state; the mutex puts those of all goroutines in one order.
pub data Call : Type 0 where
  touches : Text → ℕ → ℕ → Call
  evicts : ℕ → Call
  removes : Text → Call

unfoldable pub step : Call → Lru → Lru
step (touches id size now) l = touch id size now l
step (evicts required) l = (evict required l).0
step (removes id) l = (remove id l).0

unfoldable pub run : List Call → Lru → Lru
run [] l = l
run (c ∷ cs) l = run cs (step c l)

step-IsValid : (c : Call) (l : Lru) → IsValid l → IsValid (step c l)
unfolding step
step-IsValid (touches id size now) l v = touch-IsValid l v id size now
step-IsValid (evicts required) l v = (evict-Trimmed required l v).valid
step-IsValid (removes id) l v = remove-IsValid l v id

run-IsValid : (cs : List Call) (l : Lru) → IsValid l → IsValid (run cs l)
unfolding run
run-IsValid [] l v = v
run-IsValid (c ∷ cs) l v = run-IsValid cs (step c l) (step-IsValid c l v)

-- After any calls on a new LRU, the map leads from each identifier to its element in the list and has
-- no other keys, no address or identifier occurs twice in the list, and the counter is the sum of
-- the recorded sizes modulo 2^64.
pub run-new_lru-IsValid : (max_size : ℕ) (cs : List Call) → IsValid (run cs (new_lru max_size))
run-new_lru-IsValid max_size cs = run-IsValid cs (new_lru max_size) (new_lru-IsValid max_size)
