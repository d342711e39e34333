-- ===== src/Node/Invariant.antt =====
-- What holds between the steps of a node.
use loraplex.Cache.Manager.{elem}
use loraplex.Cache.Manager.Steps.{InBase, Inv}
use loraplex.Cache.Meta.{AdapterMeta}
use loraplex.Discovery.Following.{Follows}
use loraplex.Discovery.Modes.{base_of}
use loraplex.Node.{Platform, Settings, Node}
use loraplex.Routing.Ring.{Ring, update}
use loraplex.Routing.Ring.Loads.{has_peer, names_peer, update-has_peer}
use loraplex.Routing.Ring.Placement.{WellFormed, update-WellFormed}
use loraplex.Prelude.{◌∷◌, ◌%◌, map, length, List, Text, [], ◌≡◌, All, false, ◌^◌}

-- No adapter has two runs.
abbrev pub AllApart : List (Text × AdapterMeta) → Type 0
AllApart [] = Unit
AllApart ((id, old) ∷ runs) = (elem id (map (λ e. e.0) runs) ≡ false) × AllApart runs

-- A ring that is well formed and has the peers that were discovered last.
pub record InStep {F : Type 0} (known : List Text) (r : Ring F) : Type 0 where
  pub well_formed : WellFormed r
  pub same : (addr : Text) → has_peer addr r.peers ≡ names_peer addr known

module _ {F : Type 0} (pf : Platform F) where
  abbrev pub renew : List Text → Ring F → Ring F
  renew = update pf.sha pf.vnode_sorter pf.no_load

  pub renew-InStep : (ps : List Text) (r : Ring F) → InStep ps (renew ps r)
  renew-InStep ps r = record {
    well_formed = update-WellFormed pf.sha pf.vnode_sorter pf.no_load ps r;
    same = update-has_peer pf.sha pf.vnode_sorter pf.no_load ps r;
  }

module _ {F : Type 0} (pf : Platform F) (base : Text) (st : Settings F) where
  pub record Sound (n : Node F) : Type 0 where
    pub settled : n.settings ≡ st
    pub stored : Inv base n.world
    pub follows : Follows (renew pf) InStep (renew-InStep pf) (base_of n.discovery) n.ring
    pub pending : n.checker.pending_count ≡ length n.in_flight % 2 ^ 64
    pub inside : All (λ (e : Text × AdapterMeta). InBase base e.0) n.revalidating
    pub apart : AllApart n.revalidating
