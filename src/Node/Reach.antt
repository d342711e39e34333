-- ===== src/Node/Reach.antt =====
-- Whole runs: from the start of cmd/loraplex/main.go through any steps.
use loraplex.Cache.Manager.Installing.{Confined}
use loraplex.Cache.Manager.Steps.{InBase}
use loraplex.Cache.Meta.{AdapterMeta}
use loraplex.Cache.Store.Rebuild.Inside.{AllProper}
use loraplex.Config.{Config}
use loraplex.Discovery.Heartbeat.{TickTimes}
use loraplex.Discovery.Modes
use loraplex.Discovery.Modes.{Discovery, static, by_file, by_k8s}
use loraplex.Discovery.Kubernetes.{K8sSubset}
use loraplex.Go.Fs.{Fs, at}
use loraplex.Go.Fs.Outside.{KeepsOutside, KeepsOutside-refl, KeepsOutside-trans}
use loraplex.Go.Path.{is_rooted}
use loraplex.Node.{Platform, Settings, Node}
use loraplex.Node.Boot.{boot}
use loraplex.Node.Invariant.{Sound}
use loraplex.Node.Preservation.{Step-Sound, answer-Leads, administer-Leads, revalidate-Leads}
use loraplex.Node.Start.{boot-Booted}
use loraplex.Node.Step.{
  Step, Reach, here, then_step, arrive, finish, administer, poll, check, revalidate, arrives,
  finishes, administers, polls, checks, expires, revalidates,
}
use loraplex.Origin.Bucket.{BucketClient}
use loraplex.Origin.Plain.{IsPlain}
use loraplex.Prelude.{
  Bool, ◌∷◌, All, refl, List, subst, ◌≡◌, ok, All-of_append, ◌++◌, true, Text, Option, ℕ, false,
  some,
}

-- The discovery by heartbeats is the one that writes files of its own.
abbrev pub writes_files : {S : Type 0} → Discovery S → Bool
writes_files (static b) = false
writes_files (by_file f) = true
writes_files (by_k8s k) = false

poll-disk :
    {S : Type 0} (decode : Text → Option (List K8sSubset)) (d : Discovery S) (now : TickTimes)
    (fs : Fs) (s : S)
    → writes_files d ≡ false
    → ((Modes.poll decode d now fs s).1 ≡ fs)
      × (writes_files (Modes.poll decode d now fs s).0.0 ≡ false)
unfolding Modes.poll
poll-disk decode (static b) now fs s h = (refl, refl)
poll-disk decode (by_file f) now fs s h = cc
poll-disk decode (by_k8s k) now fs s h = (refl, refl)

module _ {F : Type 0} (pf : Platform F) (base : Text) (st : Settings F)
    (rooted : is_rooted base ≡ true) (confined : (now : ℕ) → All Confined (st.origins now)) where
  Reach-from : (start n : Node F) → Sound pf base st start → Reach pf start n → Sound pf base st n
  Reach-from start n h here = h
  Reach-from start n h (then_step m k before s) =
      Step-Sound pf base st rooted confined m k s (Reach-from start m h before)

  abbrev Quiet : Fs → Node F → Type 0
  Quiet fs n = KeepsOutside (at base) fs n.world.fs × (writes_files n.discovery ≡ false)

  abbrev keeps : (fs : Fs) → KeepsOutside (at base) fs fs
  keeps fs = KeepsOutside-refl (at base) fs

  Step-Quiet :
      (n m : Node F)
      → Step pf n m
      → Sound pf base st n
      → writes_files n.discovery ≡ false
      → Quiet n.world.fs m
  unfolding arrive finish administer poll check revalidate
  Step-Quiet n m (arrives r e) h w = (keeps n.world.fs, w)
  Step-Quiet n m (finishes xs ys r now e) h w =
      ((answer-Leads pf base st rooted confined n r now h).keeps, w)
  Step-Quiet n m (administers r now e) h w =
      ((administer-Leads pf base st rooted confined n r now h).keeps, w)
  Step-Quiet n m (polls now) h w =
      let (same, still) = poll-disk pf.decode_endpoints n.discovery now n.world.fs n.ring w in
      (rw same (keeps n.world.fs), still)
  Step-Quiet n m checks h w = (keeps n.world.fs, w)
  Step-Quiet n m (expires id old now accepted e) h w = (keeps n.world.fs, w)
  Step-Quiet n m (revalidates xs ys id old now e) h w =
      let runs = subst (All (λ (e : Text × AdapterMeta). InBase base e.0)) e h.inside in
      let (before, (hid, after)) =
        All-of_append (λ (e : Text × AdapterMeta). InBase base e.0) xs ((id, old) ∷ ys) runs in
      ((revalidate-Leads pf base st rooted confined n (xs ++ ys) id old now hid h).keeps, w)

  Reach-Quiet :
      (start n : Node F)
      → Sound pf base st start
      → writes_files start.discovery ≡ false
      → Reach pf start n
      → Quiet start.world.fs n
  Reach-Quiet start n h w here = (keeps start.world.fs, w)
  Reach-Quiet start n h w (then_step m k before s) =
      let (kept, still) = Reach-Quiet start m h w before in
      let (kept', still') = Step-Quiet m k s (Reach-from start m h before) still in
      (KeepsOutside-trans (at base) start.world.fs m.world.fs n.world.fs kept kept', still')

module _ {F : Type 0} (pf : Platform F) (cfg : Config F)
    (plain : (bucket region : Text) (client : BucketClient)
      → pf.outside.aws bucket region ≡ some client
      → IsPlain client)
    (rooted : is_rooted cfg.storage.dir ≡ true) (now : ℕ) (fs : Fs) (proper : AllProper fs.entries)
    (start : Node F) (booted : boot pf cfg now fs ≡ ok start) where
  -- Whatever steps a node takes after its start, in whatever order, if its storage directory is absolute, the
  -- paths on its disk are made of proper names, and the buckets that it reads hold plain keys only: its
  -- settings stay; the LRU is valid and lists no identifier which leads out of the directory; the ring is
  -- well formed and has the peers that were discovered last; the health checker counts the requests that are
  -- not answered yet, modulo 2^64; and no adapter has two revalidations under way.
  pub Reach-Sound : (n : Node F) → Reach pf start n → Sound pf cfg.storage.dir start.settings n
  Reach-Sound n r =
      let (st, (confined, h)) = boot-Booted pf cfg plain rooted now fs start proper booted in
      rw h.settled (Reach-from pf cfg.storage.dir st rooted confined start n h r)

  -- Whatever steps a node takes after its start, in whatever order, if its storage directory is absolute, the
  -- paths on its disk are made of proper names, the buckets that it reads hold plain keys only, and its peers
  -- are not discovered by heartbeat files: nothing outside of the storage directory is changed and nothing is made
  -- there, but that missing directories that the storage directory lies in may be made.
  pub Reach-KeepsOutside :
      (n : Node F)
      → writes_files start.discovery ≡ false
      → Reach pf start n
      → KeepsOutside (at cfg.storage.dir) start.world.fs n.world.fs
  Reach-KeepsOutside n quiet r =
      let (st, (confined, h)) = boot-Booted pf cfg plain rooted now fs start proper booted in
      (Reach-Quiet pf cfg.storage.dir st rooted confined start n h quiet r).0
