-- ===== src/Archive/Pack/Laws.antt =====
-- The making of an archive ends, and its metadata lists what is in it.
use etok.Base.{◌≡◌, ℕ, ◌<◌, String, true, Option, some, List, All}
use etok.Kube.{Result, ok, err}
use etok.Kube.Effect.{Done}
use etok.Archive.{RuleMatcher}
use etok.Archive.Pack.{Info, Header, Disk, Tar, Packing, Meta, into, visit}
use etok.Archive.Pack.Writing.{IsTar, IsListed}

module _ {W : Type 0} (t : Tar W) (headers : W → List Header) (i : IsTar t headers) (d : Disk)
    (base : String) (m : RuleMatcher) where
  -- A visit that leads into another tree leads to one of a lower rank.
  abbrev pub LeadsDown : (String → ℕ) → String → String → String × Result Info → Type 0
  LeadsDown rank src dst v =
      (p q : Packing W) (target path : String)
      → visit t d base m src dst true v p ≡ into target path q
      → rank target < rank src

  -- A measure of trees that goes down where a link leads from one tree into another.
  abbrev pub IsDescending : (String → ℕ) → Type 0
  IsDescending rank = (src dst : String) → All (LeadsDown rank src dst) (d.visits src)

  abbrev Ends : Option (Result Done × Packing W) → Type 0
  Ends x = (r : Result Done × Packing W) × (x ≡ some r)

  -- Metadata that lists what the archive has, and only what no rule ignores; nothing of an error.
  abbrev pub IsDescribed : Result Meta × W → Type 0
  IsDescribed (err e, w) = Unit
  IsDescribed (ok meta, w) = IsListed t headers i d base m meta.files w
