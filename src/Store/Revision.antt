-- ===== src/Store/Revision.antt =====
-- store/revision.rs: how a revision came to be.
use reldir.Base.{List, [], ◌∷◌, Option, none, some, codes, if◌then◌else◌}
use reldir.Store.Corruption.{Bytes}
use reldir.Store.Text.{bytes_eq}

pub data Origin : Type 0 where
  inference user internal external recovery repair migration import snapshot_restore merge upgrade :
      Origin

abbrev pub all_origins : List Origin
all_origins =
    inference ∷ user ∷ internal ∷ external ∷ recovery ∷ repair ∷ migration ∷ import
    ∷ snapshot_restore ∷ merge ∷ upgrade ∷ []

-- `Origin::as_str`
unfoldable pub as_str : Origin → Bytes
as_str inference = codes "inference"
as_str user = codes "user"
as_str internal = codes "internal"
as_str external = codes "external"
as_str recovery = codes "recovery"
as_str repair = codes "repair"
as_str migration = codes "migration"
as_str import = codes "import"
as_str snapshot_restore = codes "snapshot_restore"
as_str merge = codes "merge"
as_str upgrade = codes "upgrade"

-- `into_iter().find(|o| o.as_str() == text)`
unfoldable pub find_origin : Bytes → List Origin → Option Origin
find_origin text [] = none
find_origin text (o ∷ os) = if bytes_eq (as_str o) text then some o else find_origin text os

-- `Origin::parse`
unfoldable pub parse : Bytes → Option Origin
parse text = find_origin text all_origins
