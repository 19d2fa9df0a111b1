-- ===== src/Elessar/Indexer/Tests.antt =====
-- A manifest with one dependency, and the theorem at it.
use una_os.Prelude.{[], ◌∷◌, some, ◌≡◌, ◌↔◌, refl}
use una_os.Prelude.Members.{In}
use una_os.Prelude.Text.{Text}
use una_os.Prelude.Text.Scan.{split, trim}
use una_os.Elessar.Indexer.{CrateNode, dependencies_header, lines, trimmed, parse_cargo_toml}
use una_os.Elessar.Indexer.Sections.{IsListed}
use una_os.Elessar.Indexer.Dependencies.{dependencies-IsListed}

-- [package], name = "a", [dependencies] and b = 1, each with the end of its line
abbrev manifest : Text
manifest =
    0x5B ∷ 0x70 ∷ 0x61 ∷ 0x63 ∷ 0x6B ∷ 0x61 ∷ 0x67 ∷ 0x65 ∷ 0x5D ∷ 0x0A ∷ 0x6E ∷ 0x61 ∷ 0x6D ∷ 0x65
    ∷ 0x20 ∷ 0x3D ∷ 0x20 ∷ 0x22 ∷ 0x61 ∷ 0x22 ∷ 0x0A ∷ 0x5B ∷ 0x64 ∷ 0x65 ∷ 0x70 ∷ 0x65 ∷ 0x6E
    ∷ 0x64 ∷ 0x65 ∷ 0x6E ∷ 0x63 ∷ 0x69 ∷ 0x65 ∷ 0x73 ∷ 0x5D ∷ 0x0A ∷ 0x62 ∷ 0x20 ∷ 0x3D ∷ 0x20
    ∷ 0x31 ∷ 0x0A ∷ []

abbrev node : CrateNode
node = record {
  name = 0x61 ∷ [];
  path = 0x2E ∷ [];
  dependencies = dependencies_header ∷ (0x62 ∷ []) ∷ [];
}

manifest-parsed : parse_cargo_toml manifest (0x2E ∷ []) ≡ some node
unfolding parse_cargo_toml split trim
manifest-parsed = refl

dependencies-IsListed_example :
    In dependencies_header node.dependencies
    ↔ IsListed dependencies_header (trimmed (lines manifest))
dependencies-IsListed_example =
    dependencies-IsListed manifest (0x2E ∷ []) node manifest-parsed dependencies_header
