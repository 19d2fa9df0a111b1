-- ===== src/Elessar/Indexer.antt =====
-- libs/elessar/src/context/indexer.rs: the parser of a Cargo.toml.
pub mod Sections
pub mod Dependencies
pub mod Tests
use una_os.Prelude.{ℕ, List, [], ◌∷◌, ◌++◌, Option, none, some, Bool, true, false, not, ◌&&◌, ◌==◌}
use una_os.Prelude.{if◌then◌else◌}
use una_os.Prelude.Text.{Text}
use una_os.Prelude.Text.Scan.{trim, starts_with, split, is_empty}

-- "[package]", "[dependencies]", "[", "name =", "=", "#" and the end of a line
abbrev pub package_header : Text
package_header = 0x5B ∷ 0x70 ∷ 0x61 ∷ 0x63 ∷ 0x6B ∷ 0x61 ∷ 0x67 ∷ 0x65 ∷ 0x5D ∷ []

abbrev pub dependencies_header : Text
dependencies_header =
    0x5B ∷ 0x64 ∷ 0x65 ∷ 0x70 ∷ 0x65 ∷ 0x6E ∷ 0x64 ∷ 0x65 ∷ 0x6E ∷ 0x63 ∷ 0x69 ∷ 0x65 ∷ 0x73 ∷ 0x5D
    ∷ []

abbrev pub bracket : Text
bracket = 0x5B ∷ []

abbrev name_key : Text
name_key = 0x6E ∷ 0x61 ∷ 0x6D ∷ 0x65 ∷ 0x20 ∷ 0x3D ∷ []

abbrev equals : Text
equals = 0x3D ∷ []

abbrev hash : Text
hash = 0x23 ∷ []

abbrev newline : Text
newline = 0x0A ∷ []

pub record CrateNode : Type 0 where
  pub name : Text
  pub path : Text
  pub dependencies : List Text

-- The variables of the loop over the lines.
pub record Parser : Type 0 where
  pub name : Text
  pub dependencies : List Text
  pub in_package : Bool
  pub in_deps : Bool

-- `content.lines()`: a last line that is empty is none. A carriage return at the end of a line stays, for
-- the trim that follows.
drop_last_empty : List Text → List Text
drop_last_empty [] = []
drop_last_empty (s ∷ []) = if is_empty s then [] else s ∷ []
drop_last_empty (s ∷ t ∷ rest) = s ∷ drop_last_empty (t ∷ rest)

pub lines : Text → List Text
unfolding drop_last_empty
lines content = drop_last_empty (split newline content)

-- `trim_matches('"')`
skip_quotes : Text → Text
skip_quotes [] = []
skip_quotes (b ∷ s) = let rest = skip_quotes s in if b == 0x22 then rest else b ∷ s

skip_end_quotes : Text → Text
skip_end_quotes [] = []
skip_end_quotes (b ∷ s) =
    let rest = skip_end_quotes s in if b == 0x22 && is_empty rest then [] else b ∷ rest

trim_quotes : Text → Text
unfolding skip_quotes skip_end_quotes
trim_quotes s = skip_end_quotes (skip_quotes s)

pub enter_section : Text → Parser → Parser
enter_section line p =
    if starts_with package_header line
    then record p { in_package = true; in_deps = false }
    else if starts_with dependencies_header line
    then record p { in_package = false; in_deps = true }
    else if starts_with bracket line
    then record p { in_package = false; in_deps = false }
    else p

second : List Text → Option Text
second (a ∷ b ∷ rest) = some b
second _ = none

pub read_name : Text → Parser → Parser
unfolding second trim_quotes
read_name line p =
    if p.in_package && starts_with name_key line
    then (elim (second (split equals line)) [
      | none ↦ p
      | some val ↦ record p { name = trim_quotes (trim val) }
    ])
    else p

-- `line.split('=').nth(0)`, trimmed, where it is not empty.
pub first_clean : List Text → Option Text
first_clean [] = none
first_clean (dep_name ∷ rest) =
    let clean = trim dep_name in if is_empty clean then none else some clean

-- What a line of the section adds.
pub entry : Text → Option Text
unfolding first_clean
entry line =
    if not (starts_with hash line) && not (is_empty line)
    then first_clean (split equals line)
    else none

pub read_dependency : Text → Parser → Parser
unfolding entry
read_dependency line p =
    if p.in_deps
    then (elim (entry line) [
      | none ↦ p
      | some clean ↦ record p { dependencies = p.dependencies ++ (clean ∷ []) }
    ])
    else p

-- The loop, over the trimmed lines.
pub parse_lines : List Text → Parser → Parser
unfolding enter_section read_name read_dependency
parse_lines [] p = p
parse_lines (line ∷ rest) p =
    parse_lines rest (read_dependency line (read_name line (enter_section line p)))

pub trimmed : List Text → List Text
trimmed [] = []
trimmed (line ∷ rest) = trim line ∷ trimmed rest

unfoldable pub parse_cargo_toml : Text → Text → Option CrateNode
unfolding lines trimmed parse_lines
parse_cargo_toml content path =
    let p =
      parse_lines (trimmed (lines content))
        (record { name = []; dependencies = []; in_package = false; in_deps = false }) in
    if is_empty p.name
    then none
    else some (record { name = p.name; path = path; dependencies = p.dependencies })
