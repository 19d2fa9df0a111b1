-- ===== src/Elessar.antt =====
-- libs/elessar/src/lib.rs: what kind of project a directory holds. Which paths exist is a parameter.
pub mod Indexer
use una_os.Prelude.{ℕ, List, Bool, ◌||◌, if◌then◌else◌}
use una_os.Prelude.Text.{Text}

pub data Spline : Type 0 where
  unaos : Spline
  rust : Spline
  web : Spline
  python : Spline
  void : Spline

-- The files of a directory that the detection asks for.
pub record Markers : Type 0 where
  pub memoria_md : Bool
  pub cargo_toml : Bool
  pub package_json : Bool
  pub requirements_txt : Bool
  pub pyproject_toml : Bool

pub detect_spline : Markers → Spline
detect_spline m =
    if m.memoria_md
    then unaos
    else if m.cargo_toml
    then rust
    else if m.package_json
    then web
    else if m.requirements_txt || m.pyproject_toml
    then python
    else void
