-- ===== src/Elessar/Indexer/Dependencies.antt =====
-- libs/elessar/src/context/indexer.rs: which lines of a Cargo.toml become dependencies.
use una_os.Prelude.{List, [], ◌∷◌, ◌++◌, append_assoc, append-nil, none, some, Bool, true}
use una_os.Prelude.{false, ◌≡◌, refl, ◌↔◌, inl, inr, ap, sym, ◌∙◌, arith, if◌then◌else◌}
use una_os.Prelude.{Bool-cases, Option-cases}
use mathlib.Core.Path.{subst}
use una_os.Prelude.Members.{In}
use una_os.Prelude.Text.{Text}
use una_os.Prelude.Text.Scan.{starts_with, is_empty}
use una_os.Elessar.Indexer.{CrateNode, Parser, lines, trimmed, entry, enter_section, read_name}
use una_os.Elessar.Indexer.{package_header}
use una_os.Elessar.Indexer.{read_dependency, parse_lines, parse_cargo_toml}
use una_os.Elessar.Indexer.Sections.{opens, is_header, IsListed, flag, added, collected}
use una_os.Elessar.Indexer.Sections.{Collects, collected-Collects}

package-closes :
    (l : Text) → starts_with package_header l ≡ true → (opens l ≡ false) × (is_header l ≡ true)
unfolding starts_with
package-closes [] h = absurd (cc h)
package-closes (b ∷ []) h = (ground (arith, h), ground (arith, h))
package-closes (b ∷ c ∷ l) h = (ground (arith, h), ground (arith, h))

enter_section-flag : (l : Text) (p : Parser) → (enter_section l p).in_deps ≡ flag p.in_deps l
unfolding enter_section
enter_section-flag l p = elim (Bool-cases (starts_with package_header l)) [
  | inl t ↦ let c = package-closes l t in let o = c.0 in let h = c.1 in rw (t, o, h) refl
  | inr f ↦ elim (Bool-cases (opens l)) [
    | inl o ↦ rw (f, o) refl
    | inr o ↦ elim (Bool-cases (is_header l)) [
      | inl h ↦ rw (f, o, h) refl
      | inr h ↦ rw (f, o, h) refl
    ]
  ]
]

enter_section-kept : (l : Text) (p : Parser) → (enter_section l p).dependencies ≡ p.dependencies
unfolding enter_section
enter_section-kept l p = ground arith

read_name-kept :
    (l : Text) (p : Parser)
    → ((read_name l p).dependencies ≡ p.dependencies) × ((read_name l p).in_deps ≡ p.in_deps)
unfolding read_name
read_name-kept l p = (ground arith, ground arith)

read_dependency-added :
    (l : Text) (p : Parser)
    → ((read_dependency l p).dependencies ≡ p.dependencies ++ added p.in_deps l)
      × ((read_dependency l p).in_deps ≡ p.in_deps)
unfolding read_dependency
read_dependency-added l p = elim (Bool-cases p.in_deps) [
  | inl t ↦ elim (Option-cases (entry l)) [
    | inl e ↦ (rw (t, e, read_dependency) (sym (append-nil p.dependencies)), ground arith)
    | inr (d, e) ↦ (rw (t, e, read_dependency) refl, ground arith)
  ]
  | inr f ↦ (rw (f, read_dependency) (sym (append-nil p.dependencies)), ground arith)
]

parse_lines-collected :
    (ls : List Text) (p : Parser)
    → (parse_lines ls p).dependencies ≡ p.dependencies ++ collected p.in_deps ls
unfolding parse_lines
parse_lines-collected [] p = sym (append-nil p.dependencies)
parse_lines-collected (l ∷ ls) p =
    let q = enter_section l p in
    let r = read_name l q in
    let s = read_dependency l r in
    let a = read_dependency-added l r in
    let n = read_name-kept l q in
    let f : r.in_deps ≡ flag p.in_deps l = n.1 ∙ enter_section-flag l p in
    let open_behind : s.in_deps ≡ flag p.in_deps l = a.1 ∙ f in
    let listed : s.dependencies ≡ p.dependencies ++ added (flag p.in_deps l) l =
      a.0
      ∙ ap (λ t. t ++ added r.in_deps l) (n.0 ∙ enter_section-kept l p)
      ∙ ap (λ t. p.dependencies ++ added t l) f in
    parse_lines-collected ls s
    ∙ ap (λ t. t ++ collected s.in_deps ls) listed
    ∙ ap (λ t. (p.dependencies ++ added (flag p.in_deps l) l) ++ collected t ls) open_behind
    ∙ append_assoc p.dependencies (added (flag p.in_deps l) l) (collected (flag p.in_deps l) ls)

some_if : (b : Bool) (r node : CrateNode) → (if b then none else some r) ≡ some node → r ≡ node
some_if true r node h = absurd (cc h)
some_if false r node h = cc h

-- The dependencies of a crate that the parser returns are those that its trimmed lines list. A line lists
-- what stands before its `=`, unless it is empty or a comment, where a header of the dependencies comes
-- before it and no other header between; the header is such a line too, so it is listed itself.
pub dependencies-IsListed :
    (content path : Text) (node : CrateNode)
    → parse_cargo_toml content path ≡ some node
    → (d : Text) → In d node.dependencies ↔ IsListed d (trimmed (lines content))
unfolding parse_cargo_toml Collects
dependencies-IsListed content path node e d =
    let ls = trimmed (lines content) in
    let p =
      parse_lines ls
        (record { name = []; dependencies = []; in_package = false; in_deps = false }) in
    let found =
      some_if (is_empty p.name)
        (record { name = p.name; path = path; dependencies = p.dependencies }) node e in
    let same : collected false ls ≡ node.dependencies =
      sym (parse_lines-collected ls _) ∙ ap (λ (n : CrateNode). n.dependencies) found in
    subst (λ (ds : List Text). In d ds ↔ IsListed d ls) same (collected-Collects d ls).1
