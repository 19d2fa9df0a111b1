-- ===== src/Unafs/Fs/Dirs/Lookup.antt =====
-- Looking a name up in a directory after an entry was added and the entries were sorted.
use una_os.Prelude.{◌≡◌, refl, ap, sym, ◌∙◌, arith, List, [], ◌∷◌, ◌++◌, some, true, false}
use una_os.Prelude.{if◌then◌else◌, Bool-cases, inl, inr}
use una_os.Prelude.Text.{Text, text_eq, text_lt, text_eq→eq, text_eq_refl}
use una_os.Unafs.Fs.{DirEntry}
use una_os.Unafs.Fs.Dirs.{find_entry, has_entry, insert_entry, sort_entries}

text_lt_irrefl : (a : Text) → text_lt a a ≡ false
unfolding text_lt
text_lt_irrefl [] = refl
text_lt_irrefl (x ∷ xs) = ground (arith, text_lt_irrefl xs)

-- A name that comes before another is not equal to it.
text_lt-ne : (a b : Text) → text_lt a b ≡ true → text_eq b a ≡ false
text_lt-ne a b h = elim (Bool-cases (text_eq b a)) [
  | inl same ↦ let e = text_eq→eq b a same in absurd (cc (h, text_lt_irrefl a, ap (text_lt a) e))
  | inr other ↦ other
]

find_entry-insert_entry :
    (e : DirEntry) (es : List DirEntry) (name : Text)
    → find_entry name (insert_entry e es)
      ≡ (if text_eq e.name name then some e else find_entry name es)
unfolding find_entry insert_entry
find_entry-insert_entry e [] name = refl
find_entry-insert_entry e (e' ∷ es) name = elim (Bool-cases (text_lt e'.name e.name)) [
  | inr no_lt ↦ rw (no_lt, insert_entry) refl
  | inl lt ↦
      rw (lt, insert_entry)
        (elim (Bool-cases (text_eq e'.name name)) [
          | inr other ↦ rw other (find_entry-insert_entry e es name)
          | inl same ↦
              let n : text_eq e.name name ≡ false =
                ap (text_eq e.name) (sym (text_eq→eq e'.name name same))
                ∙ text_lt-ne e'.name e.name lt in
              rw (same, n) refl
        ])
]

find_entry-sort_entries :
    (es : List DirEntry) (name : Text) → find_entry name (sort_entries es) ≡ find_entry name es
unfolding find_entry sort_entries
find_entry-sort_entries [] name = refl
find_entry-sort_entries (e ∷ es) name =
    find_entry-insert_entry e (sort_entries es) name
    ∙ ap (λ t. if text_eq e.name name then some e else t) (find_entry-sort_entries es name)

find_entry-append :
    (es : List DirEntry) (new : DirEntry) (name : Text)
    → has_entry new.name es ≡ false
    → find_entry name (es ++ (new ∷ []))
      ≡ (if text_eq new.name name then some new else find_entry name es)
unfolding find_entry has_entry
find_entry-append [] new name h = refl
find_entry-append (e ∷ es) new name h = elim (Bool-cases (text_eq e.name name)) [
  | inr other ↦ rw other (find_entry-append es new name (ground arith))
  | inl same ↦
      let n : text_eq new.name name ≡ false = unequal e.name new.name name same (ground arith) in
      rw (same, n) refl
]
  where
    unequal :
        (a b name : Text) → text_eq a name ≡ true → text_eq a b ≡ false → text_eq b name ≡ false
    unequal a b name h k = elim (Bool-cases (text_eq b name)) [
      | inr other ↦ other
      | inl same ↦
          let e = text_eq→eq a name h in
          let f = text_eq→eq b name same in
          absurd (cc (k, ap (text_eq a) (f ∙ sym e), text_eq_refl a))
    ]

-- In the entries that `add_entry` stores (a name that was not there is added, and all are sorted by
-- name) the new name is looked up to the new entry and every other name to what it was before.
pub find_entry-add_entry :
    (entries : List DirEntry) (new : DirEntry) (name : Text)
    → has_entry new.name entries ≡ false
    → find_entry name (sort_entries (entries ++ (new ∷ [])))
      ≡ (if text_eq new.name name then some new else find_entry name entries)
find_entry-add_entry entries new name h =
    find_entry-sort_entries (entries ++ (new ∷ [])) name ∙ find_entry-append entries new name h
