-- ===== src/Unafs/Tests/Names.antt =====
-- The theorem about names on a small directory.
use una_os.Prelude.{◌≡◌, refl, [], ◌∷◌, ◌++◌, some, false, if◌then◌else◌}
use una_os.Prelude.Text.{text_eq}
use una_os.Unafs.Inode.{file, directory}
use una_os.Unafs.Fs.{DirEntry}
use una_os.Unafs.Fs.Dirs.{find_entry, has_entry, sort_entries}
use una_os.Unafs.Fs.Dirs.Lookup.{find_entry-add_entry}

-- "bin" and "usr", and "etc", which comes between them.
abbrev bin : DirEntry
bin = record { name = 98 ∷ 105 ∷ 110 ∷ []; inode_id = 14; kind = directory }

abbrev usr : DirEntry
usr = record { name = 117 ∷ 115 ∷ 114 ∷ []; inode_id = 15; kind = directory }

abbrev etc : DirEntry
etc = record { name = 101 ∷ 116 ∷ 99 ∷ []; inode_id = 16; kind = file }

etc-new : has_entry etc.name (bin ∷ usr ∷ []) ≡ false
unfolding has_entry text_eq
etc-new = refl

find_entry-add_entry_example :
    find_entry usr.name (sort_entries ((bin ∷ usr ∷ []) ++ (etc ∷ [])))
    ≡ (if text_eq etc.name usr.name then some etc else find_entry usr.name (bin ∷ usr ∷ []))
find_entry-add_entry_example = find_entry-add_entry (bin ∷ usr ∷ []) etc usr.name etc-new
