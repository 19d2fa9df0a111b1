-- ===== src/Unafs/Fs/Dirs.antt =====
-- Directories: listing, lookup by path, new entries.
pub mod Lookup
use una_os.Prelude.{ℕ, List, [], ◌∷◌, ◌++◌, Option, none, some, Bool, true, false, ◌||◌, not}
use una_os.Prelude.{ltb, ◌==◌, if◌then◌else◌}
use una_os.Prelude.Text.{Text, text_eq, text_lt}
use una_os.Prelude.Exec.{◌>>=◌, ◌>>◌, pure, fail, gets}
use una_os.Unafs.Storage.{BlockDevice}
use una_os.Unafs.Inode.{FileKind, file, directory}
use una_os.Unafs.Fs.{FileSystemError, serialization, not_a_directory, file_exists, root_missing}
use una_os.Unafs.Fs.{DirEntry, Codecs, Fs, read_inode, create_inode_internal}
use una_os.Unafs.Fs.Data.{read_data, write_data}

is_directory : FileKind → Bool
is_directory directory = true
is_directory _ = false

-- A missing value as an error.
abbrev pub or_error : {D A : Type 0} → FileSystemError → Option A → Fs D A
or_error e none = fail e
or_error e (some a) = pure a

pub find_entry : Text → List DirEntry → Option DirEntry
find_entry name [] = none
find_entry name (e ∷ es) = if text_eq e.name name then some e else find_entry name es

-- `entries.iter().any(|e| e.name == name)`
unfoldable pub has_entry : Text → List DirEntry → Bool
has_entry name [] = false
has_entry name (e ∷ es) = text_eq e.name name || has_entry name es

-- `entries.sort_by(|a, b| a.name.cmp(&b.name))`, which keeps the order of equal names.
insert_entry : DirEntry → List DirEntry → List DirEntry
insert_entry e [] = e ∷ []
insert_entry e (e' ∷ es) =
    let rest = insert_entry e es in if text_lt e'.name e.name then e' ∷ rest else e ∷ e' ∷ es

pub sort_entries : List DirEntry → List DirEntry
unfolding insert_entry
sort_entries [] = []
sort_entries (e ∷ es) = insert_entry e (sort_entries es)

-- b'/'
abbrev slash : ℕ
slash = 0x2f

trim_slashes : Text → Text
trim_slashes [] = []
trim_slashes (b ∷ bs) = let rest = trim_slashes bs in if b == slash then rest else b ∷ bs

-- `path.split('/')`; `part` is what stands before the rest, and every path has a part.
split_path : Text → Text → List Text
split_path part [] = part ∷ []
split_path part (b ∷ bs) =
    let next = split_path [] bs in
    let same = split_path (part ++ (b ∷ [])) bs in if b == slash then part ∷ next else same

module _ {D : Type 0} ⦃dev : BlockDevice D⦄ (c : Codecs) where
  ls : ℕ → Fs D (List DirEntry)
  unfolding is_directory
  ls inode_id = do
    node ← read_inode c inode_id
    (if not (is_directory node.kind)
        then fail not_a_directory
        else if node.size == 0
        then pure []
        else (do
          bytes ← read_data c inode_id 0 node.size
          or_error serialization (c.entries.deserialize bytes)))

  -- The loop of `resolve_path` over the parts; empty parts are passed over.
  unfoldable walk : ℕ → List Text → Fs D ℕ
  walk current_id [] = pure current_id
  walk current_id ([] ∷ parts) = walk current_id parts
  walk current_id ((b ∷ name) ∷ parts) = do
    entries ← ls current_id
    entry ← or_error root_missing (find_entry (b ∷ name) entries)
    walk entry.inode_id parts

  unfoldable resolve_path : Text → Fs D ℕ
  unfolding trim_slashes split_path
  resolve_path path = do
    root ← gets (λ s. s.superblock.root_inode)
    elim (trim_slashes path) [ [] ↦ pure root | b ∷ rest ↦ walk root (split_path [] (b ∷ rest)) ]

  add_entry : ℕ → Text → FileKind → Fs D ℕ
  unfolding ls has_entry sort_entries
  add_entry parent_id name kind = do
    parent ← read_inode c parent_id
    (if not (is_directory parent.kind) then fail not_a_directory else (do
      entries ← (if ltb 0 parent.size then ls parent_id else pure [])
      (if has_entry name entries then fail file_exists else (do
        new_id ← create_inode_internal c kind []
        bytes ← or_error serialization (
            c.entries.serialize (
              sort_entries
                (entries ++ (record { name = name; inode_id = new_id; kind = kind } ∷ []))))
        write_data c parent_id 0 bytes
        pure new_id))))

  unfoldable mkdir : ℕ → Text → Fs D ℕ
  unfolding add_entry
  mkdir parent_id name = add_entry parent_id name directory

  unfoldable create_file : ℕ → Text → Fs D ℕ
  unfolding add_entry
  create_file parent_id name = add_entry parent_id name file
