-- ===== src/Unafs/Tests/Queries.antt =====
-- Queries that the repository makes, and the theorems about them.
use una_os.Prelude.{ℕ, ◌≡◌, ◌↔◌, refl, arith, List, [], ◌∷◌, none, some}
use una_os.Prelude.{false, All, ◌==◌, slice}
use una_os.Prelude.Members.{In}
use una_os.Prelude.Map
use una_os.Prelude.Text.{Text, text_eq}
use una_os.Prelude.Text.Scan.{trim, starts_with, find}
use una_os.Prelude.Checked.{panicked, parsed}
use una_os.Prelude.Exec.{ok}
use una_os.Unafs.Storage.{BlockDevice}
use una_os.Unafs.Codec.{Codec}
use una_os.Unafs.Hash.{hash_bytes}
use una_os.Unafs.Inode
use una_os.Unafs.Inode.{Inode, AttributeValue, string, file, from_bytes}
use una_os.Unafs.Catalog.{CatalogEntry, deserialize_catalog}
use una_os.Unafs.Superblock
use una_os.Unafs.Bitmap
use una_os.Unafs.Query.{FloatSyntax, Query, equal, quote, similarity, and_word, parse_value, parse}
use una_os.Unafs.Query.Values.{parse_value-panics}
use una_os.Unafs.Query.Written.{written, IsKey, parse-written}
use una_os.Unafs.Fs.{UnaFs, Codecs, read_inode}
use una_os.Unafs.Fs.Data.{read_data, read_from_extents, read_loop, find_block}
use una_os.Unafs.Fs.Search.{Floats, candidates, run_query}
use una_os.Unafs.Fs.Search.Candidates.{contains, offered, IsIncreasing, candidates-exact}
use una_os.Unafs.Fs.Search.Hits.{small, Holds, IsHit, run_query-IsHit}
use una_os.Unafs.Tests.Fixtures.{op_codec, superblock_codec}

-- No text is a float.
abbrev no_floats : FloatSyntax
no_floats = record { parse_f32 = λ s. none; widen = λ f. f }

-- "type" and "chat"
abbrev type_word : Text
type_word = 0x74 ∷ 0x79 ∷ 0x70 ∷ 0x65 ∷ []

abbrev chat : Text
chat = 0x63 ∷ 0x68 ∷ 0x61 ∷ 0x74 ∷ []

abbrev chats : Query
chats = record { key = type_word; op = equal; value = string chat; secondary_filters = [] }

type_word-IsKey : IsKey 0x74 (0x79 ∷ 0x70 ∷ 0x65 ∷ [])
unfolding trim
type_word-IsKey = record { begins = refl; ends = refl; plain = (refl, (refl, (refl, (refl, tt)))) }

no_call : starts_with similarity (written type_word chat) ≡ false
unfolding starts_with
no_call = refl

no_and : find and_word (written type_word chat) ≡ none
unfolding find
no_and = refl

parse-written_example : parse no_floats (written type_word chat) ≡ parsed chats
parse-written_example =
    parse-written no_floats 0x74 (0x79 ∷ 0x70 ∷ 0x65 ∷ []) chat type_word-IsKey no_call no_and

parse_value-panics_example :
    (parse_value no_floats (0x20 ∷ quote ∷ []) ≡ panicked) ↔ (trim (0x20 ∷ quote ∷ []) ≡ quote ∷ [])
parse_value-panics_example = parse_value-panics no_floats (0x20 ∷ quote ∷ [])

-- Bit patterns that are never compared.
abbrev floats : Floats
floats = record {
  zero32 = 0;
  one32 = 1065353216;
  add32 = λ a b. a;
  mul32 = λ a b. a;
  div32 = λ a b. a;
  sqrt32 = λ a. a;
  eq32 = λ a b. a == b;
  gt32 = λ a b. false;
  eq64 = λ a b. a == b;
  cmp64 = λ a b. none;
}

abbrev six_bytes : List ℕ
six_bytes = 1 ∷ 2 ∷ 3 ∷ 4 ∷ 5 ∷ 6 ∷ []

-- A device on which every block begins with six bytes, and every inode reads as a chat of that size.
record SameDisk : Type 0 where
  pub block_count : ℕ

instance abbrev same_device : BlockDevice SameDisk
same_device = record {
  read_block = λ id len d. (ok six_bytes, d);
  write_block = λ id buf d. (ok tt, d);
  block_count = λ d. d.block_count;
}

abbrev chat_node : Inode
chat_node = record (Inode.new 5 file) {
  size = 6;
  chunks = record { logical_offset = 0; physical_block = 2; length = 4096 } ∷ [];
  attributes = (type_word, string chat) ∷ [];
}

unfoldable chat_codec : Codec Inode
chat_codec = record { serialize = λ node. none; deserialize = λ bytes. some chat_node }

abbrev entry : ℕ → CatalogEntry
entry id = record { key_hash = hash_bytes type_word; val_hash = hash_bytes chat; inode_id = id }

abbrev entries : List CatalogEntry
entries = entry 7 ∷ entry 5 ∷ entry 7 ∷ []

abbrev any_catalog : Codec (List CatalogEntry)
any_catalog = record { serialize = λ es. none; deserialize = λ bytes. some entries }

no_codec : {A : Type 0} → Codec A
no_codec = record { serialize = λ a. none; deserialize = λ bytes. none }

abbrev codecs : Codecs
codecs = record {
  superblock = superblock_codec;
  inode = chat_codec;
  journal_op = op_codec;
  entries = no_codec;
  catalog = any_catalog;
  attribute = no_codec;
}

abbrev state : UnaFs SameDisk
state = record {
  device = record { block_count = 12 };
  superblock = record (Superblock.new 12) { catalog_inode = 4 };
  bitmap = Bitmap.new 12;
  journal = record { write_offset = 0 };
}

candidates-exact_example :
    ((x : ℕ) → contains x (candidates chats entries) ≡ offered x chats entries)
    × IsIncreasing (candidates chats entries)
candidates-exact_example = candidates-exact chats entries

any_id-Holds :
    (id : ℕ) → Holds codecs floats state chats (λ id. chat_node) (λ id. some (string chat)) id
unfolding read_inode from_bytes chat_codec Map.get text_eq
any_id-Holds id = (refl, small refl)

every_id-Holds :
    (ids : List ℕ)
    → All (Holds codecs floats state chats (λ id. chat_node) (λ id. some (string chat))) ids
every_id-Holds [] = tt
every_id-Holds (id ∷ ids) = (any_id-Holds id, every_id-Holds ids)

read_catalog : read_data codecs 4 0 6 state ≡ (ok (six_bytes), state)
unfolding read_data read_inode from_bytes chat_codec read_from_extents read_loop find_block slice
read_catalog = refl

decoded : deserialize_catalog any_catalog (six_bytes) ≡ some entries
unfolding deserialize_catalog
decoded = refl

run_query-IsHit_example :
    (results : List (Inode × ℕ)) × (run_query codecs floats chats state ≡ (ok results, state))
    × ((found : Inode) (score : ℕ)
        → In (found, score) results ↔ (
            (id : ℕ) × In id (candidates chats entries)
            × IsHit codecs floats state chats
                (λ id. chat_node)
                (λ id. some (string chat))
                found
                score
                id))
run_query-IsHit_example =
    run_query-IsHit codecs floats state chats (λ id. chat_node) (λ id. some (string chat)) chat_node
      (six_bytes) entries (λ e. absurd (omega (arith, e))) (any_id-Holds 4).0 read_catalog decoded
      (every_id-Holds (candidates chats entries))
