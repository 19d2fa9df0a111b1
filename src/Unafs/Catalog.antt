-- ===== src/Unafs/Catalog.antt =====
-- libs/unafs/src/catalog.rs: the attribute catalog.
use una_os.Prelude.{ℕ, List, [], ◌∷◌, ◌++◌, Option, some, ◌≡◌, refl, ◌∙◌, sym}
use una_os.Prelude.{to_be_bytes}
use una_os.Prelude.Text.{Text}
use una_os.Unafs.Codec.{Codec}
use una_os.Unafs.Hash.{fnv_offset_basis, write, hash_bytes, write-append}
use una_os.Unafs.Inode.{AttributeValue, int, float, string, blob, vector}

pub record CatalogEntry : Type 0 where
  pub key_hash : ℕ
  pub val_hash : ℕ
  pub inode_id : ℕ

-- `for f in v { hasher.write(&f.to_be_bytes()) }`
write_floats : ℕ → List ℕ → ℕ
write_floats state [] = state
write_floats state (f ∷ fs) = write_floats (write state (to_be_bytes 4 f)) fs

pub hash_value : AttributeValue → ℕ
unfolding write_floats
hash_value (int i) = write fnv_offset_basis (to_be_bytes 8 i)
hash_value (float f) = write fnv_offset_basis (to_be_bytes 8 f)
hash_value (string s) = write fnv_offset_basis s
hash_value (blob b) = write fnv_offset_basis b
hash_value (vector v) = write_floats fnv_offset_basis v

unfoldable pub new : Text → AttributeValue → ℕ → CatalogEntry
new key value inode_id = record {
  key_hash = hash_bytes key;
  val_hash = hash_value value;
  inode_id = inode_id;
}

unfoldable pub serialize_catalog : Codec (List CatalogEntry) → List CatalogEntry → Option (List ℕ)
serialize_catalog codec entries = codec.serialize entries

unfoldable pub deserialize_catalog : Codec (List CatalogEntry) → List ℕ → Option (List CatalogEntry)
deserialize_catalog codec [] = some []
deserialize_catalog codec (b ∷ bytes) = codec.deserialize (b ∷ bytes)

-- The bytes that stand for a value: the payload alone, with no mark of its variant.
abbrev pub float_bytes : List ℕ → List ℕ
float_bytes [] = []
float_bytes (f ∷ fs) = to_be_bytes 4 f ++ float_bytes fs

abbrev pub payload : AttributeValue → List ℕ
payload (int i) = to_be_bytes 8 i
payload (float f) = to_be_bytes 8 f
payload (string s) = s
payload (blob b) = b
payload (vector v) = float_bytes v

write_floats-write :
    (state : ℕ) (fs : List ℕ) → write_floats state fs ≡ write state (float_bytes fs)
unfolding write_floats write
write_floats-write state [] = refl
write_floats-write state (f ∷ fs) =
    write_floats-write (write state (to_be_bytes 4 f)) fs
    ∙ sym (write-append state (to_be_bytes 4 f) (float_bytes fs))

-- A value is hashed by its payload, in every variant: the hash of the value is `hash_bytes` of the
-- payload's bytes, the floats of a vector one after the other.
pub hash_value-payload : (v : AttributeValue) → hash_value v ≡ hash_bytes (payload v)
unfolding hash_value hash_bytes
hash_value-payload (int i) = refl
hash_value-payload (float f) = refl
hash_value-payload (string s) = refl
hash_value-payload (blob b) = refl
hash_value-payload (vector v) = write_floats-write fnv_offset_basis v
