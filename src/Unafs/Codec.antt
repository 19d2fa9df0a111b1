-- ===== src/Unafs/Codec.antt =====
-- The `bincode` crate, which is not part of this repository: a serialiser for each type that UnaFS
-- stores. `none` is a `bincode::Error`.
use una_os.Prelude.{ℕ, List, ◌++◌, Option, none, some, ◌≡◌, ◌<◌, length}
use una_os.Unafs.Storage.{block_size}

pub record Codec (A : Type 0) : Type 0 where
  pub serialize : A → Option (List ℕ)
  pub deserialize : List ℕ → Option A

-- `bincode::deserialize` reads back what `bincode::serialize` wrote, and ignores bytes behind it.
pub record IsRoundTrip {A : Type 0} (codec : Codec A) : Type 0 where
  pub reads_back :
      (a : A) (bytes rest : List ℕ)
      → codec.serialize a ≡ some bytes
      → codec.deserialize (bytes ++ rest) ≡ some a

-- A record that does not serialise into a block: it is not serialised, or its bytes are more.
abbrev pub DoesNotFit : Option (List ℕ) → Type 0
DoesNotFit none = Unit {0}
DoesNotFit (some bytes) = block_size < length bytes
