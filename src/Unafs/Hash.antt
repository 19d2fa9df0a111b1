-- ===== src/Unafs/Hash.antt =====
-- libs/unafs/src/hash.rs: FNV-1a on 64 bits.
use una_os.Prelude.{ℕ, ◌*◌, ◌%◌, ◌^◌, ◌<◌, bit_xor, List, [], ◌∷◌, ◌++◌, ◌≡◌, refl, arith}

abbrev pub fnv_offset_basis : ℕ
fnv_offset_basis = 0xcbf29ce484222325

abbrev pub fnv_prime : ℕ
fnv_prime = 0x100000001b3

-- The state of an `FnvHasher` is its 64-bit word.
unfoldable pub write : ℕ → List ℕ → ℕ
write state [] = state
write state (byte ∷ bytes) = write (bit_xor state byte * fnv_prime % 2 ^ 64) bytes

unfoldable pub hash_bytes : List ℕ → ℕ
unfolding write
hash_bytes bytes = write fnv_offset_basis bytes

-- Hashing in pieces is hashing the whole: a second `write` goes on where the first ended.
pub write-append : (state : ℕ) (xs ys : List ℕ) → write state (xs ++ ys) ≡ write (write state xs) ys
unfolding write
write-append state [] ys = refl
write-append state (x ∷ xs) ys = write-append (bit_xor state x * fnv_prime % 2 ^ 64) xs ys

-- The state stays a 64-bit word.
pub write-lt : (state : ℕ) (xs : List ℕ) → state < 2 ^ 64 → write state xs < 2 ^ 64
unfolding write
write-lt state [] h = h
write-lt state (x ∷ xs) h = write-lt (bit_xor state x * fnv_prime % 2 ^ 64) xs (omega arith)
