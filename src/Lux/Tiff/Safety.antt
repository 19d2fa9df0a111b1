-- ===== src/Lux/Tiff/Safety.antt =====
-- libs/lux/src/parser.rs: on any file the search for the raw image ends without an index out of bounds.
use una_os.Prelude.{ℕ, zero, suc, ◌+◌, ◌*◌, ◌^◌, ◌≤◌, ◌<◌, ◌≡◌, ◌⊎◌}
use una_os.Prelude.{List, [], ◌∷◌, ◌&&◌, ◌||◌, not, Option, none, some, arith}
use una_os.Prelude.{ltb, leb, ◌==◌, if◌then◌else◌, ltb→le}
use una_os.Prelude.{length, slice, length-slice, All, IsByte, All-get_or}
use una_os.Lux.{Parsed, parsed, ◌>>=◌, Ensures, Ensures-bind, Ensures-if}
use una_os.Lux.Tiff.{Endianness, little, big, read_u16, read_u32, byte, inline_short, read_shorts}
use una_os.Lux.Tiff.{read_longs, extract_array, Directory, parse_entry, parse_entries, no_tags}
use una_os.Lux.Tiff.{parse_directories, holds_raw, RawImage, first_strip, select_strip, byte_order}
use una_os.Lux.Tiff.{locate}

-- The widths of the fields that the tags set.
pub record IsDirectory (dir : Directory) : Type 0 where
  pub width : dir.width < 2 ^ 32
  pub height : dir.height < 2 ^ 32

abbrev Any : {A : Type 0} → A → Type 0
Any a = Unit {0}

abbrev Found : Option Directory → Type 0
Found none = Unit {0}
Found (some dir) = IsDirectory dir

-- What the later stages rely on: the bytes are a slice of the file.
pub record IsLocated (mmap : List ℕ) (raw : RawImage) : Type 0 where
  pub width : raw.width < 2 ^ 32
  pub height : raw.height < 2 ^ 32
  pub start : ℕ
  pub inside : start + length raw.bytes ≤ length mmap
  pub bytes : raw.bytes ≡ slice mmap start (length raw.bytes)
  pub supported : (raw.compression ≡ 1) ⊎ (raw.compression ≡ 32769)

module _ (e : Endianness) (mmap : List ℕ) (bytes : All IsByte mmap) where
  byte-lt : (at : ℕ) → byte mmap at < 256
  byte-lt at = All-get_or IsByte mmap at 0 bytes (omega arith)

  read_u16_in : (at : ℕ) → at + 2 ≤ length mmap → Ensures (λ v. v < 65536) (read_u16 e mmap at)
  unfolding read_u16
  read_u16_in at h = elim e as (λ e. Ensures (λ v. v < 65536) (read_u16 e mmap at)) [
    | little ↦ ground (arith, byte-lt at, byte-lt (at + 1))
    | big ↦ ground (arith, byte-lt at, byte-lt (at + 1))
  ]

  read_u32_in : (at : ℕ) → at + 4 ≤ length mmap → Ensures (λ v. v < 2 ^ 32) (read_u32 e mmap at)
  unfolding read_u32
  read_u32_in at h = elim e as (λ e. Ensures (λ v. v < 2 ^ 32) (read_u32 e mmap at)) [
    | little ↦ ground (arith, byte-lt at, byte-lt (at + 1), byte-lt (at + 2), byte-lt (at + 3))
    | big ↦ ground (arith, byte-lt at, byte-lt (at + 1), byte-lt (at + 2), byte-lt (at + 3))
  ]

  after_u16 :
      {B : Type 0} (Q : B → Type 0) (at : ℕ) (f : ℕ → Parsed B)
      → at + 2 ≤ length mmap
      → ((v : ℕ) → v < 65536 → Ensures Q (f v))
      → Ensures Q (read_u16 e mmap at >>= f)
  after_u16 Q at f h k = Ensures-bind (λ v. v < 65536) Q (read_u16 e mmap at) f (read_u16_in at h) k

  after_u32 :
      {B : Type 0} (Q : B → Type 0) (at : ℕ) (f : ℕ → Parsed B)
      → at + 4 ≤ length mmap
      → ((v : ℕ) → v < 2 ^ 32 → Ensures Q (f v))
      → Ensures Q (read_u32 e mmap at >>= f)
  after_u32 Q at f h k =
      Ensures-bind (λ v. v < 2 ^ 32) Q (read_u32 e mmap at) f (read_u32_in at h) k

  read_shorts_in : (n at : ℕ) → at + n * 2 ≤ length mmap → Ensures Any (read_shorts e mmap at n)
  unfolding read_shorts
  read_shorts_in zero at h = tt
  read_shorts_in (suc n) at h = after_u16 Any at _ (omega arith) λ v _.
      Ensures-bind Any Any (read_shorts e mmap (at + 2) n) _
        (read_shorts_in n (at + 2) (omega arith)) (λ rest _. tt)

  read_longs_in : (n at : ℕ) → at + n * 4 ≤ length mmap → Ensures Any (read_longs e mmap at n)
  unfolding read_longs
  read_longs_in zero at h = tt
  read_longs_in (suc n) at h = after_u32 Any at _ (omega arith) λ v _.
      Ensures-bind Any Any (read_longs e mmap (at + 4) n) _ (read_longs_in n (at + 4) (omega arith))
        (λ rest _. tt)

  extract_array_in :
      (field_type count slot : ℕ) → Ensures Any (extract_array e mmap field_type count slot)
  unfolding extract_array
  extract_array_in field_type count slot =
      ground (arith, read_shorts_in count slot, read_longs_in count slot)

  inline_short-lt : (v : ℕ) → inline_short e v < 2 ^ 32
  unfolding inline_short
  inline_short-lt v = elim e as (λ e. inline_short e v < 2 ^ 32) [
    | little ↦ omega arith
    | big ↦ omega arith
  ]

  store_arrays :
      (array : Parsed (List ℕ)) (store : List ℕ → Directory)
      → Ensures Any array
      → ((v : List ℕ) → IsDirectory (store v))
      → Ensures IsDirectory (array >>= (λ v. parsed (store v)))
  store_arrays array store h k = Ensures-bind Any IsDirectory array _ h (λ v _. k v)

  parse_entry_in :
      (at : ℕ) (dir : Directory)
      → at + 12 ≤ length mmap
      → IsDirectory dir
      → Ensures IsDirectory (parse_entry e mmap at dir)
  unfolding parse_entry
  parse_entry_in at dir h d = after_u16 IsDirectory at _ (omega arith) λ tag _.
      after_u16 IsDirectory (at + 2) _ (omega arith) λ field_type _.
        after_u32 IsDirectory (at + 4) _ (omega arith) λ count _.
          after_u32 IsDirectory (at + 8) _ (omega arith) λ slot small.
            let value = if field_type == 3 && count == 1 then inline_short e slot else slot in
            let fits : value < 2 ^ 32 = ground (arith, inline_short-lt slot) in
            let array = extract_array e mmap field_type count slot in
            let safe = extract_array_in field_type count slot in
            Ensures-if IsDirectory (tag == 256) _ _
              (λ _. record { width = fits; height = d.height })
              λ _.
                Ensures-if IsDirectory (tag == 257) _ _
                  (λ _. record { width = d.width; height = fits })
                  λ _.
                    Ensures-if IsDirectory (tag == 259) _ _
                      (λ _. record { width = d.width; height = d.height })
                      λ _.
                        Ensures-if IsDirectory (tag == 273) _ _
                          (λ _.
                            store_arrays array (λ v. record dir { strip_offsets = v }) safe
                              (λ v. record { width = d.width; height = d.height }))
                          λ _.
                            Ensures-if IsDirectory (tag == 279) _ _
                              (λ _.
                                store_arrays array (λ v. record dir { strip_byte_counts = v }) safe
                                  (λ v. record { width = d.width; height = d.height }))
                              (λ _. d)

  parse_entries_in :
      (n at : ℕ) (dir : Directory)
      → at + n * 12 ≤ length mmap
      → IsDirectory dir
      → Ensures IsDirectory (parse_entries e mmap at n dir)
  unfolding parse_entries
  parse_entries_in zero at dir h d = d
  parse_entries_in (suc n) at dir h d =
      Ensures-bind IsDirectory IsDirectory (parse_entry e mmap at dir) _
        (parse_entry_in at dir (omega arith) d)
        (λ dir' d'. parse_entries_in n (at + 12) dir' (omega arith) d')

  parse_directories_in :
      (rounds current : ℕ) (dir : Directory)
      → IsDirectory dir
      → Ensures Found (parse_directories rounds e mmap current dir)
  unfolding parse_directories
  parse_directories_in zero current dir d = tt
  parse_directories_in (suc rounds) current dir d =
      Ensures-if Found (ltb (length mmap) (current + 2)) _ _ (λ _. tt)
        λ header. after_u16 Found current _ (ltb→le _ _ header) λ n _.
          Ensures-if Found (ltb (length mmap) (current + 2 + n * 12 + 4)) _ _ (λ _. tt)
            λ inside.
              let room = ltb→le (length mmap) (current + 2 + n * 12 + 4) inside in
              Ensures-bind IsDirectory Found (parse_entries e mmap (current + 2) n dir) _
                (parse_entries_in n (current + 2) dir (omega arith) d)
                λ dir' d'. after_u32 Found (current + 2 + n * 12) _ room λ next_ifd _.
                  Ensures-if Found (holds_raw dir') _ _ (λ _. d')
                    λ _.
                      Ensures-if Found (next_ifd == 0 || leb (length mmap) next_ifd) _ _ (λ _. tt)
                        (λ _. parse_directories_in rounds next_ifd dir' d')

  first_strip_in :
      (dir : Directory) (offsets counts : List ℕ)
      → IsDirectory dir
      → (dir.compression ≡ 1) ⊎ (dir.compression ≡ 32769)
      → Ensures (IsLocated mmap) (first_strip mmap dir offsets counts)
  unfolding first_strip
  first_strip_in dir [] counts d s = tt
  first_strip_in dir (o ∷ os) [] d s = tt
  first_strip_in dir (o ∷ os) (n ∷ ns) d s =
      Ensures-if (IsLocated mmap) (ltb (length mmap) (o + n)) _ _ (λ _. tt)
        λ fits.
          let size = length-slice mmap o n (ltb→le (length mmap) (o + n) fits) in
          record {
            width = d.width;
            height = d.height;
            start = o;
            inside = rw size (ltb→le (length mmap) (o + n) fits);
            bytes = rw size;
            supported = s;
          }

  select_strip_in :
      (found : Option Directory) → Found found → Ensures (IsLocated mmap) (select_strip mmap found)
  unfolding select_strip
  select_strip_in none f = tt
  select_strip_in (some dir) f =
      Ensures-if (IsLocated mmap) (not (dir.compression == 1) && not (dir.compression == 32769)) _ _
        (λ _. tt)
        (λ known. first_strip_in dir dir.strip_offsets dir.strip_byte_counts f (ground arith))

byte_order-Any : (a b : ℕ) → Ensures Any (byte_order a b)
unfolding byte_order
byte_order-Any a b = ground arith

-- On any file the directories are searched without an index out of bounds: the result is an error, or
-- a slice of the file, with dimensions that fit 32 bits and a compression that is one of the two decoded.
pub locate-IsLocated : (mmap : List ℕ) → All IsByte mmap → Ensures (IsLocated mmap) (locate mmap)
unfolding locate
locate-IsLocated mmap bytes =
    Ensures-if (IsLocated mmap) (ltb (length mmap) 8) _ _ (λ _. tt)
      λ long.
        let room = ltb→le (length mmap) 8 long in
        Ensures-bind Any (IsLocated mmap) (byte_order (byte mmap 0) (byte mmap 1)) _
          (byte_order-Any (byte mmap 0) (byte mmap 1))
          λ e _. after_u16 e mmap bytes (IsLocated mmap) 2 _ (omega arith) λ magic _.
            Ensures-if (IsLocated mmap) (not (magic == 42)) _ _ (λ _. tt)
              λ _. after_u32 e mmap bytes (IsLocated mmap) 4 _ (omega arith) λ first _.
                Ensures-if (IsLocated mmap) (leb (length mmap) first || ltb first 8) _ _ (λ _. tt)
                  λ _.
                    Ensures-bind Found (IsLocated mmap) (parse_directories 10 e mmap first no_tags)
                      _ (parse_directories_in e mmap bytes 10 first no_tags (omega arith))
                      (select_strip_in e mmap bytes)
