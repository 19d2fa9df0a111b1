-- ===== src/Lux/Tiff.antt =====
-- libs/lux/src/parser.rs: the byte order, the directories of the TIFF container, and where they say
-- the raw image lies.
pub mod Safety
use una_os.Prelude.{ℕ, zero, suc, ◌+◌, ◌*◌, ◌/◌, ◌%◌, ◌^◌, List, [], ◌∷◌, Bool, true, false}
use una_os.Prelude.{◌&&◌, ◌||◌, not, Option, none, some, ltb, leb, ◌==◌, if◌then◌else◌}
use una_os.Prelude.{length, get_or, slice}
use una_os.Lux.{LuxError, buffer_too_small, invalid_magic, missing_data, unsupported_compression}
use una_os.Lux.{corrupt_data, Parsed, panicked, failed, parsed, ◌>>=◌}

pub data Endianness : Type 0 where
  little big : Endianness

abbrev pub byte : List ℕ → ℕ → ℕ
byte mmap at = get_or mmap at 0

-- `self.read_u16(&mmap[at..at + 2])`, and `&mmap[at..]`, whose first two bytes it reads.
unfoldable pub read_u16 : Endianness → List ℕ → ℕ → Parsed ℕ
read_u16 little mmap at =
    if leb (at + 2) (length mmap)
    then parsed (byte mmap at + 256 * byte mmap (at + 1))
    else panicked
read_u16 big mmap at =
    if leb (at + 2) (length mmap)
    then parsed (256 * byte mmap at + byte mmap (at + 1))
    else panicked

unfoldable pub read_u32 : Endianness → List ℕ → ℕ → Parsed ℕ
read_u32 little mmap at =
    if leb (at + 4) (length mmap)
    then parsed (
        byte mmap at
        + 256 * byte mmap (at + 1)
        + 65536 * byte mmap (at + 2)
        + 16777216 * byte mmap (at + 3))
    else panicked
read_u32 big mmap at =
    if leb (at + 4) (length mmap)
    then parsed (
        16777216 * byte mmap at
        + 65536 * byte mmap (at + 1)
        + 256 * byte mmap (at + 2)
        + byte mmap (at + 3))
    else panicked

-- `(v >> 16) & 0xFFFF`, or `v & 0xFFFF`: a single SHORT in its four-byte slot.
pub inline_short : Endianness → ℕ → ℕ
inline_short big v = (v / 65536) % 65536
inline_short little v = v % 65536

pub read_shorts : Endianness → List ℕ → ℕ → ℕ → Parsed (List ℕ)
unfolding read_u16
read_shorts e mmap at zero = parsed []
read_shorts e mmap at (suc left) = do
  v ← read_u16 e mmap at
  rest ← read_shorts e mmap (at + 2) left
  parsed (v ∷ rest)

pub read_longs : Endianness → List ℕ → ℕ → ℕ → Parsed (List ℕ)
unfolding read_u32
read_longs e mmap at zero = parsed []
read_longs e mmap at (suc left) = do
  v ← read_u32 e mmap at
  rest ← read_longs e mmap (at + 4) left
  parsed (v ∷ rest)

pub extract_array : Endianness → List ℕ → ℕ → ℕ → ℕ → Parsed (List ℕ)
unfolding inline_short read_shorts read_longs
extract_array e mmap field_type count value_or_offset =
    if count == 1
    then parsed ((if field_type == 3 then inline_short e value_or_offset else value_or_offset) ∷ [])
    else if field_type == 3
    then (if ltb (length mmap) (value_or_offset + count * 2)
        then failed corrupt_data
        else read_shorts e mmap value_or_offset count)
    else if field_type == 4
    then (if ltb (length mmap) (value_or_offset + count * 4)
        then failed corrupt_data
        else read_longs e mmap value_or_offset count)
    else failed corrupt_data

-- The variables that the entries set.
pub record Directory : Type 0 where
  pub width : ℕ
  pub height : ℕ
  pub compression : ℕ
  pub strip_offsets : List ℕ
  pub strip_byte_counts : List ℕ

abbrev pub no_tags : Directory
no_tags = record {
  width = 0;
  height = 0;
  compression = 0;
  strip_offsets = [];
  strip_byte_counts = [];
}

-- The body of the loop over the entries.
pub parse_entry : Endianness → List ℕ → ℕ → Directory → Parsed Directory
unfolding extract_array
parse_entry e mmap at dir = do
  tag ← read_u16 e mmap at
  field_type ← read_u16 e mmap (at + 2)
  count ← read_u32 e mmap (at + 4)
  slot ← read_u32 e mmap (at + 8)
  let value = if field_type == 3 && count == 1 then inline_short e slot else slot
  (if tag == 256
      then parsed (record dir { width = value })
      else if tag == 257
      then parsed (record dir { height = value })
      else if tag == 259
      then parsed (record dir { compression = value % 65536 })
      else if tag == 273
      then extract_array e mmap field_type count slot
        >>= (λ v. parsed (record dir { strip_offsets = v }))
      else if tag == 279
      then extract_array e mmap field_type count slot
        >>= (λ v. parsed (record dir { strip_byte_counts = v }))
      else parsed dir)

pub parse_entries : Endianness → List ℕ → ℕ → ℕ → Directory → Parsed Directory
unfolding parse_entry
parse_entries e mmap at zero dir = parsed dir
parse_entries e mmap at (suc left) dir = do
  dir ← parse_entry e mmap at dir
  parse_entries e mmap (at + 12) left dir

abbrev pub is_empty : List ℕ → Bool
is_empty [] = true
is_empty (x ∷ xs) = false

-- `!strip_offsets.is_empty() && (compression == 1 || ...)`
abbrev pub holds_raw : Directory → Bool
holds_raw dir =
    not (is_empty dir.strip_offsets)
    && (dir.compression == 1 || (dir.compression == 32769 || dir.compression == 32767))

-- `for _ in 0..10`, from the directory at `current` on; `none` is `!found_raw`.
pub parse_directories : ℕ → Endianness → List ℕ → ℕ → Directory → Parsed (Option Directory)
unfolding parse_entries
parse_directories zero e mmap current dir = parsed none
parse_directories (suc rounds) e mmap current dir =
    if ltb (length mmap) (current + 2) then parsed none else (do
      num_entries ← read_u16 e mmap current
      let at = current + 2
      (if ltb (length mmap) (at + num_entries * 12 + 4) then failed corrupt_data else (do
        dir ← parse_entries e mmap at num_entries dir
        next_ifd ← read_u32 e mmap (at + num_entries * 12)
        let rest = parse_directories rounds e mmap next_ifd dir
        (if holds_raw dir
            then parsed (some dir)
            else if next_ifd == 0 || leb (length mmap) next_ifd
            then parsed none
            else rest))))

-- What the directories say of the raw image, with its bytes.
pub record RawImage : Type 0 where
  pub width : ℕ
  pub height : ℕ
  pub compression : ℕ
  pub bytes : List ℕ

-- The first strip; `strip_offsets[0]` and `strip_byte_counts[0]`.
first_strip : List ℕ → Directory → List ℕ → List ℕ → Parsed RawImage
first_strip mmap dir [] counts = failed missing_data
first_strip mmap dir (o ∷ os) [] = failed missing_data
first_strip mmap dir (data_offset ∷ os) (data_size ∷ cs) =
    if ltb (length mmap) (data_offset + data_size)
    then failed corrupt_data
    else parsed (record {
      width = dir.width;
      height = dir.height;
      compression = dir.compression;
      bytes = slice mmap data_offset data_size;
    })

pub select_strip : List ℕ → Option Directory → Parsed RawImage
unfolding first_strip
select_strip mmap none = failed missing_data
select_strip mmap (some dir) =
    if not (dir.compression == 1) && not (dir.compression == 32769)
    then failed (unsupported_compression dir.compression)
    else first_strip mmap dir dir.strip_offsets dir.strip_byte_counts

-- `b"II"`, `b"MM"`
pub byte_order : ℕ → ℕ → Parsed Endianness
byte_order a b =
    if a == 0x49 && b == 0x49
    then parsed little
    else if a == 0x4d && b == 0x4d
    then parsed big
    else failed invalid_magic

-- `parse_arw` up to the slice of the raw bytes.
unfoldable pub locate : List ℕ → Parsed RawImage
unfolding byte_order parse_directories select_strip
locate mmap = if ltb (length mmap) 8 then failed buffer_too_small else (do
  e ← byte_order (byte mmap 0) (byte mmap 1)
  magic ← read_u16 e mmap 2
  (if not (magic == 42) then failed invalid_magic else (do
    first_ifd ← read_u32 e mmap 4
    (if leb (length mmap) first_ifd || ltb first_ifd 8
        then failed corrupt_data
        else (do found ← parse_directories 10 e mmap first_ifd no_tags; select_strip mmap found)))))
