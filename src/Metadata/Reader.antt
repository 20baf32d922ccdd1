-- ===== src/Metadata/Reader.antt =====
-- Blocks of metadata as squashfs-tools/unsquashfs.c reads them: read_fs_bytes, read_block,
-- get_metadata with its hash table, read_metadata.
use squashfs_tools.Common.{
  ℕ, zero, suc, ◌+◌, ◌-◌, ◌*◌, ◌%◌, ◌^◌, Bool, true, false, Option, none, some, List, [], ◌∷◌, ◌++◌,
  length, take, drop, update, if◌then◌else◌, ◌==◌, ltb, leb, ◌>>=◌,
}
use squashfs_tools.Format.{metadata_size, compressed_size, is_compressed}
use squashfs_tools.Metadata.{Compressor}

-- The image as unsquashfs sees it, from start_offset on.
pub record Image : Type 0 where
  pub bytes : List ℕ
  pub swap : Bool
  pub check_data : Bool

-- read_fs_bytes; `none` is FALSE: the image ends before.
unfoldable pub read_fs_bytes : Image → ℕ → ℕ → Option (List ℕ)
read_fs_bytes image byte bytes =
    if bytes == 0
    then some []
    else (if leb (byte + bytes) (length image.bytes)
        then some (take bytes (drop byte image.bytes))
        else none)

-- The size word of read_block.
abbrev pub size_word : Bool → List ℕ → ℕ
size_word false (lo ∷ hi ∷ []) = lo + hi * 256
size_word true (lo ∷ hi ∷ []) = hi + lo * 256
size_word swap bytes = 0

-- Behind the size word: 2, or 3 where SQUASHFS_CHECK_DATA.
abbrev pub data_offset : Image → ℕ
data_offset image = if image.check_data then 3 else 2

-- The bytes of a block, as its size word says.
unfoldable pub unpack : Compressor → ℕ → ℕ → List ℕ → Option (List ℕ)
unpack c outlen c_byte bytes =
    if is_compressed c_byte then c.uncompress bytes outlen else some bytes

-- read_block: the block, and where the next one starts.
unfoldable pub read_block : Compressor → Image → ℕ → ℕ → Option (List ℕ × ℕ)
unfolding read_fs_bytes unpack
read_block c image start expected =
    let outlen = if expected == 0 then metadata_size else expected in
    if ltb metadata_size outlen then none else do
      word ← read_fs_bytes image start 2
      let c_byte = size_word image.swap word
      let size = compressed_size c_byte
      bytes ←
          (if ltb outlen size then none else read_fs_bytes image (start + data_offset image) size)
      block ← unpack c outlen c_byte bytes
      if expected == 0
          then some (block, start + data_offset image + size)
          else (if expected == length block
              then some (block, start + data_offset image + size)
              else none)

-- struct hash_table_entry, and a hash table as the lists of its buckets.
pub record Entry : Type 0 where
  pub start : ℕ
  pub buffer : List ℕ
  pub next_index : ℕ

abbrev pub Table : Type 0
Table = ℕ → List Entry

-- TABLE_HASH.
abbrev pub table_hash : ℕ → ℕ
table_hash start = start % 2 ^ 16

-- The search of get_metadata.
unfoldable pub find_start : ℕ → List Entry → Option Entry
find_start start [] = none
find_start start (e ∷ es) = if e.start == start then some e else find_start start es

-- A block that get_metadata reads; read_block's FALSE is 0, so that a block of no bytes fails too.
unfoldable pub fetch : Compressor → Image → ℕ → Option Entry
fetch c image start = do
  (block, next) ← read_block c image start 0
  if length block == 0
      then none
      else some (record { start = start; buffer = block; next_index = next })

abbrev keep : Table → ℕ → Option Entry → Option Entry × Table
keep table start none = (none, table)
keep table start (some e) = (some e, update table (table_hash start) (e ∷ table (table_hash start)))

-- get_metadata: the entry, and the table behind it.
unfoldable pub get_metadata : Compressor → Image → Table → ℕ → Option Entry × Table
get_metadata c image table start = elim (find_start start (table (table_hash start))) [
  | some e ↦ (some e, table)
  | none ↦ keep table start (fetch c image start)
]

-- A place in a table: the block's start and the offset in its data.
pub record Place : Type 0 where
  pub blk : ℕ
  pub off : ℕ

-- What read_metadata does: `failed` is FALSE; `got` has the bytes of the buffer, and *blk, *off.
pub data Read : Type 0 where
  failed : Read
  stuck : Read
  got : List ℕ → Place → Read

-- memcpy of the first part of the bytes.
abbrev pub behind : List ℕ → Read → Read
behind copied failed = failed
behind copied stuck = stuck
behind copied (got bytes place) = got (copied ++ bytes) place

-- The loop of read_metadata, of `rounds` rounds at most: `rest` is the loop from the next block on.
abbrev pub copy : (Table → ℕ → ℕ → Read × Table) → Entry → Table → Place → ℕ → Read × Table
copy rest e table place len =
    let here = length e.buffer - place.off in
    if ltb here len
    then (let (r, t) = rest table e.next_index (len - here) in
        (behind (take here (drop place.off e.buffer)) r, t))
    else (if here == len
        then (
          got (take len (drop place.off e.buffer)) (record { blk = e.next_index; off = 0 }),
          table,
        )
        else (
          got (take len (drop place.off e.buffer))
              (record { blk = place.blk; off = place.off + len }),
          table,
        ))

unfoldable pub read_loop : Compressor → Image → ℕ → Table → Place → ℕ → Read × Table
read_loop c image zero table place len = (stuck, table)
read_loop c image (suc rounds) table place len =
    let (o, t) = get_metadata c image table place.blk in
    elim o [
      | none ↦ (failed, t)
      | some e ↦ elim (leb (length e.buffer) place.off) [
        | true ↦ (failed, t)
        | false ↦
            copy (λ t' blk len'. read_loop c image rounds t' (record { blk = blk; off = 0 }) len') e
              t place len
      ]
    ]

-- read_metadata; a round copies a byte or ends.
unfoldable pub read_metadata : Compressor → Image → Table → Place → ℕ → Read × Table
read_metadata c image table place len = read_loop c image (len + 1) table place len

-- What was read, unless reading failed.
abbrev pub bytes_of : Read → Option (List ℕ × Place)
bytes_of failed = none
bytes_of stuck = none
bytes_of (got bytes place) = some (bytes, place)
