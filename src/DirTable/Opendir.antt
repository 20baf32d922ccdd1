-- ===== src/DirTable/Opendir.antt =====
-- squashfs_opendir of squashfs-tools/unsquash-4.c, from the directory's inode on. What it reads with
-- read_directory_data is a parameter; Metadata.Reading has it.
use squashfs_tools.Common.{
  ℕ, zero, suc, ◌+◌, ◌-◌, ◌%◌, ◌^◌, Bool, ◌&&◌, Option, none, some, List, [], ◌∷◌, ◌++◌, map,
  if◌then◌else◌, ◌==◌, ltb, leb, ◌>>=◌,
}
use squashfs_tools.Directory.{check_name, check_directory}
use squashfs_tools.Directory.Sort.{DirEnt}
use squashfs_tools.DirTable.{entry_size, header_size, name_len}
use squashfs_tools.Format.Fields.{short_at, int_at}
use squashfs_tools.Metadata.Reader.{Place, Read, bytes_of}

-- SQUASHFS_DIR_COUNT.
abbrev pub dir_count_max : ℕ
dir_count_max = 256

-- The test of dir_count, an int that gets dirh.count + 1.
abbrev pub too_many : ℕ → Bool
too_many count = ltb dir_count_max count && ltb count (2 ^ 31)

-- The int `size`, and no round where it is not above 0.
abbrev pub bytes_wanted : ℕ → ℕ
bytes_wanted file_size =
    if ltb ((file_size - 3) % 2 ^ 32) (2 ^ 31) then (file_size - 3) % 2 ^ 32 else 0

module _ (read : Place → ℕ → Read) where
  -- A round of the inner loop: an entry with the start block of its header, and how many bytes it has.
  unfoldable pub read_entry : ℕ → Place → Option (DirEnt × ℕ × Place)
  read_entry start_block place = do
    (dire, place') ← bytes_of (read place entry_size)
    (name, place'') ←
        (if leb name_len (short_at 6 dire)
          then none
          else bytes_of (read place' (short_at 6 dire + 1)))
    if check_name name (short_at 6 dire + 1)
        then some (
          record {
            name = name;
            start_block = start_block;
            offset = short_at 0 dire;
            kind = short_at 4 dire;
          },
          entry_size + (short_at 6 dire + 1),
          place'',
        )
        else none

  -- The inner loop.
  unfoldable pub read_entries : ℕ → ℕ → Place → Option (List DirEnt × ℕ × Place)
  unfolding read_entry
  read_entries zero start_block place = some ([], 0, place)
  read_entries (suc dir_count) start_block place = do
    (entry, bytes, place') ← read_entry start_block place
    (entries, more, place'') ← read_entries dir_count start_block place'
    some (entry ∷ entries, bytes + more, place'')

  -- The outer loop over `size` bytes, of `rounds` rounds at most.
  unfoldable pub read_groups : ℕ → ℕ → Place → Option (List DirEnt)
  unfolding read_entries
  read_groups rounds zero place = some []
  read_groups zero (suc size) place = none
  read_groups (suc rounds) (suc size) place = do
    (dirh, place') ← bytes_of (read place header_size)
    (entries, bytes, place'') ←
        (if too_many ((int_at 0 dirh + 1) % 2 ^ 32)
          then none
          else read_entries ((int_at 0 dirh + 1) % 2 ^ 32) (int_at 4 dirh) place')
    others ← read_groups rounds (suc size - (header_size + bytes)) place''
    some (entries ++ others)

  -- squashfs_opendir: the entries of a directory of `file_size` at a place; `none` is NULL. Each round
  -- of the outer loop takes 12 bytes, so that as many rounds as there are bytes are enough.
  unfoldable pub opendir : ℕ → Place → Option (List DirEnt)
  unfolding read_groups
  opendir file_size place = if file_size == 3 then some [] else do
    entries ← read_groups (bytes_wanted file_size) (bytes_wanted file_size) place
    if check_directory (map (λ (e : DirEnt). e.name) entries) then some entries else none
