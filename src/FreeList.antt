-- ===== src/FreeList.antt =====
-- The circular lists of squashfs-tools/caches-queues-lists.h: the functions that INSERT_LIST and
-- REMOVE_LIST expand to.
pub mod Ring
pub mod Insert
pub mod Remove
use squashfs_tools.Common.{ℕ, Bool, ◌&&◌, Option, none, some, if◌then◌else◌, update}
use squashfs_tools.Pointer.{Pointer, same, is_set, update_at}

-- The link fields of all entries, and the variable that `list` points to.
pub record Links : Type 0 where
  pub next : ℕ → Pointer
  pub prev : ℕ → Pointer
  pub head : Pointer

-- The statements of insert_NAME_list at a list that is not empty, `x` being its first entry. The
-- link field of the last entry is written through (*list)->prev.
abbrev pub insert_before : Links → ℕ → ℕ → Links
insert_before l x e =
    let prev' = update l.prev e (l.prev x) in
    record l {
      next = update_at (prev' x) (update l.next e (some x)) (some e);
      prev = update prev' x (some e);
    }

-- The branches of insert_NAME_list, by what *list points to.
abbrev pub insert_at : Links → Pointer → ℕ → Links
insert_at l none e = record {
  next = update l.next e (some e);
  prev = update l.prev e (some e);
  head = some e;
}
insert_at l (some x) e = insert_before l x e

-- insert_NAME_list.
unfoldable pub insert : Links → ℕ → Links
insert l e = insert_at l l.head e

-- The statements of remove_NAME_list for an entry that has neighbours.
abbrev pub unlink : Links → ℕ → Links
unlink l e =
    let prev' = update_at (l.next e) l.prev (l.prev e) in
    let next' = update_at (prev' e) l.next (l.next e) in
    record { next = next'; prev = prev'; head = if same l.head (some e) then next' e else l.head }

abbrev pub clear_links : Links → ℕ → Links
clear_links l e = record l { next = update l.next e none; prev = update l.prev e none }

-- remove_NAME_list.
unfoldable pub remove : Links → ℕ → Links
remove l e =
    clear_links
      (if same (l.prev e) (some e) && same (l.next e) (some e)
        then record l { head = none }
        else (if is_set (l.prev e) && is_set (l.next e) then unlink l e else l))
      e
