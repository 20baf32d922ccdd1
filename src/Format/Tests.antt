-- ===== src/Format/Tests.antt =====
-- The packing on concrete inputs.
use squashfs_tools.Common.{◌≡◌, refl}
use squashfs_tools.Format.{Flags, make_flags}

-- Duplicate checking, an export table, and no extended attributes.
abbrev usual : Flags
usual = record {
  noi = 0;
  nod = 0;
  nof = 0;
  nox = 0;
  noid = 0;
  no_frag = 0;
  always_frag = 0;
  duplicate_checking = 1;
  exportable = 1;
  no_xattr = 1;
  comp_opt = 0;
}

usual_word : make_flags usual ≡ 0x2c0
unfolding make_flags
usual_word = refl
