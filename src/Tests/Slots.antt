-- ===== src/Tests/Slots.antt =====
-- fs/kfs_slot.c on a mounted file system whose device is full of zeroes.
use kanekfs.Base.{pos, negsuc, List, [], ◌∷◌, ◌≡◌, refl, some, true}
use kanekfs.Disk.{Page}
use kanekfs.Disk.Layout.{kfs_magic, kfs_is_mounted}
use kanekfs.Super.Mount.{no_sb, no_table, kfs_active}
use kanekfs.Slot.{Slots}
use kanekfs.Slot.Failing.{Call, reserve, remove, run_calls, run_calls-fail}

abbrev zeroes : Page
zeroes off = 0

abbrev mounted : Slots
mounted = record {
  sb = record no_sb {
    sb_magic = kfs_magic;
    sb_flags = kfs_is_mounted;
    sb_page_cache = some true;
    sb_slot_table = record no_table { table_capacity = 204; table_in_use = 1 };
  };
  dev = λ addr off. 0;
}

mounted-active : kfs_active mounted.sb ≡ some (pos 0)
unfolding kfs_active
mounted-active = refl

abbrev two_calls : List Call
two_calls = reserve (some zeroes) (some zeroes) ∷ remove 3 (some zeroes) (some zeroes) ∷ []

run_calls-fail_example : run_calls two_calls mounted ≡ some (negsuc 0 ∷ negsuc 0 ∷ [], mounted)
run_calls-fail_example = run_calls-fail two_calls mounted mounted-active
