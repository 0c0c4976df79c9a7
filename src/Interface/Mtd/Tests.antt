-- ===== src/Interface/Mtd/Tests.antt =====
-- The MTD interface at a concrete partition.
use nvram.Base.{Keeps, same, [], ◌≡◌, refl, arith, some, Bytes, codes, ok}
use nvram.Samples.{runtime}
use nvram.Posix.{write_all, closing}
use nvram.Interface.Mtd.Descriptors.{mtd-Keeps}
use nvram.Interface.Machine.{
  posix-Counted, Machine, posix, posix-Flash, libmtd, pin, pin-IsPin, posix-Pin, IsHigh-pin,
}
use nvram.Interface.Mtd.{
  MtdPriv, find_mtd, search_range, search_from, closing_mtd, lookup_mtd, at_exit, returned_number,
  nvram_mtd_read, nvram_mtd_write, rewrite_mtd, set_write_protect, set_gpio, write_gpio,
  returned_errno, erase_mtd,
}
use nvram.Interface.Mtd.Find.{FoundMtd, find_mtd-FoundMtd}
use nvram.Interface.Mtd.Restore.{nvram_mtd_read-nvram_mtd_write}
use nvram.Interface.Mtd.Protect.{nvram_mtd_write-IsHigh}

abbrev machine : Machine
machine = record { files = λ path. codes "old"; table = λ fd. []; count = 3 }

abbrev contents : Bytes
contents = codes "a=1\n"

abbrev partition : MtdPriv
partition = record { label = codes "nvram"; path = codes "/dev/mtd1"; size = 64; gpio = some pin }

after_mtd : Machine
unfolding nvram_mtd_write rewrite_mtd set_write_protect set_gpio write_gpio returned_errno erase_mtd
    closing write_all
after_mtd = (nvram_mtd_write runtime posix libmtd partition contents machine).1

find_mtd-FoundMtd_example : FoundMtd runtime posix libmtd (codes "nvram") 1 64
unfolding find_mtd search_range search_from closing_mtd lookup_mtd at_exit returned_number same
find_mtd-FoundMtd_example = find_mtd-FoundMtd runtime posix libmtd (codes "nvram") machine refl

-- The pin holds 1.
abbrev protected : Machine
protected = record { files = λ path. codes "1"; table = λ fd. []; count = 3 }

nvram_mtd_write-IsHigh_example :
    posix-Pin.IsHigh (nvram_mtd_write runtime posix libmtd partition contents protected).1
nvram_mtd_write-IsHigh_example =
    nvram_mtd_write-IsHigh runtime posix libmtd pin posix-Pin partition contents protected refl
      (IsHigh-pin protected refl)

nvram_mtd_read-nvram_mtd_write_example :
    (u : Machine) × (nvram_mtd_read runtime posix libmtd partition 3 after_mtd
      ≡ (ok (codes "a=1"), u))
    × posix-Flash.Holds partition.path contents u
unfolding after_mtd same
nvram_mtd_read-nvram_mtd_write_example =
    nvram_mtd_read-nvram_mtd_write runtime posix libmtd posix-Flash partition contents machine
      after_mtd (omega arith) pin-IsPin refl 3 (omega arith)

mtd-Keeps_example :
    Keeps posix-Counted.count (nvram_mtd_read runtime posix libmtd partition 4)
    × Keeps posix-Counted.count (nvram_mtd_write runtime posix libmtd partition contents)
mtd-Keeps_example = mtd-Keeps libmtd posix-Counted partition contents 4
