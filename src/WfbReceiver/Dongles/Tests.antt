-- ===== src/WfbReceiver/Dongles/Tests.antt =====
-- Three adapters, of which one is on the list of special ones.
use open_prlx.Prelude.{◌≡◌, arith, Option, none, some, List, [], ◌∷◌}
use mathlib.Core.List.{Perm, Pairwise}
use open_prlx.Wire.{Bytes}
use open_prlx.WfbReceiver.Dongles.{Descriptor, names, get_dongle_list, name_of, read_vid_pid}
use open_prlx.WfbReceiver.Dongles.Sorted.{MayPrecede, get_dongle_list-sorted}
use open_prlx.WfbReceiver.Dongles.Named.{read_vid_pid-name_of}

abbrev radio : Descriptor
radio = record { device_class = 0; id_vendor = 3034; id_product = 34834 }

abbrev devices : List (Option Descriptor)
devices =
    some (record { device_class = 0; id_vendor = 1133; id_product = 49291 })
    ∷ none
    ∷ some radio
    ∷ some (record { device_class = 9; id_vendor = 7531; id_product = 2 })
    ∷ []

get_dongle_list-sorted_example :
    Perm (get_dongle_list (some devices)) (names devices)
    × Pairwise MayPrecede (get_dongle_list (some devices))
    × ((ys : List Bytes)
        → Perm ys (names devices)
        → Pairwise MayPrecede ys
        → ys ≡ get_dongle_list (some devices))
get_dongle_list-sorted_example = get_dongle_list-sorted devices

read_vid_pid-name_of_example : read_vid_pid (name_of radio) ≡ some (3034, 34834)
read_vid_pid-name_of_example = read_vid_pid-name_of radio (omega arith) (omega arith)
