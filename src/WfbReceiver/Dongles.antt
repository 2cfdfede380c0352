-- ===== src/WfbReceiver/Dongles.antt =====
-- `GetDongleList` of src/wifi/WFBReceiver.cpp, and how `Start` reads the name of an adapter.
pub mod Sorted
pub mod Named
mod Tests
use open_prlx.Prelude.{
  ℕ, zero, suc, ◌+◌, ◌-◌, ◌*◌, ◌/◌, ◌%◌, ◌^◌, ◌==◌, ◌&&◌, ◌||◌, not, if◌then◌else◌, ltb, leb, Bool,
  true, false, Option, none, some, List, [], ◌∷◌, ◌++◌, ascii, ◌>>=◌,
}
use open_prlx.Wire.{Bytes, same_bytes}
use open_prlx.ControlServer.Text.{skip_space}

-- What the code reads of a device's descriptor; the ids have 16 bits.
pub record Descriptor : Type 0 where
  pub device_class : ℕ
  pub id_vendor : ℕ
  pub id_product : ℕ

-- A digit in base 16.
abbrev pub hex_digit : ℕ → ℕ
hex_digit d = if ltb d 10 then 48 + d else 87 + d

-- A number of 16 bits with `setw(4)`, `setfill('0')` and `hex`.
abbrev pub hex4 : ℕ → Bytes
hex4 n =
    hex_digit (n / 4096 % 16)
    ∷ hex_digit (n / 256 % 16)
    ∷ hex_digit (n / 16 % 16)
    ∷ hex_digit (n % 16)
    ∷ []

unfoldable pub name_of : Descriptor → Bytes
name_of d = hex4 d.id_vendor ++ (58 ∷ hex4 d.id_product)

-- The loop over the devices. A descriptor that cannot be got is none, and the class of a device whose
-- interfaces have their own is 0.
unfoldable pub names : List (Option Descriptor) → List Bytes
names [] = []
names (none ∷ devs) = names devs
names (some d ∷ devs) =
    let rest = names devs in if d.device_class == 0 then name_of d ∷ rest else rest

-- `<` of strings.
unfoldable pub less : Bytes → Bytes → Bool
less a [] = false
less [] (y ∷ b) = true
less (x ∷ a) (y ∷ b) = ltb x y || ((x == y) && less a b)

unfoldable pub is_special : Bytes → Bool
is_special s =
    same_bytes s (ascii "0b05:17d2")
    || same_bytes s (ascii "0bda:8812")
    || same_bytes s (ascii "0bda:881a")

-- The comparison that the sort is given.
unfoldable pub before : Bytes → Bytes → Bool
before a b =
    if is_special a && not (is_special b)
    then true
    else if is_special b && not (is_special a)
    then false
    else less a b

-- `std::sort`.
unfoldable pub insert_name : Bytes → List Bytes → List Bytes
insert_name x [] = x ∷ []
insert_name x (y ∷ ys) = let rest = insert_name x ys in if before y x then y ∷ rest else x ∷ y ∷ ys

unfoldable pub sort_names : List Bytes → List Bytes
sort_names [] = []
sort_names (x ∷ xs) = insert_name x (sort_names xs)

-- none is that the devices cannot be listed.
unfoldable pub get_dongle_list : Option (List (Option Descriptor)) → List Bytes
get_dongle_list none = []
get_dongle_list (some devs) = sort_names (names devs)

abbrev hex_value : ℕ → Option ℕ
hex_value c =
    if leb 48 c && leb c 57
    then some (c - 48)
    else if leb 65 c && leb c 70
    then some (c - 55)
    else if leb 97 c && leb c 102
    then some (c - 87)
    else none

-- The digits of a number, after `n`: its value, and what follows.
unfoldable pub hex_digits : ℕ → Bytes → ℕ × Bytes
hex_digits n [] = (n, [])
hex_digits n (c ∷ s) = elim (hex_value c) [ none ↦ (n, c ∷ s) | some d ↦ hex_digits (n * 16 + d) s ]

-- Whether a number begins here.
abbrev has_digit : Bytes → Bool
has_digit [] = false
has_digit (c ∷ s) = elim (hex_value c) [ none ↦ false | some d ↦ true ]

unfoldable pub skip_prefix : Bytes → Bytes
skip_prefix [] = []
skip_prefix (c ∷ []) = c ∷ []
skip_prefix (c ∷ d ∷ s) = if (c == 48) && ((d == 120) || (d == 88)) then s else c ∷ d ∷ s

-- `iss >> std::hex >> n`, on an unsigned number of 32 bits, after the blanks: whether it goes well,
-- the number, and what follows. A number that is too large becomes the largest.
abbrev pub read_digits : (ℕ → ℕ) → Bytes → Bool × ℕ × Bytes
read_digits sign s =
    let (n, rest) = hex_digits 0 s in
    if not (has_digit s)
    then (false, 0, rest)
    else if ltb n (2 ^ 32)
    then (true, sign n, rest)
    else (false, 2 ^ 32 - 1, rest)

unfoldable pub read_hex : Bytes → Bool × ℕ × Bytes
read_hex [] = (false, 0, [])
read_hex (c ∷ s) =
    if c == 45
    then read_digits (λ n. (2 ^ 32 - n) % 2 ^ 32) (skip_prefix s)
    else if c == 43
    then read_digits (λ n. n) (skip_prefix s)
    else read_digits (λ n. n) (skip_prefix (c ∷ s))

-- The product after the character that stands between. none is that it is not set.
abbrev pub product_at : Bytes → Option ℕ
product_at [] = none
product_at (c ∷ s) = some (read_hex (c ∷ s)).1

abbrev pub read_product : Bytes → Option ℕ
read_product [] = none
read_product (c ∷ s) = product_at (skip_space s)

-- The vendor and the product that `libusb_open_device_with_vid_pid` is called with, as 16 bits. none
-- is that `wifiDevicePid`, or `wifiDeviceVid` as well, is read unset.
unfoldable pub read_vid_pid : Bytes → Option (ℕ × ℕ)
read_vid_pid s =
    let (good, vendor, rest) = read_hex (skip_space s) in
    if not good
    then none
    else do product ← read_product (skip_space rest); some (vendor % 2 ^ 16, product % 2 ^ 16)
