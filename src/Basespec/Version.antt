-- ===== src/Basespec/Version.antt =====
-- Room versions (src/basespec/rezzy_types.rs): the format that a version label selects, and the
-- state-resolution algorithm that the format selects.
use rezzy.Prelude.{
  ℕ, String, Bool, true, false, Option, none, some, ◌&&◌, ◌||◌, ◌==◌, eqb, leb, if◌then◌else◌,
  and_then,
}

pub data StateResVersion : Type 0 where
  v1 v2 v2_1 v2_1_1 v2_2 v3 : StateResVersion

pub data RoomVersionFormat : Type 0 where
  numeric : ℕ → RoomVersionFormat
  msc4242 msc3389 nutra_cdo : RoomVersionFormat

-- `RoomVersionFormat::parse`
unfoldable pub parse : String → Option RoomVersionFormat
parse room_version =
    if room_version == "1"
    then some (numeric 1)
    else if room_version == "2"
    then some (numeric 2)
    else if room_version == "3"
    then some (numeric 3)
    else if room_version == "4"
    then some (numeric 4)
    else if room_version == "5"
    then some (numeric 5)
    else if room_version == "6"
    then some (numeric 6)
    else if room_version == "7"
    then some (numeric 7)
    else if room_version == "8"
    then some (numeric 8)
    else if room_version == "9"
    then some (numeric 9)
    else if room_version == "10"
    then some (numeric 10)
    else if room_version == "11"
    then some (numeric 11)
    else if room_version == "12" || room_version == "12.1"
    then some (numeric 12)
    else if room_version == "org.matrix.msc4242.12"
    then some msc4242
    else if room_version == "org.matrix.msc3389.10"
    then some msc3389
    else if room_version == "tk.nutra.cdo.12"
    then some nutra_cdo
    else none

-- The `match` of `from_room_version`; `none` stands for its `unreachable!()` arm.
unfoldable pub select_algorithm : RoomVersionFormat → String → Option StateResVersion
select_algorithm (numeric n) ver =
    if eqb n 1
    then some v1
    else if leb 2 n && leb n 11
    then some v2
    else if eqb n 12 && ver == "12.1"
    then some v2_1_1
    else if eqb n 12
    then some v2_1
    else none
select_algorithm msc3389 ver = some v2
select_algorithm msc4242 ver = some v2_2
select_algorithm nutra_cdo ver = some v3

-- `StateResVersion::from_room_version`
unfoldable pub from_room_version : String → Option StateResVersion
unfolding parse select_algorithm
from_room_version ver = and_then (parse ver) (λ format. select_algorithm format ver)

unfoldable pub is_v2_1_plus : StateResVersion → Bool
is_v2_1_plus v1 = false
is_v2_1_plus v2 = false
is_v2_1_plus _ = true

unfoldable pub has_ban_evasion_hardening : StateResVersion → Bool
has_ban_evasion_hardening v2_1_1 = true
has_ban_evasion_hardening v2_2 = true
has_ban_evasion_hardening v3 = true
has_ban_evasion_hardening _ = false

unfoldable pub is_v2_2 : StateResVersion → Bool
is_v2_2 v2_2 = true
is_v2_2 _ = false

unfoldable pub requires_strict_canonical_numbers : RoomVersionFormat → Bool
requires_strict_canonical_numbers (numeric v) = leb 6 v
requires_strict_canonical_numbers _ = true

unfoldable pub uses_v11_redaction_rules : RoomVersionFormat → Bool
uses_v11_redaction_rules (numeric v) = leb 11 v
uses_v11_redaction_rules msc4242 = true
uses_v11_redaction_rules nutra_cdo = true
uses_v11_redaction_rules msc3389 = false

unfoldable pub uses_v12_create_rules : RoomVersionFormat → Bool
uses_v12_create_rules (numeric v) = leb 12 v
uses_v12_create_rules msc4242 = true
uses_v12_create_rules nutra_cdo = true
uses_v12_create_rules msc3389 = false
