-- ===== src/Examples/Labels.antt =====
-- Tests of the version number that a room's label stands for (src/auth/mod.rs,
-- `get_room_version_num`): a number is itself, a label of V2.1 or later counts as 12, and
-- any other label counts as 1, also that of a version based on 10.
use rezzy.Prelude.{◌≡◌, refl, String, some, [], ◌∷◌, ok}
use rezzy.Basespec.Event.{StateProvider, m_room_create, empty_content}
use rezzy.Auth.State.{get_room_version_num}
use rezzy.Examples.Room.{state_event, find}
use rezzy.Examples.Auth.{program}

abbrev labelled : String → StateProvider
labelled label = find (
    state_event "$create" m_room_create "" "@alice:x"
      (record empty_content { room_version = some label })
    ∷ [])

number_of_10 : get_room_version_num (labelled "10") ≡ ok 10
unfolding program
number_of_10 = refl

number_of_msc4242 : get_room_version_num (labelled "org.matrix.msc4242.12") ≡ ok 12
unfolding program
number_of_msc4242 = refl

number_of_msc3389 : get_room_version_num (labelled "org.matrix.msc3389.10") ≡ ok 1
unfolding program
number_of_msc3389 = refl
