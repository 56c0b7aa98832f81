-- ===== src/Models/Coverage.antt =====
-- `PermSet.Covers` and `PermSet.Any` against inclusion of the sets of actions.
use file_tag_system.Prelude.{true, false, ◌≡◌, ◌↔◌, arith}
use file_tag_system.Models.{
  Action, read, write_meta, write_file, manage, admin, PermSet, has, covers, any_action,
}

-- Every action of `t` is one of `s`.
abbrev pub Includes : PermSet → PermSet → Type 0
Includes s t = (a : Action) → has t a ≡ true → has s a ≡ true

covers_sound : (s t : PermSet) → covers s t ≡ true → Includes s t
unfolding covers
covers_sound s t h read = ground arith
covers_sound s t h write_meta = ground arith
covers_sound s t h write_file = ground arith
covers_sound s t h manage = ground arith
covers_sound s t h admin = ground arith

covers_complete : (s t : PermSet) → Includes s t → covers s t ≡ true
unfolding covers
covers_complete s t h = ground (arith, h read, h write_meta, h write_file, h manage, h admin)

-- `Covers` holds exactly when every action of the second set is in the first.
pub covers-iff_Includes : (s t : PermSet) → (covers s t ≡ true) ↔ Includes s t
covers-iff_Includes s t = (covers_sound s t, covers_complete s t)

-- `Any` is false exactly when the set has no action.
pub any_action-iff_empty : (s : PermSet) → (any_action s ≡ false) ↔ ((a : Action) → has s a ≡ false)
any_action-iff_empty s = (empty, full)
  where
    empty : any_action s ≡ false → (a : Action) → has s a ≡ false
    empty h read = unfold any_action has in ground arith
    empty h write_meta = unfold any_action has in ground arith
    empty h write_file = unfold any_action has in ground arith
    empty h manage = unfold any_action has in ground arith
    empty h admin = unfold any_action has in ground arith

    full : ((a : Action) → has s a ≡ false) → any_action s ≡ false
    full h =
        unfold any_action has in
        ground (arith, h read, h write_meta, h write_file, h manage, h admin)
