-- ===== src/Heif/Dimensions.antt =====
-- `Item.VisualDimensions` of media/heif/heif.go, and the properties that `EncodeImage` is given for it.
use go.Common.{ℕ, zero, suc, ◌%◌, ◌≡◌, refl, arith, some, ◌==◌, if◌then◌else◌}
use go.Heif.Items.{Item, visual_dimensions, spatial_extents, rotations, swap_times}

swap_times_parity : (n w h : ℕ) → swap_times n (w, h) ≡ (if n % 2 == 0 then (w, h) else (h, w))
unfolding swap_times
swap_times_parity zero w h = refl
swap_times_parity (suc n) w h = ground (arith, swap_times_parity n h w)

-- An item with spatial extents has visual dimensions: its extents, with width and height exchanged if
-- the number of its quarter turns is odd.
pub visual_dimensions_lem :
    (it : Item) (w h : ℕ)
    → spatial_extents it.properties ≡ some (w, h)
    → visual_dimensions it ≡ some (if rotations it.properties % 2 == 0 then (w, h) else (h, w))
unfolding visual_dimensions
visual_dimensions_lem it w h e =
    rw (visual_dimensions, e, swap_times_parity (rotations it.properties) w h)
