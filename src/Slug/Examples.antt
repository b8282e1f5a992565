-- ===== src/Slug/Examples.antt =====
-- An internationalized name.
use drfed.Common.{◌≡◌, true, ◌↔◌}
use drfed.Common.Text.{codes}
use drfed.Slug.{is_valid_slug}
use drfed.Slug.Laws.{IsLabel, is_valid_slug_iff}

is_valid_slug_iff_example :
    (is_valid_slug (codes "xn--e1aybc") ≡ true) ↔ IsLabel (codes "xn--e1aybc")
is_valid_slug_iff_example = is_valid_slug_iff (codes "xn--e1aybc")
