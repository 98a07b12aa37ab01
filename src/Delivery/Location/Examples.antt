-- ===== src/Delivery/Location/Examples.antt =====
-- An example for the positions of several deliverers.
use mesyaf_market.Prelude.{
  ◌≡◌, refl, Option, none, some, List, [], ◌∷◌, ◌==◌, any, if◌then◌else◌, arith,
}
use mesyaf_market.Database.Schema.{Float}
use mesyaf_market.Database.World.{World, ok}
use mesyaf_market.Database.Rows.{find_row, filter_rows, count_rows}
use mesyaf_market.Database.Prisma.{reference, reference-Documented}
use mesyaf_market.Delivery.Location.{
  Source, get_many, get_location, cached_of, stored_of, fetch_missing,
}
use mesyaf_market.Delivery.Location.Many.{Entry, entry_of, get_many_agrees}
use mesyaf_market.Sample.{placed}

-- The second deliverer's position is in Redis, the first one's in the table only.
abbrev tracked : World
tracked = record placed { live = λ id. if id == 2 then some (3, 4) else none }

both_known :
    get_many reference (1 ∷ 2 ∷ 5 ∷ []) tracked ≡ (ok ((2, 3, 4) ∷ (1, 7, 8) ∷ []), tracked)
unfolding get_many cached_of stored_of fetch_missing filter_rows any
both_known = refl

get_many_agrees_example :
    (found : List Entry) × (loc : Option (Float × Float × Source)) × (get_many reference
        (1 ∷ 2 ∷ 5 ∷ [])
        tracked
      ≡ (ok found, tracked))
    × (get_location reference 1 tracked ≡ (ok loc, tracked))
    × (find_row (λ e. e.0 == 1) found
        ≡ (if any (λ j. j == 1) (1 ∷ 2 ∷ 5 ∷ []) then entry_of 1 loc else none))
unfolding count_rows
get_many_agrees_example =
    get_many_agrees reference-Documented (1 ∷ 2 ∷ 5 ∷ []) 1 tracked (omega arith)
