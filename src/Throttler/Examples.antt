-- ===== src/Throttler/Examples.antt =====
-- Examples for the rate limit.
use mesyaf_market.Prelude.{◌≡◌, refl, ◌∷◌, [], none, false, arith}
use mesyaf_market.Database.Rows.{find_row}
use mesyaf_market.Database.Cache.{hits, block, redis_reference, redis_reference-Documented}
use mesyaf_market.Throttler.{increment}
use mesyaf_market.Throttler.Passed.{passed, was_blocked, requests_are_limited}
use mesyaf_market.Throttler.Recovers.{after_requests, requests_pass_again}
use mesyaf_market.Sample.{placed}

no_hits : redis_reference.get (hits "default" "user-1") placed.now placed.cache ≡ none
unfolding find_row
no_hits = refl

no_block : redis_reference.get (block "default" "user-1") placed.now placed.cache ≡ none
unfolding find_row
no_block = refl

-- A limit of 2 in 60 seconds lets 2 of 3 requests through, which come in 50 seconds.
requests_are_limited_example :
    passed redis_reference "user-1" 60000 2 60000 "default" (0 ∷ 20000 ∷ 30000 ∷ []) placed ≡ 2
requests_are_limited_example =
    requests_are_limited redis_reference-Documented "user-1" "default" 60000 2 60000
      (0 ∷ 20000 ∷ 30000 ∷ []) placed no_hits no_block (omega arith) (omega arith)

-- A minute after 3 requests, 2 of which passed, the next one passes.
requests_pass_again_example :
    was_blocked
      (increment redis_reference "user-1" 60000 2 30000 "default"
        (record (after_requests redis_reference "user-1" 60000 2 30000 "default" 3 placed) {
          now = 1060000;
        })).0
    ≡ false
requests_pass_again_example =
    requests_pass_again redis_reference-Documented "user-1" "default" 60000 2 30000 3 1060000 placed
      no_hits no_block (omega arith) (omega arith) (omega arith)
