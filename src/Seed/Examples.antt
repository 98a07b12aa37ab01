-- ===== src/Seed/Examples.antt =====
-- Examples for the seed.
use mesyaf_market.Prelude.{◌≡◌, some}
use mesyaf_market.Database.World.{ok}
use mesyaf_market.Database.Prisma.{reference, reference-Documented}
use mesyaf_market.Auth.{Claims, login, authenticate}
use mesyaf_market.Auth.Plain.{
  open_tokens, open_tokens-IsDocumented, plain_hash, plain_hash-IsDocumented,
}
use mesyaf_market.Seed.{seed}
use mesyaf_market.Seed.Accounts.{Account, signed_in_as, seeded_accounts_log_in}
use mesyaf_market.Sample.{placed}

seeded_accounts_log_in_example :
    let w' = (seed reference plain_hash "salt" placed).1 in
    ((seed reference plain_hash "salt" placed).0 ≡ ok tt)
    × (t : Claims) × ((login open_tokens reference plain_hash
          (record { email = "deliverer@test.com"; password = "password123" })
          w').0
        ≡ ok t)
    × (authenticate open_tokens t w' ≡ some (signed_in_as Account.deliverer placed))
seeded_accounts_log_in_example =
    seeded_accounts_log_in reference-Documented open_tokens plain_hash open_tokens-IsDocumented
      plain_hash-IsDocumented "salt" Account.deliverer placed
