-- ===== src/Auth/Examples.antt =====
-- Examples for registration and login.
use mesyaf_market.Prelude.{◌≡◌, refl, some, none, ◌==◌}
use mesyaf_market.Database.Schema.{Role}
use mesyaf_market.Database.World.{ok}
use mesyaf_market.Database.Rows.{find_row}
use mesyaf_market.Database.Prisma.{reference, reference-Documented}
use mesyaf_market.Users.{create_user}
use mesyaf_market.Auth.{Claims, RegisterDto, register, login, authenticate, generate_token}
use mesyaf_market.Auth.Plain.{
  open_tokens, open_tokens-IsDocumented, plain_hash, plain_hash-IsDocumented,
}
use mesyaf_market.Auth.Laws.{register_then_login, signed_up}
use mesyaf_market.Sample.{placed}

abbrev lina : RegisterDto
lina = record { name = "Lina"; email = "lina@market.test"; password = "secret" }

abbrev lina_claims : Claims
lina_claims = record {
  sub = 10;
  email = "lina@market.test";
  role = Role.customer;
  deliverer_id = none;
}

registers : (register open_tokens reference plain_hash lina "salt" placed).0 ≡ ok lina_claims
unfolding register create_user generate_token find_row
registers = refl

no_profile :
    reference.find_first (λ p. p.user_id == placed.db.users.next_id) placed.db.deliverers ≡ none
unfolding find_row
no_profile = refl

register_then_login_example :
    (t : Claims) × ((login open_tokens reference plain_hash
        (record { email = "lina@market.test"; password = "secret" })
        (register open_tokens reference plain_hash lina "salt" placed).1).0
      ≡ ok t)
    × (authenticate open_tokens t (register open_tokens reference plain_hash lina "salt" placed).1
        ≡ some (signed_up lina placed))
register_then_login_example =
    register_then_login reference-Documented open_tokens plain_hash open_tokens-IsDocumented
      plain_hash-IsDocumented lina "salt" lina_claims placed registers no_profile
