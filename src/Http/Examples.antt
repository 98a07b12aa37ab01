-- ===== src/Http/Examples.antt =====
-- Examples for the requests.
use mesyaf_market.Prelude.{◌≡◌, ◌≤◌, refl, none, some, [], ◌∷◌, true, List, map, str_eq}
use mesyaf_market.Database.Schema.{Role}
use mesyaf_market.Database.World.{ok, err, plain}
use mesyaf_market.Database.Prisma.{reference, reference-Documented}
use mesyaf_market.Database.Cache.{redis_reference}
use mesyaf_market.Auth.{Claims, authenticate}
use mesyaf_market.Auth.Plain.{open_tokens, plain_hash}
use mesyaf_market.Access.{AuthenticatedUser}
use mesyaf_market.Users.{OrderWithItems, status_matches}
use mesyaf_market.Http.Shops.{accept_order}
use mesyaf_market.Http.Accounts.{read_own_orders}
use mesyaf_market.Http.Requests.{Server, Read, Write, AdminWrite, read, write, admin, serve}
use mesyaf_market.Http.Reads.{reads_change_nothing}
use mesyaf_market.Http.Guests.{guests_change_nothing}
use mesyaf_market.Http.Powers.{admins, verified_profiles}
use mesyaf_market.Http.Grants.{Visit, history, HasNoAdmin, powers_are_granted}
use mesyaf_market.Http.Decided.{accepted}
use mesyaf_market.Http.Accepted.{no_order_is_accepted}
use mesyaf_market.Http.Shown.{orders_are_shown_to_all}
use mesyaf_market.Sample.{placed, whole, settings}

abbrev server : Server
server = record {
  prisma = reference;
  redis = redis_reference;
  texts = record { stringify = λ f. "{}"; contains = λ a b. str_eq a b };
  float = whole;
  settings = settings;
  bcrypt = plain_hash;
  jwt = open_tokens;
}

abbrev token_of : Role → Claims
token_of role = record { sub = 2; email = "vendor@shop"; role = role; deliverer_id = none }

reads_change_nothing_example :
    (serve server (some (token_of Role.customer)) (read (Read.own_orders none)) placed).1.db
    ≡ placed.db
reads_change_nothing_example =
    reads_change_nothing server reference-Documented (some (token_of Role.customer))
      (Read.own_orders none) placed

guests_change_nothing_example :
    (serve server none (write (Write.batch_test 1)) placed).1.db ≡ placed.db
guests_change_nothing_example =
    guests_change_nothing server reference-Documented none (write (Write.batch_test 1)) placed refl
      refl

-- A vendor who asks to be verified, by the routes of the vendors and of the administrators.
abbrev attempts : List (Visit server)
attempts =
    (1000001, some (token_of Role.vendor), write (Write.activation true))
    ∷ (1000002, some (token_of Role.vendor), admin (AdminWrite.approval 1 true none))
    ∷ (1000003, some (token_of Role.vendor), admin (AdminWrite.role 2 Role.admin none))
    ∷ []

attempts-HasNoAdmin : HasNoAdmin server attempts placed
unfolding authenticate
attempts-HasNoAdmin = (λ e. cc, (λ e. cc, (λ e. cc, tt)))

powers_are_granted_example :
    (admins reference (history server attempts placed).db ≤ admins reference placed.db)
    × (verified_profiles reference (history server attempts placed).db
        ≤ verified_profiles reference placed.db)
powers_are_granted_example =
    powers_are_granted server reference-Documented attempts placed attempts-HasNoAdmin

-- The vendor of the waiting order cannot accept it.
acceptance_fails : accept_order reference 1 placed ≡ (err plain, placed)
unfolding accept_order
acceptance_fails = refl

no_order_is_accepted_example :
    accepted reference
      (history server
        ((1000001, some (token_of Role.vendor), write (Write.acceptance 1)) ∷ [])
        placed).db
    ≤ accepted reference placed.db
no_order_is_accepted_example =
    no_order_is_accepted server reference-Documented
      ((1000001, some (token_of Role.vendor), write (Write.acceptance 1)) ∷ []) placed

abbrev stranger : AuthenticatedUser
stranger = record { id = 9; email = "x@y"; role = Role.customer; deliverer_id = none }

orders_are_shown_to_all_example :
    (os : List OrderWithItems) × (read_own_orders reference (some stranger) none placed
      ≡ (ok os, placed))
    × (map (λ (r : OrderWithItems). r.order) os
        ≡ reference.find_many (λ o. status_matches none o.status) placed.db.orders)
orders_are_shown_to_all_example = orders_are_shown_to_all reference stranger none placed
