-- ===== src/Auth/Laws.antt =====
-- About src/auth/auth.service.ts: registration and login.
use mesyaf_market.Prelude.{
  ◌≡◌, refl, ◌∙◌, Bool, none, some, arith, ◌==◌, String, str_eq, eq_iff, inl, inr, Option-cases,
}
use mesyaf_market.Database.Schema.{Role, User}
use mesyaf_market.Database.World.{World, ok}
use mesyaf_market.Database.Rows.{find_row, find-append}
use mesyaf_market.Database.Prisma.{Prisma, Documented, reference, Documented-reference}
use mesyaf_market.Users.{create_user, find_by_email, new_user}
use mesyaf_market.Access.{AuthenticatedUser}
use mesyaf_market.Auth.{
  Bcrypt, DocumentedBcrypt, Jwt, DocumentedJwt, RegisterDto, register, login, generate_token,
  authenticate, registered, claims_of,
}

-- The user that a registration adds.
abbrev pub added_user : Bcrypt → RegisterDto → String → World → User
added_user bcrypt dto salt w =
    new_user (registered dto (bcrypt.hash dto.password salt)) w.now w.db.users.next_id

-- The user that a token of the new user stands for.
abbrev pub signed_up : RegisterDto → World → AuthenticatedUser
signed_up dto w = record {
  id = w.db.users.next_id;
  email = dto.email;
  role = Role.customer;
  deliverer_id = none;
}

register-done :
    (jwt : Jwt) (bcrypt : Bcrypt) (dto : RegisterDto) (salt : String) (token : jwt.Token)
    (w : World)
    → (register jwt reference bcrypt dto salt w).0 ≡ ok token
    → (find_row
          (λ u. str_eq u.email dto.email)
          (register jwt reference bcrypt dto salt w).1.db.users.rows
        ≡ some (added_user bcrypt dto salt w))
      × ((register jwt reference bcrypt dto salt w).1.now ≡ w.now)
      × ((register jwt reference bcrypt dto salt w).1.db.deliverers ≡ w.db.deliverers)
unfolding register create_user
register-done jwt bcrypt dto salt token w h =
    elim (Option-cases (find_row (λ u. str_eq u.email dto.email) w.db.users.rows)) [
      | inr (u, f) ↦ ground arith
      | inl f ↦
          let p : User → Bool = λ u. str_eq u.email dto.email in
          rw f (
            find-append p w.db.users.rows (added_user bcrypt dto salt w)
                ∙ rw (f, (eq_iff dto.email dto.email).1 refl) refl,
            refl,
            refl,
          )
    ]

registered_logs_in :
    (jwt : Jwt) (bcrypt : Bcrypt)
    → DocumentedJwt jwt
    → DocumentedBcrypt bcrypt
    → (dto : RegisterDto) (salt : String) (token : jwt.Token) (w : World)
    → (register jwt reference bcrypt dto salt w).0 ≡ ok token
    → find_row (λ d. d.user_id == w.db.users.next_id) w.db.deliverers.rows ≡ none
    → (t : jwt.Token) × ((login jwt reference bcrypt
          (record { email = dto.email; password = dto.password })
          (register jwt reference bcrypt dto salt w).1).0
        ≡ ok t)
      × (authenticate jwt t (register jwt reference bcrypt dto salt w).1 ≡ some (signed_up dto w))
unfolding login find_by_email generate_token authenticate
registered_logs_in jwt bcrypt dj db dto salt token w h free =
    let (found, clock, same) = register-done jwt bcrypt dto salt token w h in
    (
      jwt.sign (claims_of (added_user bcrypt dto salt w) none) w.now,
      rw (found, same, free, db.compare-hash_lem dto.password salt, clock) refl,
      rw (clock, dj.verify-sign_lem (claims_of (added_user bcrypt dto salt w) none) w.now) refl,
    )

module _ {prisma : Prisma} (d : Documented prisma) where
  -- Whoever registers can log in with the same email and password, and the token then stands for
  -- the new user: the next id, the given email, the role of a customer and no deliverer's id. The
  -- next id is not that of a user with a deliverer's profile.
  pub register_then_login :
      (jwt : Jwt) (bcrypt : Bcrypt)
      → DocumentedJwt jwt
      → DocumentedBcrypt bcrypt
      → (dto : RegisterDto) (salt : String) (token : jwt.Token) (w : World)
      → (register jwt prisma bcrypt dto salt w).0 ≡ ok token
      → prisma.find_first (λ p. p.user_id == w.db.users.next_id) w.db.deliverers ≡ none
      → (t : jwt.Token) × ((login jwt prisma bcrypt
            (record { email = dto.email; password = dto.password })
            (register jwt prisma bcrypt dto salt w).1).0
          ≡ ok t)
        × (authenticate jwt t (register jwt prisma bcrypt dto salt w).1 ≡ some (signed_up dto w))
  register_then_login = rw (Documented-reference d) registered_logs_in
