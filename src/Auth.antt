-- ===== src/Auth.antt =====
-- src/auth/auth.service.ts and src/auth/jwt.strategy.ts: registration, login, and the user that a
-- token stands for. bcrypt and JwtService are parameters.
pub mod Laws
pub mod Plain
mod Examples
use mesyaf_market.Prelude.{ℕ, Bool, true, false, Option, none, some, not, ◌≡◌, String}
use mathlib.Core.Option
use mesyaf_market.Database.Schema.{Role, User, DelivererProfile}
use mesyaf_market.Database.World.{
  World, Exec, pure, throw_if, or_throw, gets, ◌>>=◌, ◌>>◌, unauthorized,
}
use mesyaf_market.Database.Prisma.{Prisma}
use mesyaf_market.Users.{UserDto, UserWithProfiles, create_user, find_by_email}
use mesyaf_market.Access.{AuthenticatedUser}

-- bcrypt: `hash` with the salt that it draws, and `compare`.
pub record Bcrypt : Type 0 where
  pub hash : (password salt : String) → String
  pub compare : (password hashed : String) → Bool

-- What is documented of bcrypt: a password matches its own hash.
pub record DocumentedBcrypt (bcrypt : Bcrypt) : Type 0 where
  pub compare-hash_lem :
      (password salt : String) → bcrypt.compare password (bcrypt.hash password salt) ≡ true

-- The payload of a token.
pub record Claims : Type 0 where
  pub sub : ℕ
  pub email : String
  pub role : Role
  pub deliverer_id : Option ℕ

-- JwtService, with its tokens: `sign` writes the time into the token.
pub record Jwt : Type 1 where
  pub Token : Type 0
  pub sign : Claims → ℕ → Token
  pub verify : Token → ℕ → Option Claims

-- What is documented of JwtService: a token is valid when it was signed.
pub record DocumentedJwt (jwt : Jwt) : Type 0 where
  pub verify-sign_lem : (c : Claims) (now : ℕ) → jwt.verify (jwt.sign c now) now ≡ some c

-- RegisterDto
pub record RegisterDto : Type 0 where
  pub name : String
  pub email : String
  pub password : String

-- LoginDto
pub record LoginDto : Type 0 where
  pub email : String
  pub password : String

-- `{ ...dto, password: hashedPassword }`
abbrev pub registered : RegisterDto → String → UserDto
registered dto hashed = record {
  name = dto.name;
  email = dto.email;
  password = hashed;
  role = none;
  profile_image = none;
  phone_number = none;
  address = none;
}

abbrev pub claims_of : User → Option DelivererProfile → Claims
claims_of u d = record {
  sub = u.id;
  email = u.email;
  role = u.role;
  deliverer_id = Option.map (λ p. p.id) d;
}

-- JwtStrategy.validate
abbrev pub validate : Claims → AuthenticatedUser
validate c = record { id = c.sub; email = c.email; role = c.role; deliverer_id = c.deliverer_id }

module _ (jwt : Jwt) where
  -- AuthService.generateToken
  unfoldable pub generate_token : User → Option DelivererProfile → Exec jwt.Token
  generate_token u d = gets (λ w. jwt.sign (claims_of u d) w.now)

  -- The strategy with JwtService: the user of a request, for a token that is valid.
  unfoldable pub authenticate : jwt.Token → World → Option AuthenticatedUser
  authenticate token w = Option.map validate (jwt.verify token w.now)

  module _ (prisma : Prisma) (bcrypt : Bcrypt) where
    -- AuthService.register
    unfoldable pub register : RegisterDto → String → Exec jwt.Token
    unfolding generate_token
    register dto salt = do
      user ← create_user prisma (registered dto (bcrypt.hash dto.password salt))
      generate_token user none

    -- AuthService.login
    unfoldable pub login : LoginDto → Exec jwt.Token
    unfolding generate_token
    login dto = do
      found ← find_by_email prisma dto.email
      u ← or_throw found unauthorized
      throw_if (not (bcrypt.compare dto.password u.user.password)) unauthorized
      generate_token u.user u.deliverer
