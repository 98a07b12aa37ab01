-- ===== src/Http/Guards.antt =====
-- What stands before a handler (src/common/guards/roles.guard.ts and the guards that the decorators
-- of the controllers name), and what wraps its answer (src/common/services/response.service.ts).
use mesyaf_market.Prelude.{ℕ, Bool, true, false, not, Option, none, some, List, String}
use mesyaf_market.Database.Schema.{Role}
use mesyaf_market.Database.World.{
  Exec, pure, throw_if, or_throw, ◌>>=◌, ◌>>◌, unauthorized, forbidden, plain,
}
use mesyaf_market.Access.{AuthenticatedUser, can_activate}

-- The user of a valid token, where the request has one.
abbrev pub Caller : Type 0
Caller = Option AuthenticatedUser

-- @UseGuards(AuthGuard('jwt'))
unfoldable pub signed_in : Caller → Exec AuthenticatedUser
signed_in caller = or_throw caller unauthorized

-- @UseGuards(AuthGuard('jwt'), RolesGuard) @Roles(…); a guard that answers false is a 403.
unfoldable pub with_role : List Role → Caller → Exec AuthenticatedUser
unfolding signed_in can_activate
with_role roles caller = do
  user ← signed_in caller
  allowed ← can_activate (some roles) (some user)
  throw_if (not allowed) forbidden
  pure user

-- @UseGuards(RolesGuard) with no AuthGuard: nothing has set `req.user`.
unfoldable pub without_user : List Role → Exec (Unit {0})
unfolding can_activate
without_user roles = do allowed ← can_activate (some roles) none; throw_if (not allowed) forbidden

-- `req.user` in a handler without a guard is `undefined`, and reading its `id` is a TypeError.
abbrev pub unset_user : Exec AuthenticatedUser
unset_user = or_throw none plain

-- The body of an answer.
pub record Envelope (A : Type 0) : Type 0 where
  pub success : Bool
  pub message : String
  pub content : Option A
  pub status_code : Option ℕ

module _ {A : Type 0} where
  -- ResponseService.success, to which no caller gives `meta`
  abbrev pub success_with : String → Option A → Envelope A
  success_with message content = record {
    success = true;
    message = message;
    content = content;
    status_code = none;
  }

  -- ResponseService.error
  abbrev pub error_with : String → ℕ → Envelope A
  error_with message code = record {
    success = false;
    message = message;
    content = none;
    status_code = some code;
  }

  -- ResponseService.created
  abbrev pub created_with : String → Option A → Envelope A
  created_with message content = record {
    success = true;
    message = message;
    content = content;
    status_code = some 201;
  }
