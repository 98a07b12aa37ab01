-- ===== src/Http/Requests.antt =====
-- The routes of the application: a request of a client, and what it does. The rate limit stands in
-- Throttler.
use mesyaf_market.Prelude.{ℕ, Bool, Option, none, some, List, String}
use mesyaf_market.Database.Schema.{Role, OrderStatus, JobStatus}
use mesyaf_market.Database.World.{World, Exec, pure, throw, ◌>>◌, bad_request}
use mesyaf_market.Database.Prisma.{Prisma}
use mesyaf_market.Database.Cache.{Redis}
use mesyaf_market.Products.Filter.{ProductFilter}
use mesyaf_market.Products.Catalog.{Texts}
use mesyaf_market.Products.Editing.{ProductDto, ProductUpdate}
use mesyaf_market.Products.Media.{ImageDto}
use mesyaf_market.Vendor.Profiles.{VendorDto, VendorUpdate}
use mesyaf_market.Delivery.Geo.{FloatOps}
use mesyaf_market.Delivery.Profiles.{DelivererUpdate}
use mesyaf_market.Order.Batching.{Settings}
use mesyaf_market.Order.Create.{OrderDto}
use mesyaf_market.Access.{UserUpdate}
use mesyaf_market.Auth.{Jwt, Bcrypt, RegisterDto, LoginDto, authenticate}
use mesyaf_market.Http.Guards.{Caller, signed_in}
use mesyaf_market.Http.Catalog.{
  post_product, patch_product, drop_product, read_product, read_vendor_products, read_products,
  post_image, drop_image, drop_images, post_tags, drop_tags, drop_all_tags,
}
use mesyaf_market.Http.Shops.{
  post_profile, read_own_profile, patch_profile, drop_profile, patch_active, read_shop,
  patch_request, read_vendor_orders, accept_order, reject_order,
}
use mesyaf_market.Http.Admin.{
  read_users, read_pending, patch_approval, patch_suspension, patch_role, post_deliverer,
  drop_deliverer,
}
use mesyaf_market.Http.Accounts.{
  read_all_users, read_me, patch_me, drop_user, read_own_orders, post_register, post_login,
}
use mesyaf_market.Http.Deliveries.{
  test_error, post_order, patch_ready, test_batch, read_own_deliverer, read_jobs, read_deliverer,
  patch_own_deliverer, read_job_timeline, read_order_timeline,
}

-- The requests of the method GET, but GET order/test-batch/:batchId
pub data Read : Type 0 where
  products : ProductFilter → Read
  product : (product_id : ℕ) → Read
  own_products : ProductFilter → Read
  vendor_products : (vendor_id : ℕ) → ProductFilter → Read
  own_profile : Read
  vendor : (vendor_id : ℕ) → Read
  vendors : Read
  vendor_orders : Option OrderStatus → Read
  users_for_admin : Read
  pending : Read
  all_users : Read
  me : Read
  own_orders : Option OrderStatus → Read
  own_deliverer : Read
  jobs : Option JobStatus → Read
  deliverer : (user_id : ℕ) → Read
  job_timeline : (job_id : ℕ) → Read
  order_timeline : (order_id : ℕ) → Read
  broken : Read

-- The requests that an administrator's routes take.
pub data AdminWrite : Type 0 where
  approval : (vendor_id : ℕ) → Bool → Option String → AdminWrite
  suspension : (vendor_id : ℕ) → String → AdminWrite
  role : (id : ℕ) → Role → Option String → AdminWrite
  promotion : (user_id : ℕ) → AdminWrite
  removal : (user_id : ℕ) → AdminWrite

-- Those of the rest, with GET order/test-batch/:batchId. A registration has bcrypt's salt with it.
pub data Write : Type 0 where
  new_product : ProductDto → Write
  product_update : (product_id : ℕ) → ProductUpdate → Write
  product_removal : (product_id : ℕ) → Write
  new_image : (product_id : ℕ) → ImageDto → Write
  image_removal : (product_id image_id : ℕ) → Write
  images_removal : (product_id : ℕ) → Write
  new_tags : (product_id : ℕ) → List ℕ → Write
  tags_removal : (product_id : ℕ) → List ℕ → Write
  all_tags_removal : (product_id : ℕ) → Write
  new_profile : VendorDto → Write
  profile_update : VendorUpdate → Write
  profile_removal : Write
  activation : Bool → Write
  request : (user_id : ℕ) → Write
  acceptance rejection : (order_id : ℕ) → Write
  new_order : (vendor_id : ℕ) → OrderDto → Write
  readiness : (order_id : ℕ) → Write
  batch_test : (batch_id : ℕ) → Write
  deliverer_update : DelivererUpdate → Write
  user_update : UserUpdate → Write
  user_removal : (id : ℕ) (password : String) → Write
  registration : RegisterDto → (salt : String) → Write
  authentication : LoginDto → Write

pub data Request : Type 0 where
  read : Read → Request
  write : Write → Request
  admin : AdminWrite → Request

-- What the application is built with.
pub record Server : Type 1 where
  pub prisma : Prisma
  pub redis : Redis
  pub texts : Texts
  pub float : FloatOps
  pub settings : Settings
  pub bcrypt : Bcrypt
  pub jwt : Jwt

-- An action without its answer.
abbrev pub quiet : {A : Type 0} → Exec A → Exec (Unit {0})
quiet m = m >> pure tt

module _ (s : Server) (caller : Caller) where
  unfoldable pub serve_read : Read → Exec (Unit {0})
  serve_read (products f) = quiet (read_products s.prisma s.redis s.texts f)
  serve_read (product id) = quiet (read_product s.prisma s.redis caller id)
  -- GET product/products/:id takes this one, for which `me` is no number.
  serve_read (own_products f) = quiet (signed_in caller) >> throw bad_request
  serve_read (vendor_products id f) =
      quiet (read_vendor_products s.prisma s.redis s.texts caller id f)
  serve_read own_profile = quiet (read_own_profile s.prisma caller)
  serve_read (vendor id) = quiet (read_shop s.prisma id)
  -- GET vendor/:vendorId takes this one, for which `all` is no number.
  serve_read vendors = throw bad_request
  serve_read (vendor_orders status) = quiet (read_vendor_orders s.prisma caller status)
  serve_read users_for_admin = quiet (read_users s.prisma caller)
  serve_read pending = quiet (read_pending s.prisma caller)
  serve_read all_users = quiet (read_all_users s.prisma caller)
  serve_read me = quiet (read_me s.prisma caller)
  serve_read (own_orders status) = quiet (read_own_orders s.prisma caller status)
  serve_read own_deliverer = quiet (read_own_deliverer s.prisma caller)
  serve_read (jobs status) = quiet (read_jobs s.prisma caller status)
  serve_read (deliverer id) = quiet (read_deliverer s.prisma id)
  serve_read (job_timeline id) = quiet (read_job_timeline s.prisma caller id)
  serve_read (order_timeline id) = quiet (read_order_timeline s.prisma caller id)
  serve_read broken = test_error

  unfoldable pub serve_admin : AdminWrite → Exec (Unit {0})
  serve_admin (approval id b reason) = quiet (patch_approval s.prisma caller id b reason)
  serve_admin (suspension id reason) = quiet (patch_suspension s.prisma caller id reason)
  serve_admin (role id r reason) = quiet (patch_role s.prisma caller id r reason)
  serve_admin (promotion id) = quiet (post_deliverer s.prisma caller id)
  serve_admin (removal id) = quiet (drop_deliverer s.prisma caller id)

  unfoldable pub serve_write : Write → Exec (Unit {0})
  serve_write (new_product dto) = quiet (post_product s.prisma s.redis caller dto)
  serve_write (product_update id dto) = quiet (patch_product s.prisma s.redis caller dto id)
  serve_write (product_removal id) = quiet (drop_product s.prisma s.redis caller id)
  serve_write (new_image id dto) = quiet (post_image s.prisma caller id dto)
  serve_write (image_removal id image) = quiet (drop_image s.prisma caller id image)
  serve_write (images_removal id) = quiet (drop_images s.prisma caller id)
  serve_write (new_tags id tags) = quiet (post_tags s.prisma caller id tags)
  serve_write (tags_removal id tags) = quiet (drop_tags s.prisma caller id tags)
  serve_write (all_tags_removal id) = quiet (drop_all_tags s.prisma caller id)
  serve_write (new_profile dto) = quiet (post_profile s.prisma caller dto)
  serve_write (profile_update dto) = quiet (patch_profile s.prisma caller dto)
  serve_write profile_removal = quiet (drop_profile s.prisma caller)
  serve_write (activation b) = quiet (patch_active s.prisma caller b)
  serve_write (request id) = quiet (patch_request s.prisma caller id)
  serve_write (acceptance id) = quiet (accept_order s.prisma id)
  serve_write (rejection id) = quiet (reject_order s.prisma id)
  serve_write (new_order id dto) = quiet (post_order s.prisma caller id dto)
  serve_write (readiness id) = quiet (patch_ready s.prisma s.float s.settings caller id)
  serve_write (batch_test id) = quiet (test_batch s.prisma caller id)
  serve_write (deliverer_update dto) = quiet (patch_own_deliverer s.prisma caller dto)
  serve_write (user_update dto) = quiet (patch_me s.prisma caller dto)
  serve_write (user_removal id password) =
      quiet (drop_user s.prisma s.bcrypt.compare caller id password)
  serve_write (registration dto salt) = quiet (post_register s.jwt s.prisma s.bcrypt dto salt)
  serve_write (authentication dto) = quiet (post_login s.jwt s.prisma s.bcrypt dto)

  unfoldable pub serve_for : Request → Exec (Unit {0})
  serve_for (read r) = serve_read r
  serve_for (write r) = serve_write r
  serve_for (admin r) = serve_admin r

-- The user that the token of a request stands for.
abbrev pub caller_of : (s : Server) → Option s.jwt.Token → World → Caller
caller_of s none w = none
caller_of s (some t) w = authenticate s.jwt t w

-- A request with the token of its header.
unfoldable pub serve : (s : Server) → Option s.jwt.Token → Request → Exec (Unit {0})
serve s token r w = serve_for s (caller_of s token w) r w
