-- ===== src/Logger/Examples.antt =====
-- Examples for the logger.
use mesyaf_market.Prelude.{◌≡◌, refl, none, some, [], ◌∷◌, String}
use mesyaf_market.Logger.{
  JsValue, ref, object, Heap, Json, obj, end, field, Process, Method, Entry, is_redacted,
  sanitize_value, print,
}
use mesyaf_market.Logger.Total.{print_ends}
use mesyaf_market.Logger.Secrets.{hide, secrets_are_not_logged}

-- A user with a password, who is the own friend, and an order that names the user twice.
abbrev users_with : String → Heap
users_with secret =
    object
      (("name", JsValue.text "Lena") ∷ ("password", JsValue.text secret) ∷ ("friend", ref 0) ∷ [])
    ∷ object (("customer", ref 0) ∷ ("payer", ref 0) ∷ [])
    ∷ []

abbrev process : Process
process = record { pid = 7; node_env = none; timestamp = "now"; index_key = λ i. "0" }

-- An empty object that stands twice in another one is logged as a cycle the second time.
shared_object :
    sanitize_value (object [] ∷ object (("a", ref 0) ∷ ("b", ref 0) ∷ []) ∷ []) (ref 1)
    ≡ some (obj (field "a" (obj end) (field "b" (Json.text "[Circular]") end)))
unfolding sanitize_value is_redacted
shared_object = refl

logged_user :
    sanitize_value (users_with "s3") (ref 0)
    ≡ some (
        obj (
          field "name" (Json.text "Lena") (
            field "password"
              (Json.text "[REDACTED]")
              (field "friend" (Json.text "[Circular]") end))))
unfolding sanitize_value is_redacted
logged_user = refl

print_ends_example :
    (e : Entry) × (print process
        (users_with "s3")
        "Auth"
        Method.error
        (JsValue.text "LoginFailed")
        (ref 1 ∷ [])
      ≡ some e)
print_ends_example =
    print_ends process (users_with "s3") "Auth" Method.error (JsValue.text "LoginFailed")
      (ref 1 ∷ [])

same : hide (users_with "s3") ≡ hide (users_with "other")
unfolding is_redacted
same = refl

secrets_are_not_logged_example :
    print process (users_with "s3") "Auth" Method.warn (ref 0) (ref 1 ∷ [])
    ≡ print process (users_with "other") "Auth" Method.warn (ref 0) (ref 1 ∷ [])
secrets_are_not_logged_example =
    secrets_are_not_logged process (users_with "s3") (users_with "other") "Auth" Method.warn (ref 0)
      (ref 1 ∷ []) same
