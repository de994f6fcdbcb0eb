-- ===== src/Providererr.antt =====
-- provider/providererr/errors.go: the structured error that every provider returns, the sentinels,
-- and `errors.Is` and `errors.As` as they find it in a chain of wrapped errors.
use flames.Prelude.{
  String, ◌<>◌, Bool, true, false, ◌&&◌, not, Option, none, some, ◌==◌, string_eq, if◌then◌else◌,
}

-- A value of Go's interface `error`. Where a `ProviderError` wraps no cause its `Err` is `nil`.
-- `plain` is an error of another type, `wrapped` one of another type with an `Unwrap` method.
pub data Error : Type 0 where
  nil : Error
  provider : String → String → String → String → Error → Error
  plain : String → Error
  wrapped : String → Error → Error

-- The fields Code, Message, ResourceType, ResourceID and Err of `provider`, in this order.
pub record ProviderError : Type 0 where
  pub code : String
  pub message : String
  pub resource_type : String
  pub resource_id : String
  pub err : Error

abbrev pub to_error : ProviderError → Error
to_error e = provider e.code e.message e.resource_type e.resource_id e.err

-- The sentinels.
abbrev sentinel : String → ProviderError
sentinel code = record {
  code = code;
  message = "";
  resource_type = "";
  resource_id = "";
  err = nil;
}

abbrev pub err_not_found : Error
err_not_found = to_error (sentinel "not_found")

abbrev pub err_already_exists : Error
err_already_exists = to_error (sentinel "already_exists")

abbrev pub err_conflict : Error
err_conflict = to_error (sentinel "conflict")

abbrev pub err_not_supported : Error
err_not_supported = to_error (sentinel "not_supported")

abbrev pub err_cache_miss : Error
err_cache_miss = to_error (sentinel "cache_miss")

abbrev pub err_no_jobs : Error
err_no_jobs = to_error (sentinel "no_jobs")

-- The method `Error`.
unfoldable pub provider_text : ProviderError → String
provider_text e =
    if not (e.message == "")
    then e.message
    else if not (e.resource_type == "") && not (e.resource_id == "")
    then e.code <> ": " <> e.resource_type <> " " <> e.resource_id
    else e.code

unfoldable pub error_text : Error → String
error_text nil = ""
error_text (provider code message resource_type resource_id err) = provider_text (record {
  code = code;
  message = message;
  resource_type = resource_type;
  resource_id = resource_id;
  err = err;
})
error_text (plain text) = text
error_text (wrapped text err) = text

-- The method `Unwrap`.
unfoldable pub unwrap : ProviderError → Error
unwrap e = e.err

-- The method `Is`: only another `ProviderError` with the same code matches.
unfoldable pub provider_is : ProviderError → Error → Bool
provider_is e (provider code _ _ _ _) = e.code == code
provider_is e _ = false

unfoldable pub not_found : String → String → Error
not_found resource_type resource_id = to_error (record {
  code = "not_found";
  message = resource_type <> " not found: " <> resource_id;
  resource_type = resource_type;
  resource_id = resource_id;
  err = nil;
})

unfoldable pub already_exists : String → String → Error
already_exists resource_type resource_id = to_error (record {
  code = "already_exists";
  message = resource_type <> " already exists: " <> resource_id;
  resource_type = resource_type;
  resource_id = resource_id;
  err = nil;
})

unfoldable pub conflict : String → String → String → Error
conflict resource_type resource_id message = to_error (record {
  code = "conflict";
  message = message;
  resource_type = resource_type;
  resource_id = resource_id;
  err = nil;
})

-- `errors.Is(err, target)` for a target that is a `ProviderError`: the chain of `Unwrap` is
-- searched for an error whose `Is` accepts the target. Two equal pointers have equal codes.
unfoldable pub errors_is : Error → Error → Bool
unfolding provider_is
errors_is nil target = false
errors_is (provider code message resource_type resource_id err) target =
    let rest = errors_is err target in
    if provider_is
      (record {
        code = code;
        message = message;
        resource_type = resource_type;
        resource_id = resource_id;
        err = err;
      })
      target
    then true
    else rest
errors_is (plain text) target = false
errors_is (wrapped text err) target = errors_is err target

-- `errors.As(err, &pe)` for `pe` of type `*ProviderError`: the first one in the chain.
unfoldable pub errors_as : Error → Option ProviderError
errors_as nil = none
errors_as (provider code message resource_type resource_id err) = some (record {
  code = code;
  message = message;
  resource_type = resource_type;
  resource_id = resource_id;
  err = err;
})
errors_as (plain text) = none
errors_as (wrapped text err) = errors_as err
