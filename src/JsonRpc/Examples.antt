-- ===== src/JsonRpc/Examples.antt =====
-- Tests of the JSON-RPC handler over an API that counts its calls.
use aiops_bundler.Base.{
  ℕ, ◌+◌, String, true, List, [], ◌∷◌, Option, none, some, ◌≡◌, ◌⊎◌, ◌↔◌, refl,
}
use text.Mathlib.Text.{◌==◌ as str_eq}
use aiops_bundler.Base.Tests.{if◌then◌else◌}
use aiops_bundler.Base.Result.{ok}
use aiops_bundler.JsonRpc.{
  null, boolean, number, str, array, Items, nil, item, Fields, end, field, get, Kind, unsupported,
  string, text_of, Json, Arg, zero_value, returned, other_error, Method, ErrorResponse, says,
  method_not_found, success, failed, panicked, parse_request_id, has_optional_input,
  is_optional_param_undefined, has_valid_param_length, convert, convert_all, outcome_of, prepare,
  handle_request,
}
use aiops_bundler.JsonRpc.Accepted.{IsRequest, handle_request-IsRequest}
use aiops_bundler.JsonRpc.Panics.{handle_request-unsupported}
use aiops_bundler.JsonRpc.Controller.{
  batch, error_reply, Succeed, none_left, one_more, controller, controller-first_failure,
}

abbrev sample_to_int : Kind → ℕ → ℕ
sample_to_int kind f = f

abbrev sample_title : String → String
sample_title s = s

abbrev echo : Method ℕ
echo = record {
  inputs = record { name = "text"; kind = string } ∷ [];
  call = λ args s. (s + 1, returned (number s) none);
}

abbrev flag : Method ℕ
flag = record {
  inputs = record { name = "bool"; kind = unsupported } ∷ [];
  call = λ args s. (s + 1, returned null none);
}

abbrev broken : Method ℕ
broken = record { inputs = []; call = λ args s. (s + 1, returned null (some (other_error "no"))) }

abbrev sample_api : String → Option (Method ℕ)
sample_api name =
    if str_eq name "echo" then some echo else if str_eq name "flag" then some flag else some broken

-- A request with the id 1.
abbrev request : String → Items → Fields
request name params =
    field "jsonrpc" (str "2.0")
      (field "id" (number 1) (field "method" (str name) (field "params" (array params) end)))

sample_flag :
    prepare sample_to_int sample_title sample_api (request "flag" (item (boolean true) nil))
    ≡ ok (number 1, flag, zero_value ∷ [])
unfolding prepare parse_request_id get has_valid_param_length has_optional_input
    is_optional_param_undefined convert_all convert
sample_flag = refl

handle_request-unsupported_example :
    handle_request sample_to_int sample_title sample_api
      (request "flag" (item (boolean true) nil))
      5
    ≡ (5, panicked)
handle_request-unsupported_example =
    handle_request-unsupported sample_to_int sample_title sample_api
      (request "flag" (item (boolean true) nil)) 5 (number 1) flag (zero_value ∷ []) sample_flag
      refl

sample_echo :
    handle_request sample_to_int sample_title sample_api (request "echo" (item (str "a") nil)) 5
    ≡ (6, success (number 1) (number 5))
unfolding handle_request prepare parse_request_id get has_valid_param_length has_optional_input
    is_optional_param_undefined convert_all convert outcome_of
sample_echo = refl

abbrev no_error : ErrorResponse
no_error = record { code = method_not_found; message = "no"; detail = says "no"; id = number 1 }

sample_broken :
    handle_request sample_to_int sample_title sample_api (request "other" nil) 6
    ≡ (7, failed no_error)
unfolding handle_request prepare parse_request_id get has_valid_param_length has_optional_input
    is_optional_param_undefined convert_all convert outcome_of
sample_broken = refl

echoed :
    Succeed sample_to_int sample_title sample_api
      (request "echo" (item (str "a") nil) ∷ [])
      5
      ((number 1, number 5) ∷ [])
      6
echoed = one_more sample_echo (none_left 6)

controller-first_failure_example :
    controller sample_to_int sample_title sample_api
      (record {
        is_post = true;
        body = batch (
            request "echo" (item (str "a") nil)
            ∷ request "other" nil
            ∷ request "echo" (item (str "b") nil)
            ∷ []);
      })
      5
    ≡ (7, error_reply no_error)
controller-first_failure_example =
    controller-first_failure sample_to_int sample_title sample_api
      (request "echo" (item (str "a") nil) ∷ []) (request "echo" (item (str "b") nil) ∷ [])
      (request "other" nil) 5 6 7 ((number 1, number 5) ∷ []) no_error echoed sample_broken

handle_request-IsRequest_example :
    ((prepare sample_to_int sample_title sample_api (request "echo" (item (str "a") nil))
        ≡ ok (number 1, echo, text_of "a" ∷ []))
      ↔ IsRequest sample_to_int sample_title sample_api
          (request "echo" (item (str "a") nil))
          (number 1)
          echo
          (text_of "a" ∷ []))
    × (((id : Json) × (m : Method ℕ) × (args : List Arg) × IsRequest sample_to_int sample_title
            sample_api
            (request "echo" (item (str "a") nil))
            id
            m
            args)
        ⊎ ((e : ErrorResponse) × (handle_request sample_to_int sample_title sample_api
                (request "echo" (item (str "a") nil))
                5
              ≡ (5, failed e))))
handle_request-IsRequest_example =
    handle_request-IsRequest sample_to_int sample_title sample_api
      (request "echo" (item (str "a") nil)) 5 (number 1) echo (text_of "a" ∷ [])
