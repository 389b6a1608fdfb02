-- ===== src/Worker/Dispatch.antt =====
-- internal/distributed/worker.go: `ServeHTTP`, which finds the handler of a request.
use flow_routine.Prelude.{◌≡◌, refl, ◌↔◌, Bool, true, arith, if◌then◌else◌}
use Prim.Native.String.{String}
use text.Mathlib.TextEquality.{eq_iff}
use flow_routine.Prelude.Result.{Result, ok, err, ◌>>◌, guard}
use flow_routine.Worker.{same}

pub data Endpoint : Type 0 where
  status prepare start snapshot stop : Endpoint

-- The replies 401, 405 with the method that is allowed, and 404.
pub data DispatchError : Type 0 where
  unverified endpoint_not_found : DispatchError
  method_not_allowed : String → DispatchError

-- `statusPath` and the other paths.
abbrev pub path_of : Endpoint → String
path_of Endpoint.status = "/v1/status"
path_of Endpoint.prepare = "/v1/prepare"
path_of Endpoint.start = "/v1/start"
path_of Endpoint.snapshot = "/v1/snapshot"
path_of Endpoint.stop = "/v1/stop"

abbrev with_method : String → String → Endpoint → Result DispatchError Endpoint
with_method allowed method endpoint = do
  guard (same method allowed) (method_not_allowed allowed)
  ok endpoint

abbrev at_path : String → String → Result DispatchError Endpoint
at_path path method =
    if same path "/v1/status"
    then with_method "GET" method Endpoint.status
    else if same path "/v1/prepare"
    then with_method "POST" method Endpoint.prepare
    else if same path "/v1/start"
    then with_method "POST" method Endpoint.start
    else if same path "/v1/snapshot"
    then with_method "GET" method Endpoint.snapshot
    else if same path "/v1/stop"
    then with_method "POST" method Endpoint.stop
    else err endpoint_not_found

-- `ServeHTTP` on whether the client's certificate was verified, the path and the method.
unfoldable pub serve_http : Bool → String → String → Result DispatchError Endpoint
serve_http verified path method = do guard verified unverified; at_path path method

-- The endpoints that change the worker take a POST.
abbrev pub method_of : Endpoint → String
method_of Endpoint.status = "GET"
method_of Endpoint.snapshot = "GET"
method_of _ = "POST"

same→≡ : (a b : String) → same a b ≡ true → a ≡ b
same→≡ a b = (eq_iff a b).0

-- A handler is reached exactly by a client with a verified certificate, at the path of the handler
-- and with its method.
pub serve_http-reaches :
    (verified : Bool) (path method : String) (endpoint : Endpoint)
    → serve_http verified path method ≡ ok endpoint
      ↔ (verified ≡ true) × (path ≡ path_of endpoint) × (method ≡ method_of endpoint)
unfolding serve_http
serve_http-reaches verified path method endpoint = (
  λ h. ground (
    arith,
    h,
    same→≡ path "/v1/status",
    same→≡ path "/v1/prepare",
    same→≡ path "/v1/start",
    same→≡ path "/v1/snapshot",
    same→≡ path "/v1/stop",
    same→≡ method "GET",
    same→≡ method "POST",
  ),
  back endpoint,
)
  where
    back :
        (e : Endpoint)
        → (verified ≡ true) × (path ≡ path_of e) × (method ≡ method_of e)
        → serve_http verified path method ≡ ok e
    back Endpoint.status (v, p, m) = rw v (rw p (rw m refl))
    back Endpoint.prepare (v, p, m) = rw v (rw p (rw m refl))
    back Endpoint.start (v, p, m) = rw v (rw p (rw m refl))
    back Endpoint.snapshot (v, p, m) = rw v (rw p (rw m refl))
    back Endpoint.stop (v, p, m) = rw v (rw p (rw m refl))
