-- ===== src/Lifecycle/Client.antt =====
-- AbilityClient (src/lifecyclemgr/ability_client.cpp). `ada::parse` is a parameter, and so is the POST
-- to an ability: the status and body of its answer, or the error of the HTTP library.
use Prim.Native.String.{◌++◌ as str_append}
use text.Mathlib.Text.{◌==◌ as str_eq}
use ability_framework.Prelude.{ℕ, String, Bool, Option, none, some, if◌then◌else◌, ◌==◌, ◌||◌}

-- A parsed URL: get_protocol, get_hostname and the number of get_port, none where that is empty.
pub record Url : Type 0 where
  pub protocol : String
  pub hostname : String
  pub port : Option ℕ

pub record HttpClient : Type 0 where
  pub hostname : String
  pub port : ℕ

-- expected<A, std::string>
pub data Expected {ℓ} (A : Type ℓ) : Type ℓ where
  value : A → Expected A
  unexpected : String → Expected A

abbrev make_http : String → Option ℕ → Option HttpClient
make_http hostname none = none
make_http hostname (some port) = some (record { hostname = hostname; port = port })

abbrev make_parsed : Option Url → Option HttpClient
make_parsed none = none
make_parsed (some url) =
    if str_eq url.protocol "http:"
    then (if str_eq url.hostname "" then none else make_http url.hostname url.port)
    else none

-- AbilityClient::make; `none` is a null pointer.
unfoldable pub make : (String → Option Url) → String → Option HttpClient
make parse url = make_parsed (parse url)

-- is_valid_lifecycle_command, and is_legal of src/lifecyclemgr/lifecycle_request.cpp
abbrev pub is_legal : String → Bool
is_legal c =
    str_eq c "start" || (str_eq c "connect" || (str_eq c "disconnect" || str_eq c "terminate"))

-- The answer to a POST.
pub data Posted : Type 0 where
  no_answer : String → Posted
  answered : ℕ → String → Posted

-- HttpClient::do_execute
abbrev pub executed : Posted → Expected (Unit {0})
executed (no_answer e) = unexpected e
executed (answered status body) =
    if status == 200 then value tt else unexpected (str_append "client: " body)

-- AbilityClient::execute
unfoldable pub execute :
    {X : Type 0}
    → (String → ℕ → String → X → Posted × X)
    → HttpClient
    → String
    → X
    → Expected (Unit {0}) × X
execute post client command x =
    if is_legal command
    then (let (answer, x1) =
          post client.hostname client.port (str_append "/api/lifecycle/" command) x in
        (executed answer, x1))
    else (unexpected (str_append "invalid lifecycle command: " command), x)
