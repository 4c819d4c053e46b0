-- ===== src/Tests/Protocols.antt =====
-- asyncio_gateway/helpers/internal/base.py at concrete inputs.
use async_gateway.Values.Floats.{floor}
use async_gateway.Prelude.{lookup}
use async_gateway.Registry.Ordered.{find}
use async_gateway.Settings.Checks.{validated_callable}
use async_gateway.Values.Floats.{is_whole}
use async_gateway.Settings.Checks.{validated_number}
use async_gateway.Settings.Checks.{reject_unknown_keys}
use async_gateway.Prelude.Int.{pos}
use async_gateway.Values.{int, none_value, ok}
use async_gateway.Values.Floats.{whole}
use async_gateway.Settings.{BreakerSettings, validated_breaker_config}
use async_gateway.Registry.{BreakerKey, World}
use async_gateway.Tests.Registry.{plain as callbacks}
use async_gateway.Protocols.Clients.{
  Arguments, Client, destination, new_client, Shares, new_client-Shares,
}
use async_gateway.Prelude.{
  ◌==◌, if◌then◌else◌, ◌≡◌, ◌&&◌, refl, true, false, none, some, [], ◌∷◌, leb, all, has_key, keys,
}
use async_gateway.Values.{dict, field, end, bool, Fields, fields}
use async_gateway.Values.Texts.{Texts, Parts, Urls}
use async_gateway.Protocols.{
  is_security_sensitive_option, validated_protocol_info, Letters, has_numeric_port,
}
use async_gateway.Protocols.Options.{is_ok, takes, validated_protocol_info_lem}

abbrev plain : Texts
plain = record { lower = λ s. s; upper = λ s. s; strip = λ s. s }

-- An option that no strategy knows and that resembles the check of certificates.
abbrev misspelt : Fields
misspelt = field "request_type" (bool true) (field "verify_sll" (bool false) end)

misspelt_refused :
    is_ok (
      validated_protocol_info plain
        (λ s. s)
        ("request_type" ∷ [])
        none
        (some ("request_type" ∷ []))
        (dict misspelt))
    ≡ false
unfolding validated_protocol_info has_key is_security_sensitive_option
misspelt_refused = refl

validated_protocol_info_lem_example :
    is_ok (
      validated_protocol_info plain
        (λ s. s)
        ("request_type" ∷ [])
        none
        (some ("request_type" ∷ []))
        (dict misspelt))
    ≡ (all (λ k. has_key k (fields misspelt)) ("request_type" ∷ [])
        && all
            (takes (is_security_sensitive_option plain (λ s. s)) none (some ("request_type" ∷ [])))
            (keys (fields misspelt)))
validated_protocol_info_lem_example =
    validated_protocol_info_lem plain (λ s. s) ("request_type" ∷ []) none
      (some ("request_type" ∷ [])) misspelt

-- `ftp://h:99999`, whose port is out of range; 57 is the digit `9`, and 104 is `h`.
abbrev out_of_range : Parts
out_of_range = record { scheme = "ftp"; netloc = "h:99999"; hostname = some "h"; port = none }

abbrev urls : Urls
urls = record { split = λ url. some out_of_range; join = λ base reference. some reference }

abbrev letters : Letters
letters = record {
  code_points = λ s. 104 ∷ 58 ∷ 57 ∷ 57 ∷ 57 ∷ 57 ∷ 57 ∷ [];
  is_digit = λ c. leb 48 c && leb c 57;
}

numeric : has_numeric_port letters.is_digit (letters.code_points "h:99999") ≡ true
unfolding has_numeric_port
numeric = refl

abbrev home : BreakerKey
home = record { family = "https"; host = "h"; port = pos 443 }

abbrev lowering : Texts
lowering = record plain { lower = λ s. if s == "H" then "h" else s }

abbrev split_urls : Urls
split_urls = record {
  split = λ url. some (record {
    scheme = "https";
    netloc = url;
    hostname = some (if url == "https://H" then "H" else "h");
    port = some none;
  });
  join = λ base reference. some reference;
}

abbrev no_ports : Letters
no_ports = record { code_points = λ s. []; is_digit = λ c. false }

abbrev upper_url : Arguments
upper_url = record {
  protocol = "HTTP";
  url = "https://H";
  auth = none_value;
  info = [];
  redact_params = [];
  now = 3;
}

abbrev lower_url : Arguments
lower_url = record {
  protocol = "SOAP";
  url = "https://h";
  auth = none_value;
  info = [];
  redact_params = [];
  now = 5;
}

abbrev default_settings : BreakerSettings
default_settings = record {
  maximum_failures = 5;
  reset_timeout = whole 60;
  clock = none;
  sleep = none;
  retry = none;
}

abbrev nobody : World
nobody = record { entries = []; breakers = [] }

abbrev first_client : Client
first_client = record {
  url = "https://H";
  auth = none_value;
  info = [];
  redact_params = [];
  start_time = 3;
  timeout = int (pos 15);
  certificate = none_value;
  circuit_breaker = 0;
}

same_place : destination lowering split_urls no_ports callbacks (int (pos 15)) upper_url ≡ ok home
unfolding destination has_numeric_port
same_place = refl

same_place_again :
    destination lowering split_urls no_ports callbacks (int (pos 15)) lower_url ≡ ok home
unfolding destination has_numeric_port
same_place_again = refl

first_constructed :
    (new_client lowering split_urls no_ports callbacks (int (pos 15)) upper_url nobody).0
    ≡ ok first_client
unfolding new_client has_numeric_port validated_breaker_config reject_unknown_keys validated_number
    is_whole validated_callable find
first_constructed = refl

defaults_accepted : validated_breaker_config (dict end) ≡ ok default_settings
unfolding validated_breaker_config reject_unknown_keys validated_number lookup is_whole
    validated_callable floor
defaults_accepted = refl

new_client-Shares_example :
    Shares lowering split_urls no_ports callbacks
      (int (pos 15))
      first_client
      (new_client lowering split_urls no_ports callbacks (int (pos 15)) upper_url nobody).1
      (new_client lowering split_urls no_ports callbacks
        (int (pos 15))
        lower_url
        (new_client lowering split_urls no_ports callbacks (int (pos 15)) upper_url nobody).1)
unfolding lookup
new_client-Shares_example =
    new_client-Shares lowering split_urls no_ports callbacks (int (pos 15)) upper_url lower_url
      nobody home first_client default_settings same_place same_place_again first_constructed
      defaults_accepted
