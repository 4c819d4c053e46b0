-- ===== src/Values/Texts.antt =====
-- What the code uses of the language's texts and of its `urllib.parse`.
use async_gateway.Prelude.{ℕ, String, Option}

pub record Texts : Type 0 where
  pub lower : String → String
  pub upper : String → String
  pub strip : String → String

-- What `urlsplit` gives; `port` is read lazily and refuses a text that is no port, as `none`.
pub record Parts : Type 0 where
  pub scheme : String
  pub netloc : String
  pub hostname : Option String
  pub port : Option (Option ℕ)

-- `urlsplit` and `urljoin`; `none` is their `ValueError`.
pub record Urls : Type 0 where
  pub split : String → Option Parts
  pub join : String → String → Option String
