-- ===== src/Provider.antt =====
-- internal/provider/provider.go and internal/auth/static.go: the configured upstreams, as far as
-- routing reads them. Fields that only rendering and discovery read (region, secret and the like) are left out.
use darkrouter.Base.{String, Bool, ◌||◌, List, str_eq}

pub record Credential : Type 0 where
  pub id : String
  pub enabled : Bool

pub record Provider : Type 0 where
  pub id : String
  pub kind : String
  pub base_url : String
  pub preset : String
  pub auth_style : String
  pub credentials : List Credential
  pub models : List String
  pub allow_unsanctioned_free : Bool

unfoldable pub is_keyless : String → Bool
is_keyless style = str_eq style "none" || (str_eq style "optional" || str_eq style "anonymous")
