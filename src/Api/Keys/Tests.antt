-- ===== src/Api/Keys/Tests.antt =====
-- Tests of the keys of internal/api/middleware/auth.go.
use stacyvm.Base.{String, ◌≡◌, refl, true, false, [], ◌∷◌}
use stacyvm.Api.Keys.{AuthIdentity, Headers, refuse, anonymous, effective_admin_key, admin_chain}
use stacyvm.Api.Keys.Admitted.{Presents, admin_chain-Admitted}

abbrev with_keys : String → String → Headers
with_keys admin_api_key api_key = record {
  admin_api_key = admin_api_key;
  api_key = api_key;
  tenant_id = " t1 ";
}

abbrev administrator : AuthIdentity
administrator = record {
  role = "admin";
  header = "X-API-Key";
  scopes = "read:*" ∷ "api:*" ∷ "operator:*" ∷ "admin:*" ∷ [];
  tenant_id = "t1";
}

-- The key of the API is not enough where there is one of the administrator.
refused_test : admin_chain false "k" "root" true (with_keys "" "k") anonymous ≡ refuse 403
unfolding admin_chain
refused_test = refl

-- Without a key of the administrator and without the fallback, nobody is served.
closed_test : admin_chain false "k" "" false (with_keys "" "k") anonymous ≡ refuse 403
unfolding admin_chain
closed_test = refl

admin_chain-Admitted_example :
    Presents (with_keys "" "root") (effective_admin_key "root" "k" true)
    × (administrator.role ≡ "admin")
unfolding admin_chain
admin_chain-Admitted_example =
    admin_chain-Admitted false "k" "root" true (with_keys "" "root") anonymous administrator refl
      refl refl refl
