-- ===== src/Retry/Paths.antt =====
-- The tests on a request's method and path (src/ucloud_sandboxes_sdk/client.py, in
-- `_should_retry_ucloud_unavailable` and `_ucloud_unavailable_retry_attempts`).
use ucloud_sandboxes_sdk.Prelude.{
  ℕ, zero, suc, String, Bool, true, false, List, [], ◌∷◌, ◌||◌, ◌&&◌, codes, same_codes, begins,
  upper, eqb, length, if◌then◌else◌, ◌≡◌, refl,
}

abbrev pub drop_codes : ℕ → List ℕ → List ℕ
drop_codes zero s = s
drop_codes (suc n) [] = []
drop_codes (suc n) (c ∷ s) = drop_codes n s

-- `method.upper() == name`.
unfoldable pub is_method : String → String → Bool
is_method method name = same_codes (upper (codes method)) (codes name)

-- `normalized_method in {"GET", "HEAD", "OPTIONS"}`.
unfoldable pub is_read_method : String → Bool
unfolding is_method
is_read_method method =
    is_method method "GET" || is_method method "HEAD" || is_method method "OPTIONS"

unfoldable pub is_path : String → String → Bool
is_path path name = same_codes (codes path) (codes name)

unfoldable pub path_begins : String → String → Bool
path_begins path prefix = begins (codes prefix) (codes path)

abbrev pub group_path : String
group_path = "/v1/sandboxes:batch"

-- `"/" not in rest.split("?", 1)[0]`.
abbrev pub no_slash_before_query : List ℕ → Bool
no_slash_before_query [] = true
no_slash_before_query (c ∷ s) =
    if eqb c b'?' then true else if eqb c b'/' then false else no_slash_before_query s

-- A path of one sandbox, with no sub-resource.
unfoldable pub is_one_sandbox : String → Bool
is_one_sandbox path =
    begins (codes "/v1/sandboxes/") (codes path)
    && no_slash_before_query (drop_codes (length (codes "/v1/sandboxes/")) (codes path))

one_sandbox_test : (is_one_sandbox "/v1/sandboxes/a?x=/" ≡ true)
unfolding is_one_sandbox
one_sandbox_test = refl

sub_resource_test : is_one_sandbox "/v1/sandboxes/a/files" ≡ false
unfolding is_one_sandbox
sub_resource_test = refl
