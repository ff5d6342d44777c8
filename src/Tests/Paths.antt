-- ===== src/Tests/Paths.antt =====
-- src/store_path.rs, src/narinfo.rs and src/wrapper.rs: a store path, a cached narinfo, a routed call.
use guix_p2p.Prelude.{
  ◌+◌, ◌≡◌, refl, none, some, [], ◌∷◌, true, leb, if◌then◌else◌, ◌==◌, nat_eq, text_eq,
}
use guix_p2p.Text.{chars}
use guix_p2p.StorePath.{hash_part, hash_part-store_path}
use guix_p2p.Narinfo.{NarinfoCache, get, put, get-put}
use guix_p2p.Wrapper.{guix_p2p_program, route_invocation, from_env}
use guix_p2p.Tests.Https.{info}

hash_part-store_path_example : hash_part (chars "/gnu/store/abc-x-1") ≡ some (chars "abc")
hash_part-store_path_example = hash_part-store_path (chars "abc") (chars "x-1") refl

abbrev fresh : NarinfoCache
fresh = record { entries = []; ttl = 60 }

get-put_example : get 20 (put 10 fresh (chars "abc") info) (chars "abc") ≡ (
    if chars "abc" == chars "abc"
    then if leb (10 + 60) 20 then none else some info
    else get 20 fresh (chars "abc"))
get-put_example = get-put 10 20 fresh (chars "abc") (chars "abc") info

routed_query :
    route_invocation (chars "substitute" ∷ chars "--query" ∷ []) true (chars "s") ≡ record {
      program = guix_p2p_program;
      args = chars "--query" ∷ chars "--socket" ∷ chars "s" ∷ [];
    }
unfolding route_invocation
routed_query = refl

home_socket :
    (from_env (λ name. if name == chars "HOME" then some (chars "/h") else none)).socket
    ≡ chars "/h/.cache/guix-p2p/guix-p2p.sock"
unfolding from_env
home_socket = refl
