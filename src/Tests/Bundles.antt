-- ===== src/Tests/Bundles.antt =====
-- The theorems about bundles and the pages of a catalog at concrete files.
use Prim.Native.String.{◌++◌ as join}
use recserve.Prelude.{
  ℕ, suc, ◌==◌, false, none, ◌≡◌, refl, String, true, some, List, [], ◌∷◌, same, leb, if◌then◌else◌,
}
use recserve.Prelude.Int.{pos}
use recserve.Exec.{Result, ok, err}
use recserve.App.Selection.{Movie, als, Trouble, connection, Selection, select_items}
use recserve.App.Selection.Replenished.{IsSelection, IsOffered}
use recserve.App.Selection.Picks.{has_pick}
use recserve.App.Routes.Pages.{browse, browse_all}
use recserve.App.Model.{
  Manifest, Stored, Loaded, policy_of, are_required, are_verified, dimensions, same_shape,
  movie_from, movies_from, distinct_movies, naturals, same_identities, popular_from, check_arrays,
  check_catalog, load,
}
use recserve.App.Model.Selecting.{load-select_items}
use recserve.Scripts.Bundle.{
  Bundle, Directory, Header, check_files, check_roles, check_shape, shape, are_numbered,
  distinct_ids, check_map, check_shapes, verify,
}
use recserve.Scripts.Bundle.Serving.{
  Arguments, Disk, Names, serve, hnsw, is_warmup_misused, remove_suffix, command_of, prepare,
  verify_and_serve, main,
}
use recserve.Scripts.Bundle.Verified.{IsVerified, verify-IsVerified}

-- a bundle of two items and one user with vectors of one number
abbrev bundle : Bundle
bundle = record {
  schema_version = pos 1;
  model_version = "local-pilot";
  files =
      ("catalog", "h") ∷ ("queries", "h") ∷ ("index", "h") ∷ ("users", "h") ∷ ("items", "h") ∷ [];
  catalog = "catalog";
  queries = "queries";
  index = "index";
  user_map = "users";
  item_map = "items";
}

abbrev header_of : String → Header
header_of name =
    if same name "catalog"
    then record { code = 0x43415431; count = pos 2; dim = pos 1 }
    else if same name "queries"
    then record { code = 0x51525931; count = pos 1; dim = pos 1 }
    else record { code = 0x48535732; count = pos 2; dim = pos 1 }

abbrev directory : Directory
directory = record {
  is_member = λ name. true;
  sha256 = λ name. "h";
  header = header_of;
  size = λ name. (if same name "catalog" then 20 else 16);
  rows =
      λ name. (if same name "users" then (pos 0, "u") ∷ [] else (pos 0, "a") ∷ (pos 1, "b") ∷ []);
}

accepted : verify directory bundle ≡ ok (1, 2)
unfolding same verify check_files check_roles check_shapes shape check_shape check_map are_numbered
    distinct_ids
accepted = refl

verify-IsVerified_example : IsVerified directory bundle 1 2
verify-IsVerified_example = verify-IsVerified directory bundle 1 2 accepted

abbrev disk : Disk
disk = record { manifest = some bundle; temporary = none }

abbrev arguments : Arguments
arguments = record {
  action = serve;
  meta = none;
  index = none;
  version = "local-pilot";
  binary = "server";
  backend = hnsw;
  gpu_warmup = false;
  bind = "127.0.0.1";
  port = 9400;
  metrics_port = 9401;
  is_tmp = false;
}

abbrev names : Names
names = record {
  parent = "/bundle";
  root = "/bundle";
  child = λ directory name. join directory (join "/" name);
  resolved = λ name. join "/bin/" name;
  decimal = λ n. (if n == 9400 then "9400" else "9401");
}

abbrev command : List String
command =
    "/bin/server" ∷ "--catalog" ∷ "/bundle/catalog" ∷ "--queries" ∷ "/bundle/queries" ∷ "--index"
    ∷ "/bundle/index" ∷ "--backend" ∷ "hnsw" ∷ "--bind" ∷ "127.0.0.1" ∷ "--port" ∷ "9400"
    ∷ "--metrics-port" ∷ "9401" ∷ []

served : main directory names arguments none disk ≡ (ok (some command), disk)
unfolding same main is_warmup_misused prepare verify_and_serve command_of verify check_files
    check_roles check_shapes shape check_shape check_map are_numbered distinct_ids
served = refl

prefix_of : remove_suffix "movies_catalog.bin" "_catalog.bin" ≡ "movies"
unfolding same remove_suffix
prefix_of = refl

abbrev first_movie : Movie
first_movie = record { id = 10; title = "a"; available = true }

abbrev second_movie : Movie
second_movie = record { id = 20; title = "b"; available = true }

abbrev two_movies : List Movie
two_movies = first_movie ∷ second_movie ∷ []

browse_all_example : browse (suc 2) 0 two_movies ≡ two_movies
browse_all_example = browse_all two_movies

abbrev manifest : Manifest ℕ
manifest = record {
  size = 900;
  schema_version = pos 2;
  policy = "als";
  files =
      ("catalog.bin", "h")
      ∷ ("factors.npy", "h")
      ∷ ("gram.npy", "h")
      ∷ ("index.bin", "h")
      ∷ ("movies.json", "h")
      ∷ ("popularity.json", "h")
      ∷ ("LICENSE.txt", "h")
      ∷ [];
  regularization = 1;
  confidence = some (pos 41, pos 11);
}

abbrev stored : Stored
stored = record {
  is_inside = λ name. true;
  size = λ name. 20;
  digest = λ name. "h";
  catalog = record { code = 0x43415431; count = pos 2; dim = pos 1 };
  raw_shape = 2 ∷ 1 ∷ [];
  gram_shape = 1 ∷ 1 ∷ [];
  finite = true;
  consistent = true;
  index = record { code = 0x48535732; count = pos 2; dim = pos 1 };
  movies =
      record { id = some (pos 10); title = some "a"; available = some true }
      ∷ record { id = some (pos 20); title = some "b"; available = some true }
      ∷ [];
  popularity = pos 20 ∷ pos 10 ∷ [];
}

abbrev loaded : Loaded ℕ
loaded = record {
  catalog = record { movies = two_movies; popular = 20 ∷ 10 ∷ [] };
  policy = als;
  dimension = 1;
  regularization = 1;
}

loads : load (leb 1) manifest stored ≡ ok loaded
unfolding same load policy_of are_required are_verified check_arrays dimensions same_shape
    check_catalog movies_from movie_from distinct_movies popular_from naturals same_identities
loads = refl

abbrev unreachable : ℕ → Result Trouble (List (ℕ × ℕ))
unreachable count = err connection

load-select_items_example :
    (r : Selection) × (select_items loaded.catalog (some unreachable) (10 ∷ []) 2 als ≡ ok r)
    × IsSelection loaded.catalog (10 ∷ []) 2 r
    × ((i : ℕ)
        → r.exhausted ≡ true
        → IsOffered loaded.catalog (10 ∷ []) i
        → has_pick i r.items ≡ true)
load-select_items_example =
    load-select_items (leb 1) manifest stored loaded (some unreachable) (10 ∷ []) 2 loads
