-- ===== src/Scripts/Bundle/Serving.antt =====
-- `main` of scripts/bundle.py: a bundle is created, verified or served. The files beside the manifest and their
-- paths are parameters; the disk has the manifest and the file that is written before it.
pub mod Served
use Prim.Native.String.{◌++◌ as join, len, slice}
use recserve.Prelude.{
  ℕ, ◌-◌, ◌≡◌, refl, sym, ◌∙◌, ap, subst, String, Bool, true, false, ◌&&◌, ◌||◌, not, Option, none,
  some, List, [], ◌∷◌, ◌++◌, put, same, ◌⊎◌, inl, inr, arith, Bool-cases, if◌then◌else◌,
}
use recserve.Prelude.Int.{ℤ, pos}
use recserve.Exec.{Result, ok, err, Result-cases}
use recserve.Scripts.Bundle.{Bundle, Directory, Defect, verify}

pub data Action : Type 0 where
  create verify_only serve : Action

pub data Backend : Type 0 where
  hnsw simd cuda : Backend

-- a path of the command line: whether it leads into the directory that the manifest leads to, its name, and the
-- digest of its file
pub record PathArgument : Type 0 where
  pub is_beside : Bool
  pub name : String
  pub digest : String

-- the metadata of a training run, decoded
pub record Meta : Type 0 where
  pub files : List (String × String)
  pub catalog : String
  pub queries : String

pub record Arguments : Type 0 where
  pub action : Action
  pub meta : Option PathArgument
  pub index : Option PathArgument
  pub version : String
  pub binary : String
  pub backend : Backend
  pub gpu_warmup : Bool
  pub bind : String
  pub port : ℕ
  pub metrics_port : ℕ
  -- whether the manifest ends in '.tmp', so that `with_suffix('.tmp')` is the manifest itself
  pub is_tmp : Bool

pub record Disk : Type 0 where
  pub manifest : Option Bundle
  pub temporary : Option Bundle

-- `manifest.parent` and `manifest.resolve().parent`, which differ if the manifest is a link; `directory/name`,
-- `pathlib.Path(_).resolve()` and `str` of a number
pub record Names : Type 0 where
  pub parent : String
  pub root : String
  pub child : String → String → String
  pub resolved : String → String
  pub decimal : ℕ → String

-- how `main` ends otherwise than by a result or a new program
pub data Stop : Type 0 where
  usage : String → Stop
  unreadable : Stop
  refused : Defect → Stop

-- `name.removesuffix('_catalog.bin')`
unfoldable pub remove_suffix : String → String → String
remove_suffix name suffix =
    let n = len name - len suffix in
    if same (slice name n (len name)) suffix then slice name 0 n else name

-- `--gpu-warmup requires serve with --backend cuda`
unfoldable pub is_warmup_misused : Arguments → Bool
is_warmup_misused a = elim a.action [
  | serve ↦ elim a.backend [ cuda ↦ false | hnsw ↦ a.gpu_warmup | simd ↦ a.gpu_warmup ]
  | create ↦ a.gpu_warmup
  | verify_only ↦ a.gpu_warmup
]

-- the bundle that is written; its `training_meta`, which `verify` does not read, is left out
unfoldable pub bundle_from : String → Meta → PathArgument → PathArgument → Bundle
unfolding remove_suffix
bundle_from version meta meta_file index =
    let prefix = remove_suffix meta.catalog "_catalog.bin" in
    record {
      schema_version = pos 1;
      model_version = version;
      files = put index.name (index.digest) (put meta_file.name (meta_file.digest) meta.files);
      catalog = meta.catalog;
      queries = meta.queries;
      index = index.name;
      user_map = join prefix "_user_ids.csv";
      item_map = join prefix "_item_ids.csv";
    }

-- the bundle is written to the temporary file, verified there, and takes the place of the manifest
unfoldable pub replace_manifest : Directory → Bool → Bundle → Disk → Result Stop (Unit {0}) × Disk
replace_manifest d is_tmp b disk =
    let written =
      if is_tmp then record disk { manifest = some b } else record disk { temporary = some b } in
    elim (verify d b) [
      | err x ↦ (err (refused x), written)
      | ok _ ↦ (ok tt, if is_tmp then written else record { manifest = some b; temporary = none })
    ]

unfoldable pub create_from :
    Directory
    → Bool
    → String
    → PathArgument
    → PathArgument
    → Option Meta
    → Disk
    → Result Stop (Unit {0}) × Disk
create_from d is_tmp version meta_file index decoded disk =
    if not (meta_file.is_beside && index.is_beside)
    then (err (usage "metadata and index must be beside the manifest"), disk)
    else elim decoded [
      | none ↦ (err unreadable, disk)
      | some meta ↦ replace_manifest d is_tmp (bundle_from version meta meta_file index) disk
    ]

-- the branch of `create`
unfoldable pub create_bundle :
    Directory → Arguments → Option Meta → Disk → Result Stop (Unit {0}) × Disk
unfolding create_from
create_bundle d a decoded disk = elim a.meta [
  | none ↦ (err (usage "metadata and index must be beside the manifest"), disk)
  | some meta_file ↦ elim a.index [
    | none ↦ (err (usage "metadata and index must be beside the manifest"), disk)
    | some index ↦ create_from d a.is_tmp a.version meta_file index decoded disk
  ]
]

backend_name : Backend → String
backend_name hnsw = "hnsw"
backend_name simd = "simd"
backend_name cuda = "cuda"

-- the command line of the server, for the files of a directory
unfoldable pub command_of : Names → String → Arguments → Bundle → List String
unfolding backend_name
command_of n directory a b =
    let command =
      n.resolved a.binary
      ∷ "--catalog"
      ∷ n.child directory b.catalog
      ∷ "--queries"
      ∷ n.child directory b.queries
      ∷ "--index"
      ∷ n.child directory b.index
      ∷ "--backend"
      ∷ backend_name a.backend
      ∷ "--bind"
      ∷ a.bind
      ∷ "--port"
      ∷ n.decimal a.port
      ∷ "--metrics-port"
      ∷ n.decimal a.metrics_port
      ∷ [] in
    if a.gpu_warmup then command ++ "--gpu-warmup" ∷ [] else command

-- what follows the branch of `create`: the manifest is verified, and the server takes the process over
unfoldable pub verify_and_serve :
    Directory → Names → Arguments → Disk → Result Stop (Option (List String))
verify_and_serve d n a disk = elim disk.manifest [
  | none ↦ err unreadable
  | some b ↦ elim (verify d b) [
    | err x ↦ err (refused x)
    | ok _ ↦ elim a.action [
      | serve ↦ ok (some (command_of n n.root a b))
      | create ↦ ok none
      | verify_only ↦ ok none
    ]
  ]
]

-- the first branch of `main`
unfoldable pub prepare : Directory → Arguments → Option Meta → Disk → Result Stop (Unit {0}) × Disk
prepare d a decoded disk = elim a.action [
  | create ↦ create_bundle d a decoded disk
  | verify_only ↦ (ok tt, disk)
  | serve ↦ (ok tt, disk)
]

-- `main`; the result has the command that replaces the process. `d` has the files of `manifest.parent`, which
-- `verify` reads.
unfoldable pub main :
    Directory → Names → Arguments → Option Meta → Disk → Result Stop (Option (List String)) × Disk
main d n a decoded disk =
    if is_warmup_misused a
    then (err (usage "--gpu-warmup requires serve with --backend cuda"), disk)
    else (let (r, disk') = prepare d a decoded disk in
        elim r [ err x ↦ (err x, disk') | ok _ ↦ (verify_and_serve d n a disk', disk') ])
