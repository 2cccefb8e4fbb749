-- ===== src/Schema/Load.antt =====
-- pkg/schema/schema.go and helpers.go: `NewSchema`, `Reload`, and the search for YANG files. The
-- file system, the regular expressions and the parser of goyang are the parameter `Host`; the
-- annotations of leafrefs (references.go) are the parameter `annotate`.
pub mod Named
use sdcio_schema_server.Base.{
  is_nil, ℕ, ◌≡◌, Bool, true, false, ◌||◌, not, Option, none, some, List, [], ◌∷◌, ◌++◌, map, Str,
  codes, str_eq, ◌==◌, join, Result, ok, err, panic, external, ◌>>=◌, ◌>>◌, refuse, if◌then◌else◌,
}
use sdcio_schema_server.Config.{SchemaConfig}
use sdcio_schema_server.Yang.{
  Attrs, ts_unset, yang_type, Entry, node, Dir, end, child, name, root_name,
}
use sdcio_schema_server.Yang
use sdcio_schema_server.Schema.Element.{Annotations}

-- What `FileInfo.Mode()` says of a file.
pub data FileKind : Type 0 where
  directory regular special : FileKind

pub record Host : Type 1 where
  -- `os.Stat`, the paths that `filepath.Walk` visits, `filepath.Ext`
  pub stat : Str → Result FileKind
  pub visit : Str → Result (List Str)
  pub ext : Str → Str
  -- `regexp.Compile` and `MatchString`
  pub compile : Str → Result (Str → Bool)
  -- `yang.Modules`: `NewModules`, `AddPath`, `Read`, `Process` with its errors, and `ToEntry` of each
  pub Modules : Type 0
  pub no_modules : Modules
  pub paths_with_modules : Str → Result (List Str)
  pub add_path : List Str → Modules → Modules
  pub read : Str → Modules → Result Modules
  pub process : Modules → Modules
  pub process_errors : Modules → List Str
  pub to_entries : Modules → List Entry

pub record Schema : Type 0 where
  pub config : SchemaConfig
  pub root : Entry
  pub notes : Annotations
  pub status : Str

-- The root before anything is read: `&yang.Entry{}` with a name.
abbrev pub root_attrs : Attrs
root_attrs = record {
  name = root_name;
  description = [];
  namespace = [];
  prefix = none;
  config = ts_unset;
  key = [];
  list_attr = none;
  mandatory = false;
  default = none;
  units = [];
  type =
      yang_type
        (record {
          kind = [];
          range = [];
          length = [];
          enum = none;
          units = [];
          name = [];
          path = [];
          pattern = [];
          identity_base = [];
        })
        Yang.YangTypes.nil;
  extra = [];
}

-- `sc.root.Dir[e.Name] = e`
unfoldable pub put : Str → Entry → Dir → Dir
put k e end = child k e end
put k e (child j f d) = if j == k then child k e d else child j f (put k e d)

unfoldable pub root_dir : List Entry → Dir → Dir
unfolding put
root_dir [] d = d
root_dir (e ∷ es) d = root_dir es (put (name e) e d)

abbrev pub yang_ext : Str
yang_ext = codes ".yang"

module _ (h : Host) where
  open h use {
    stat, visit, ext, compile, Modules, no_modules, paths_with_modules, add_path, read, process,
    process_errors, to_entries,
  }

  -- The callback of `walkDir`, over the visited paths.
  unfoldable pub keep_regular : Str → List Str → Result (List Str)
  keep_regular wanted [] = ok []
  keep_regular wanted (p ∷ ps) = stat p >>= λ kind. keep_regular wanted ps >>= λ rest.
      ok (elim kind [ regular ↦ if ext p == wanted then p ∷ rest else rest | _ ↦ rest ])

  unfoldable pub walk_dir : Str → Str → Result (List Str)
  unfolding keep_regular
  walk_dir path wanted = visit path >>= keep_regular wanted

  abbrev pub files_of : FileKind → Str → Result (List Str)
  files_of directory f = walk_dir f yang_ext
  files_of regular f = ok (if ext f == yang_ext then f ∷ [] else [])
  files_of special f = ok []

  unfoldable pub find_yang_files : List Str → Result (List Str)
  unfolding walk_dir
  find_yang_files [] = ok []
  find_yang_files (f ∷ fs) = do
    kind ← stat f
    found ← files_of kind f
    rest ← find_yang_files fs
    ok (found ++ rest)

  -- The first loop of `readYANGFiles`.
  unfoldable pub add_directories : List Str → Modules → Result Modules
  add_directories [] m = ok m
  add_directories (d ∷ ds) m = paths_with_modules d >>= λ ps. add_directories ds (add_path ps m)

  unfoldable pub compile_all : List Str → Result (List (Str → Bool))
  compile_all [] = ok []
  compile_all (e ∷ es) = do r ← compile e; rs ← compile_all es; ok (r ∷ rs)

  unfoldable pub is_excluded : List (Str → Bool) → Str → Bool
  is_excluded [] f = false
  is_excluded (r ∷ rs) f = r f || is_excluded rs f

  -- The loop MAIN.
  unfoldable pub read_files : List (Str → Bool) → List Str → Modules → Result Modules
  unfolding is_excluded
  read_files rs [] m = ok m
  read_files rs (f ∷ fs) m =
      (if is_excluded rs f then ok m else read f m) >>= λ m'. read_files rs fs m'

  unfoldable pub read_yang_files : SchemaConfig → Result Modules
  unfolding add_directories compile_all read_files
  read_yang_files c = if is_nil c.files then ok no_modules else (do
    m ← add_directories c.directories no_modules
    rs ← compile_all c.excludes
    m' ← read_files rs c.files m
    refuse (not (is_nil (process_errors m'))) (external (join (codes "\n") (process_errors m')))
    ok (process m'))

  -- `sCfg.Files, err = findYangFiles(sCfg.Files)` writes to the configuration that the caller holds,
  -- also on an error, where the files are nil.
  unfoldable pub config_after : SchemaConfig → SchemaConfig
  unfolding find_yang_files
  config_after c = elim (find_yang_files c.files) [
    | ok files ↦ record c { files = files }
    | err e ↦ record c { files = [] }
    | panic ↦ c
  ]

  module _ (annotate : Entry → Result Annotations) where
    -- `NewSchema`. On an error the schema that is returned beside it is dropped by every caller.
    unfoldable pub new_schema : SchemaConfig → Result Schema
    unfolding find_yang_files read_yang_files root_dir
    new_schema c = do
      files ← find_yang_files c.files
      m ← read_yang_files (record c { files = files })
      let root = node root_attrs (root_dir (to_entries m) end)
      notes ← annotate root
      ok (record {
        config = record c { files = files };
        root = root;
        notes = notes;
        status = codes "ok";
      })

    -- `Reload`: the configuration is that of the schema, with the files that were found.
    unfoldable pub reload : Schema → Result Schema
    unfolding new_schema
    reload s = new_schema s.config
