-- ===== src/Models.antt =====
-- reproducibility/verify_models.py: where the files of the locked models lie, and whether they match.
--
-- The lock is the parsed `models.lock.json`, with the keys that are read. The file system is a parameter:
-- the size and the digest of each regular file, the text of a file, and where a path leads.
pub mod Verified
mod Tests
use Prim.Native.Char.{code}
use single_gpu_ai_services.Base.{
  ℕ, Bool, true, false, not, ◌&&◌, ◌||◌, Option, none, some, List, [], ◌∷◌, ◌++◌, String, ◌==◌,
  ◌+++◌, if◌then◌else◌, eqb, all, any, contains, codes, Result, ok, err, ◌>>=◌, ◌>>◌, refuse_if,
  demand,
}

-- A `PurePosixPath`, by its parts without the root.
pub record PurePath : Type 0 where
  pub absolute : Bool
  pub parts : List String

abbrev pub extend_first : String → List String → List String
extend_first c [] = c ∷ []
extend_first c (s ∷ ss) = (c +++ s) ∷ ss

-- `text.split("/")`
abbrev pub split_slashes : String → List String
split_slashes String.[] = "" ∷ []
split_slashes (String.◌∷◌ c s) =
    let rest = split_slashes s in
    if eqb (code c) 47 then "" ∷ rest else extend_first (String.◌∷◌ c String.[]) rest

abbrev pub real_parts : List String → List String
real_parts [] = []
real_parts (s ∷ ss) = let rest = real_parts ss in if s == "" || s == "." then rest else s ∷ rest

abbrev pub is_rooted : String → Bool
is_rooted String.[] = false
is_rooted (String.◌∷◌ c s) = eqb (code c) 47

-- `Path(text)`
abbrev pub path_of : String → PurePath
path_of s = record { absolute = is_rooted s; parts = real_parts (split_slashes s) }

-- `a / b`
abbrev pub join : PurePath → PurePath → PurePath
join a b = if b.absolute then b else record a { parts = a.parts ++ b.parts }

abbrev pub strip_prefix : List String → List String → Option (List String)
strip_prefix [] parts = some parts
strip_prefix (p ∷ ps) [] = none
strip_prefix (p ∷ ps) (q ∷ qs) = let rest = strip_prefix ps qs in if p == q then rest else none

pub data LockError : Type 0 where
  unknown_groups : LockError
  groups_missing : LockError
  unsafe_path : LockError
  not_canonical : LockError
  escapes_root : LockError
  no_subdirectory : LockError

abbrev pub is_empty : List String → Bool
is_empty [] = true
is_empty (s ∷ ss) = false

-- `safe_relative_path`.
unfoldable pub safe_relative : PurePath → Result LockError PurePath
safe_relative p =
    if p.absolute
      || is_empty p.parts
      || contains ".." p.parts
      || any (λ s. any (eqb 92) (codes s)) p.parts
    then err unsafe_path
    else ok p

abbrev pub canonical_root : List String
canonical_root = "opt" ∷ "ai-services" ∷ "models" ∷ []

pub record Entry : Type 0 where
  pub path : String
  pub size : ℕ
  pub sha256 : String
  pub local_subdir : Option String

pub record Item : Type 0 where
  pub local_path : String
  pub repository : String
  pub revision : String
  pub files : List Entry

abbrev pub relative_to_canonical : PurePath → Result LockError PurePath
relative_to_canonical p =
    if p.absolute
    then (demand (strip_prefix canonical_root p.parts) not_canonical >>= λ rest.
        ok (record { absolute = false; parts = rest }))
    else err not_canonical

-- `remap_local_path`
unfoldable pub remap_local_path : String → PurePath → Result LockError PurePath
remap_local_path local_path root = do
  relative ← relative_to_canonical (path_of local_path)
  safe ← safe_relative relative
  ok (join root safe)

abbrev pub dashed : String → String
dashed String.[] = ""
dashed (String.◌∷◌ c s) =
    let rest = dashed s in if eqb (code c) 47 then "--" +++ rest else String.◌∷◌ c rest

-- `stt_repo_cache_path` and `stt_snapshot_path`
unfoldable pub stt_repo_cache_path : Item → PurePath → Result LockError PurePath
stt_repo_cache_path item root = do
  cache ← remap_local_path item.local_path root
  ok (join (join cache (path_of "hub")) (path_of ("models--" +++ dashed item.repository)))

unfoldable pub stt_snapshot_path : Item → PurePath → Result LockError PurePath
stt_snapshot_path item root = do
  cache ← stt_repo_cache_path item root
  ok (join (join cache (path_of "snapshots")) (path_of item.revision))

abbrev pub model_order : List String
model_order = "llm" ∷ "embeddings" ∷ "reranker" ∷ "stt" ∷ "tts" ∷ "ocr" ∷ []

abbrev pub Lock : Type 0
Lock = List (String × Item)

abbrev pub find_item : String → Lock → Option Item
find_item name [] = none
find_item name ((n, item) ∷ lock) =
    let rest = find_item name lock in if n == name then some item else rest

abbrev pub has_item : Lock → String → Bool
has_item lock name = elim (find_item name lock) [ none ↦ false | some i ↦ true ]

abbrev pub keep : List String → List String → List String
keep wanted [] = []
keep wanted (n ∷ ns) = let rest = keep wanted ns in if contains n wanted then n ∷ rest else rest

-- `selected_model_names`, with the groups that are wanted.
unfoldable pub selected_model_names : Lock → List String → Result LockError (List String)
selected_model_names lock wanted = do
  refuse_if (not (all (λ n. contains n model_order) wanted)) unknown_groups
  refuse_if (not (all (has_item lock) wanted)) groups_missing
  ok (keep wanted model_order)

-- Where a file of a group lies, whose base is the remapped path of the item.
unfoldable pub target_of : String → Item → PurePath → PurePath → Entry → Result LockError PurePath
target_of name item root base entry =
    if name == "llm"
    then ok base
    else (if name == "stt"
        then (stt_snapshot_path item root >>= λ snapshot. ok (join snapshot (path_of entry.path)))
        else (if name == "ocr"
            then (demand entry.local_subdir no_subdirectory >>= λ d.
                ok (join (join base (path_of d)) (path_of entry.path)))
            else ok (join base (path_of entry.path))))

pub data Failure : Type 0 where
  missing : PurePath → Failure
  size_mismatch : PurePath → Failure
  sha256_mismatch : PurePath → Failure
  missing_main_ref : PurePath → Failure
  main_ref_mismatch : PurePath → Failure

-- What is read of a regular file.
pub record FileData : Type 0 where
  pub size : ℕ
  pub sha256 : String
  pub content : String

module _ (file : PurePath → Option FileData) (resolves_inside : PurePath → Bool) where
  -- `verify_file`, of what stands at a path.
  abbrev pub compare_file : PurePath → Option FileData → Entry → List Failure
  compare_file p none entry = missing p ∷ []
  compare_file p (some f) entry =
      if eqb f.size entry.size
      then (if f.sha256 == entry.sha256 then [] else sha256_mismatch p ∷ [])
      else size_mismatch p ∷ []

  abbrev pub verify_file : PurePath → Entry → List Failure
  verify_file p entry = compare_file p (file p) entry

  -- The loop over the files of a group in `validate_model_paths`.
  abbrev pub entry_is_safe : String → Entry → Result LockError (Unit {0})
  entry_is_safe name entry = safe_relative (path_of entry.path) >>= λ _.
      if name == "ocr"
      then (demand entry.local_subdir no_subdirectory >>= λ d.
          safe_relative (path_of d) >>= λ _. ok tt)
      else ok tt

  unfoldable pub validate_files :
      String → Item → PurePath → PurePath → List Entry → Result LockError (Unit {0})
  validate_files name item root base [] = ok tt
  validate_files name item root base (entry ∷ entries) = do
    entry_is_safe name entry
    target ← target_of name item root base entry
    refuse_if (not (resolves_inside target)) escapes_root
    validate_files name item root base entries

  unfoldable pub validate_groups : Lock → PurePath → List String → Result LockError (Unit {0})
  validate_groups lock root [] = ok tt
  validate_groups lock root (name ∷ names) = do
    item ← demand (find_item name lock) groups_missing
    base ← remap_local_path item.local_path root
    validate_files name item root base item.files
    validate_groups lock root names

  unfoldable pub validate_model_paths : Lock → PurePath → List String → Result LockError (Unit {0})
  validate_model_paths lock root wanted =
      selected_model_names lock wanted >>= validate_groups lock root

  unfoldable pub verify_files :
      String → Item → PurePath → PurePath → List Entry → Result LockError (List Failure)
  verify_files name item root base [] = ok []
  verify_files name item root base (entry ∷ entries) = do
    target ← target_of name item root base entry
    rest ← verify_files name item root base entries
    ok (verify_file target entry ++ rest)

  abbrev pub compare_ref : PurePath → Option FileData → String → List Failure
  compare_ref p none revision = missing_main_ref p ∷ []
  compare_ref p (some f) revision = if f.content == revision then [] else main_ref_mismatch p ∷ []

  unfoldable pub verify_ref : String → Item → PurePath → Result LockError (List Failure)
  verify_ref name item root =
      if name == "stt"
      then (stt_repo_cache_path item root >>= λ cache.
          let ref = join (join cache (path_of "refs")) (path_of "main") in
          ok (compare_ref ref (file ref) item.revision))
      else ok []

  unfoldable pub verify_groups : Lock → PurePath → List String → Result LockError (List Failure)
  verify_groups lock root [] = ok []
  verify_groups lock root (name ∷ names) = do
    item ← demand (find_item name lock) groups_missing
    base ← remap_local_path item.local_path root
    files ← verify_files name item root base item.files
    ref ← verify_ref name item root
    rest ← verify_groups lock root names
    ok (files ++ (ref ++ rest))

  -- `verify_locked_models`
  unfoldable pub verify_locked_models :
      Lock → PurePath → List String → Result LockError (List Failure)
  verify_locked_models lock root wanted = do
    validate_model_paths lock root wanted
    names ← selected_model_names lock wanted
    verify_groups lock root names
