-- ===== src/Models/Tests.antt =====
-- Runs of the verification of models at a concrete lock.
use single_gpu_ai_services.Base.{
  ◌≡◌, refl, Bool, true, false, Option, none, some, List, [], ◌∷◌, String, ◌==◌, if◌then◌else◌, ok,
  err, contains,
}
use single_gpu_ai_services.Models.{
  PurePath, path_of, unsafe_path, escapes_root, Entry, Item, Lock, safe_relative, remap_local_path,
  stt_repo_cache_path, stt_snapshot_path, selected_model_names, target_of, FileData, validate_files,
  validate_groups, validate_model_paths, verify_files, verify_ref, verify_groups,
  verify_locked_models,
}
use single_gpu_ai_services.Models.Verified.{Verified, Contained, verify_locked_models-Verified}

abbrev config : Entry
config = record { path = "1_Pooling/config.json"; size = 191; sha256 = "e54c"; local_subdir = none }

abbrev embedder : Item
embedder = record {
  local_path = "/opt/ai-services/models/embeddings/bge-m3";
  repository = "BAAI/bge-m3";
  revision = "5617";
  files = config ∷ [];
}

abbrev recognizer : Item
recognizer = record {
  local_path = "/opt/ai-services/models/stt/hf-cache";
  repository = "Systran/whisper";
  revision = "edaa";
  files = record { path = "config.json"; size = 2; sha256 = "a930"; local_subdir = none } ∷ [];
}

abbrev lock : Lock
lock = ("embeddings", embedder) ∷ ("stt", recognizer) ∷ []

abbrev models_root : PurePath
models_root = path_of "/models"

abbrev last_part : List String → String
last_part [] = ""
last_part (s ∷ []) = s
last_part (s ∷ t ∷ ss) = last_part (t ∷ ss)

abbrev disk : PurePath → Option FileData
disk p =
    if last_part p.parts == "main"
    then some (record { size = 4; sha256 = "0"; content = "edaa" })
    else (if contains "1_Pooling" p.parts
        then some (record { size = 191; sha256 = "e54c"; content = "" })
        else some (record { size = 2; sha256 = "a930"; content = "" }))

abbrev everywhere : PurePath → Bool
everywhere p = true

abbrev wanted : List String
wanted = "stt" ∷ "embeddings" ∷ []

all_match : verify_locked_models disk everywhere lock models_root wanted ≡ ok []
unfolding verify_locked_models validate_model_paths selected_model_names validate_groups
    validate_files verify_groups verify_files verify_ref target_of stt_snapshot_path
    stt_repo_cache_path remap_local_path safe_relative
all_match = refl

upwards : safe_relative (path_of "a/../../b") ≡ err unsafe_path
unfolding safe_relative
upwards = refl

a_link_outside : verify_locked_models disk (λ p. false) lock models_root wanted ≡ err escapes_root
unfolding verify_locked_models validate_model_paths selected_model_names validate_groups
    validate_files verify_groups verify_files verify_ref target_of stt_snapshot_path
    stt_repo_cache_path remap_local_path safe_relative
a_link_outside = refl

verify_locked_models-Verified_example :
    Verified disk everywhere lock models_root "stt"
    × Contained disk everywhere lock models_root "stt"
verify_locked_models-Verified_example =
    verify_locked_models-Verified disk everywhere lock models_root wanted "stt" all_match refl
