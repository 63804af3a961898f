-- ===== src/Models/Verified.antt =====
-- Proofs about `verify_locked_models` of reproducibility/verify_models.py.
use single_gpu_ai_services.Base.{
  ◌≡◌, refl, subst, Bool, true, false, not, Option, none, some, List, [], ◌∷◌, ◌++◌, String, ◌==◌,
  eq_iff, All, all, ◌⊎◌, ok, refuse_if, demand, arith, from_ok, demand_ok, refuse_if_ok, Bool-cases,
  inl, inr, sym, contains,
}
use single_gpu_ai_services.Models.{
  keep, model_order, has_item, unknown_groups, PurePath, path_of, join, groups_missing,
  escapes_root, Entry, Item, Lock, find_item, remap_local_path, stt_repo_cache_path,
  selected_model_names, target_of, Failure, FileData, compare_file, verify_file, entry_is_safe,
  validate_files, validate_groups, validate_model_paths, verify_files, compare_ref, verify_ref,
  verify_groups, verify_locked_models,
}

append_empty : {A : Type 0} → (xs ys : List A) → xs ++ ys ≡ [] → (xs ≡ []) × (ys ≡ [])
append_empty [] ys h = (refl, h)
append_empty (x ∷ xs) ys h = ground (arith, h)

module _ (file : PurePath → Option FileData) (resolves_inside : PurePath → Bool) where
  -- A file of the lock is where it should be, with its size and digest.
  abbrev pub IsPresent : String → Item → PurePath → PurePath → Entry → Type 0
  IsPresent name item root base entry =
      (target : PurePath) × (f : FileData) × (target_of name item root base entry ≡ ok target)
      × (file target ≡ some f)
      × (f.size ≡ entry.size)
      × (f.sha256 ≡ entry.sha256)

  abbrev pub IsInside : String → Item → PurePath → PurePath → Entry → Type 0
  IsInside name item root base entry =
      (target : PurePath) × (target_of name item root base entry ≡ ok target)
      × (resolves_inside target ≡ true)

  -- The file of the main reference has the locked revision.
  abbrev pub HasRef : Item → PurePath → Type 0
  HasRef item root =
      (cache : PurePath) × (f : FileData) × (stt_repo_cache_path item root ≡ ok cache)
      × (file (join (join cache (path_of "refs")) (path_of "main")) ≡ some f)
      × (f.content ≡ item.revision)

  compare_file-same :
      (p : PurePath) (o : Option FileData) (entry : Entry)
      → compare_file file resolves_inside p o entry ≡ []
      → (f : FileData) × (o ≡ some f) × (f.size ≡ entry.size) × (f.sha256 ≡ entry.sha256)
  compare_file-same p none entry h = ground (arith, h)
  compare_file-same p (some f) entry h =
      (f, refl, ground (arith, h), ground (arith, h, eq_iff f.sha256 entry.sha256))

  compare_ref-same :
      (p : PurePath) (o : Option FileData) (revision : String)
      → compare_ref file resolves_inside p o revision ≡ []
      → (f : FileData) × (o ≡ some f) × (f.content ≡ revision)
  compare_ref-same p none revision h = ground (arith, h)
  compare_ref-same p (some f) revision h = (f, refl, ground (arith, h, eq_iff f.content revision))

  verify_files-IsPresent :
      (name : String) (item : Item) (root base : PurePath) (entries : List Entry)
      (failures : List Failure)
      → failures ≡ []
      → verify_files file resolves_inside name item root base entries ≡ ok failures
      → All (IsPresent name item root base) entries
  unfolding verify_files
  verify_files-IsPresent name item root base [] failures none_ h = tt
  verify_files-IsPresent name item root base (entry ∷ entries) failures none_ h =
      from_ok (target_of name item root base entry) _ failures
        (λ target e1.
          from_ok (verify_files file resolves_inside name item root base entries) _ failures
            λ rest e2 h1.
              let whole : verify_file file resolves_inside target entry ++ rest ≡ [] =
                ground (arith, h1, none_) in
              let (here, later) =
                append_empty (verify_file file resolves_inside target entry) rest whole in
              let (f, is_f, size, sha) = compare_file-same target (file target) entry here in
              (
                (target, f, e1, is_f, size, sha),
                verify_files-IsPresent name item root base entries rest later e2,
              ))
        h

  verify_ref-HasRef :
      (item : Item) (root : PurePath) (failures : List Failure)
      → failures ≡ []
      → verify_ref file resolves_inside "stt" item root ≡ ok failures
      → HasRef item root
  unfolding verify_ref
  verify_ref-HasRef item root failures none_ =
      from_ok (stt_repo_cache_path item root) _ failures λ cache e h.
        let ref = join (join cache (path_of "refs")) (path_of "main") in
        let empty : compare_ref file resolves_inside ref (file ref) item.revision ≡ [] =
          ground (arith, h, none_) in
        let (f, is_f, same) = compare_ref-same ref (file ref) item.revision empty in
        (cache, f, e, is_f, same)

  validate_files-IsInside :
      (name : String) (item : Item) (root base : PurePath) (entries : List Entry) (u : Unit {0})
      → validate_files file resolves_inside name item root base entries ≡ ok u
      → All (IsInside name item root base) entries
  unfolding validate_files
  validate_files-IsInside name item root base [] u = λ h. tt
  validate_files-IsInside name item root base (entry ∷ entries) u =
      from_ok (entry_is_safe file resolves_inside name entry) _ u λ _ e1.
        from_ok (target_of name item root base entry) _ u λ target e2.
          from_ok (refuse_if (not (resolves_inside target)) escapes_root) _ u λ _ e3 h.
            let inside : resolves_inside target ≡ true =
              ground (arith, refuse_if_ok (not (resolves_inside target)) escapes_root _ e3) in
            ((target, e2, inside), validate_files-IsInside name item root base entries u h)

  -- The files of a group are as the lock says, and so is the main reference of the speech recognition.
  abbrev pub Verified : Lock → PurePath → String → Type 0
  Verified lock root name =
      (item : Item) × (base : PurePath) × (find_item name lock ≡ some item)
      × (remap_local_path item.local_path root ≡ ok base)
      × All (IsPresent name item root base) item.files
      × (((name == "stt") ≡ false) ⊎ HasRef item root)

  -- The paths of a group lead to what is below the root.
  abbrev pub Contained : Lock → PurePath → String → Type 0
  Contained lock root name =
      (item : Item) × (base : PurePath) × (find_item name lock ≡ some item)
      × (remap_local_path item.local_path root ≡ ok base)
      × All (IsInside name item root base) item.files

  verify_ref-if_stt :
      (name : String) (item : Item) (root : PurePath) (failures : List Failure)
      → failures ≡ []
      → verify_ref file resolves_inside name item root ≡ ok failures
      → ((name == "stt") ≡ false) ⊎ HasRef item root
  verify_ref-if_stt name item root failures none_ h = elim (Bool-cases (name == "stt")) [
    | inl e ↦ inr (
        verify_ref-HasRef item root failures none_ (
          subst (λ n. verify_ref file resolves_inside n item root ≡ ok failures)
            ((eq_iff name "stt").0 e) h))
    | inr e ↦ inl e
  ]

  verify_groups-Verified :
      (lock : Lock) (root : PurePath) (names : List String) (failures : List Failure)
      → failures ≡ []
      → verify_groups file resolves_inside lock root names ≡ ok failures
      → All (Verified lock root) names
  unfolding verify_groups
  verify_groups-Verified lock root [] failures none_ = λ h. tt
  verify_groups-Verified lock root (name ∷ names) failures none_ =
      from_ok (demand (find_item name lock) groups_missing) _ failures λ item e1.
        from_ok (remap_local_path item.local_path root) _ failures λ base e2.
          from_ok (verify_files file resolves_inside name item root base item.files) _ failures
            λ files e3.
              from_ok (verify_ref file resolves_inside name item root) _ failures λ ref e4.
                from_ok (verify_groups file resolves_inside lock root names) _ failures λ rest e5 h.
                  let whole : files ++ (ref ++ rest) ≡ [] = ground (arith, h, none_) in
                  let (no_files, others) = append_empty files (ref ++ rest) whole in
                  let (no_ref, no_rest) = append_empty ref rest others in
                  (
                    (
                      item,
                      base,
                      demand_ok (find_item name lock) groups_missing item e1,
                      e2,
                      verify_files-IsPresent name item root base item.files files no_files e3,
                      verify_ref-if_stt name item root ref no_ref e4,
                    ),
                    verify_groups-Verified lock root names rest no_rest e5,
                  )

  validate_groups-Contained :
      (lock : Lock) (root : PurePath) (names : List String) (u : Unit {0})
      → validate_groups file resolves_inside lock root names ≡ ok u
      → All (Contained lock root) names
  unfolding validate_groups
  validate_groups-Contained lock root [] u = λ h. tt
  validate_groups-Contained lock root (name ∷ names) u =
      from_ok (demand (find_item name lock) groups_missing) _ u λ item e1.
        from_ok (remap_local_path item.local_path root) _ u λ base e2.
          from_ok (validate_files file resolves_inside name item root base item.files) _ u λ v e3 h.
            (
              (
                item,
                base,
                demand_ok (find_item name lock) groups_missing item e1,
                e2,
                validate_files-IsInside name item root base item.files v e3,
              ),
              validate_groups-Contained lock root names u h,
            )

contains-keep :
    (n : String) (wanted order : List String)
    → contains n order ≡ true
    → contains n wanted ≡ true
    → contains n (keep wanted order) ≡ true
contains-keep n wanted [] h w = ground (arith, h)
contains-keep n wanted (m ∷ ms) h w = elim (Bool-cases (m == n)) [
  | inl e ↦
      let known : contains m wanted ≡ true =
        subst (λ x. contains x wanted ≡ true) (sym ((eq_iff m n).0 e)) w in
      ground (arith, known, e)
  | inr e ↦ ground (arith, e, h, contains-keep n wanted ms (ground (arith, h, e)) w)
]

all-contains :
    (p : String → Bool) (n : String) (ns : List String)
    → all p ns ≡ true
    → contains n ns ≡ true
    → p n ≡ true
all-contains p n [] h i = ground (arith, i)
all-contains p n (m ∷ ms) h i = elim (Bool-cases (m == n)) [
  | inl e ↦ subst (λ x. p x ≡ true) ((eq_iff m n).0 e) (ground (arith, h))
  | inr e ↦ all-contains p n ms (ground (arith, h)) (ground (arith, i, e))
]

All-contains :
    (P : String → Type 0) (n : String) (ns : List String) → All P ns → contains n ns ≡ true → P n
All-contains P n [] h i = absurd (ground (arith, i))
All-contains P n (m ∷ ms) (p, h) i = elim (Bool-cases (m == n)) [
  | inl e ↦ subst P ((eq_iff m n).0 e) p
  | inr e ↦ All-contains P n ms h (ground (arith, i, e))
]

selected-contains :
    (lock : Lock) (wanted names : List String) (n : String)
    → selected_model_names lock wanted ≡ ok names
    → contains n wanted ≡ true
    → contains n names ≡ true
unfolding selected_model_names
selected-contains lock wanted names n h w =
    from_ok (refuse_if (not (all (λ m. contains m model_order) wanted)) unknown_groups) _ names
      (λ _ e1.
        from_ok (refuse_if (not (all (has_item lock) wanted)) groups_missing) _ names λ _ e2 h1.
          let same : keep wanted model_order ≡ names = ground (arith, h1) in
          let known : all (λ m. contains m model_order) wanted ≡ true = ground (
            arith,
            refuse_if_ok (not (all (λ m. contains m model_order) wanted)) unknown_groups _ e1,
          ) in
          subst (λ x. contains n x ≡ true) same
            (contains-keep n wanted model_order
              (all-contains (λ m. contains m model_order) n wanted known w) w))
      h

module _ (file : PurePath → Option FileData) (resolves_inside : PurePath → Bool) where
  -- When `verify_locked_models` finds no failure, then of each group that was wanted, the item is in the
  -- lock, each of its files is a regular file at its place, of the locked size and digest, whose path leads
  -- below the root, and the main reference of the speech recognition has the locked revision.
  pub verify_locked_models-Verified :
      (lock : Lock) (root : PurePath) (wanted : List String) (name : String)
      → verify_locked_models file resolves_inside lock root wanted ≡ ok []
      → contains name wanted ≡ true
      → Verified file resolves_inside lock root name × Contained file resolves_inside lock root name
  unfolding verify_locked_models validate_model_paths
  verify_locked_models-Verified lock root wanted name h w =
      from_ok (validate_model_paths file resolves_inside lock root wanted) _ []
        (λ u e1. from_ok (selected_model_names lock wanted) _ [] λ names e2 h1. (
          All-contains (Verified file resolves_inside lock root) name names
              (verify_groups-Verified file resolves_inside lock root names [] refl h1)
              (selected-contains lock wanted names name e2 w),
          from_ok (selected_model_names lock wanted) _ u
              (λ ns f1 g1.
                All-contains (Contained file resolves_inside lock root) name ns
                  (validate_groups-Contained file resolves_inside lock root ns u g1)
                  (selected-contains lock wanted ns name f1 w))
              e1,
        ))
        h
