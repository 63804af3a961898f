-- ===== src/Registry.antt =====
-- client_access/registry.py: `TokenStore`, which reads the registry of clients again when its file has
-- changed.
--
-- What the file system holds at a call is an input, and `sha256` of a token is a parameter. What `_read`
-- makes of a file, its rows or an exception, is part of that input.
pub mod Store
pub mod Scopes
pub mod Validation
pub mod Clients
pub mod Admin
mod Tests
use single_gpu_ai_services.Base.{
  ℕ, ◌≡◌, Bool, true, false, not, ◌&&◌, ◌||◌, Option, none, some, List, [], ◌∷◌, String, ◌==◌,
  if◌then◌else◌, eqb, leb, ltb, contains, length, any, codes, is_space, lower, eq_codes,
}

-- A row of the registry, as `validate_registry` leaves it.
pub record Row : Type 0 where
  pub client_id : String
  pub token_sha256 : String
  pub scopes : List String
  pub enabled : Bool
  pub revoked_at : Option String

pub record ClientIdentity : Type 0 where
  pub client_id : String
  pub scopes : List String

-- `_fingerprint`: device, inode, size, and two times.
pub record Fingerprint : Type 0 where
  pub dev : ℕ
  pub ino : ℕ
  pub size : ℕ
  pub mtime : ℕ
  pub ctime : ℕ

abbrev pub same_print : Fingerprint → Fingerprint → Bool
same_print a b =
    eqb a.dev b.dev
    && eqb a.ino b.ino
    && eqb a.size b.size
    && eqb a.mtime b.mtime
    && eqb a.ctime b.ctime

-- The file at a call: `lstat` of it, where it is a regular file, and what `_read` returns or `none`
-- where it raises.
pub record Disk : Type 0 where
  pub stat : Option Fingerprint
  pub read : Option (List Row × Fingerprint)

pub record TokenStore : Type 0 where
  pub stamp : Option Fingerprint
  pub clients : List Row

-- What a call gives: a value, or `RegistryUnavailable`.
pub data Answer (A : Type 0) : Type 0 where
  answered : A → Answer A
  unavailable : Answer A

abbrev pub is_stamp : Option Fingerprint → Fingerprint → Bool
is_stamp none f = false
is_stamp (some g) f = same_print f g

abbrev pub forgotten : TokenStore
forgotten = record { stamp = none; clients = [] }

-- The reading of a file that is new to the store.
unfoldable pub reload : Option (List Row × Fingerprint) → Answer (List Row) × TokenStore
reload none = (unavailable, forgotten)
reload (some (rows, f)) = (answered rows, record { stamp = some f; clients = rows })

-- `_refresh`
unfoldable pub refresh : Disk → TokenStore → Answer (List Row) × TokenStore
refresh d t = elim d.stat [
  | none ↦ (unavailable, forgotten)
  | some f ↦ if is_stamp t.stamp f then (answered t.clients, t) else reload d.read
]

-- `__init__`, where it does not raise, leaves the store that a refresh of a new one leaves.
abbrev pub new_store : Disk → Answer (List Row) × TokenStore
new_store d = refresh d forgotten

-- `text.partition(" ")`, where the separator is found.
abbrev pub partition : List ℕ → Option (List ℕ × List ℕ)
partition [] = none
partition (c ∷ cs) =
    let rest = partition cs in
    if eqb c 32 then some ([], cs) else (elim rest [ none ↦ none | some p ↦ some (c ∷ p.0, p.1) ])

abbrev pub is_empty : List ℕ → Bool
is_empty [] = true
is_empty (c ∷ cs) = false

-- The token of an `authorization` header that has one.
unfoldable pub bearer_token : Option String → Option (List ℕ)
bearer_token none = none
bearer_token (some header) =
    let text = codes header in
    if ltb 4096 (length text) then none else elim (partition text) [
      | none ↦ none
      | some p ↦
          if not (eq_codes (lower p.0) (codes "bearer")) || is_empty p.1 || any is_space p.1
          then none
          else some p.1
    ]

abbrev pub is_revoked : Option String → Bool
is_revoked none = false
is_revoked (some t) = not (t == "")

abbrev pub has_scope : Option String → List String → Bool
has_scope none scopes = true
has_scope (some s) scopes = contains s scopes

-- The body of the loop, on a row whose digest is the presented one.
unfoldable pub identity_of : Option String → Row → Option ClientIdentity
identity_of required r =
    if not r.enabled || is_revoked r.revoked_at
    then none
    else (if not (has_scope required r.scopes)
        then none
        else some (record { client_id = r.client_id; scopes = r.scopes }))

unfoldable pub find_client : String → Option String → List Row → Option ClientIdentity
find_client presented required [] = none
find_client presented required (r ∷ rs) =
    let rest = find_client presented required rs in
    if presented == r.token_sha256 then identity_of required r else rest

module _ (sha256 : List ℕ → String) where
  unfoldable pub identify : Option String → Option String → List Row → Option ClientIdentity
  identify header required rows = elim (bearer_token header) [
    | none ↦ none
    | some token ↦ find_client (sha256 token) required rows
  ]

  abbrev pub answer_with :
      Option String
      → Option String
      → Answer (List Row) × TokenStore
      → Answer (Option ClientIdentity) × TokenStore
  answer_with header required (unavailable, t) = (unavailable, t)
  answer_with header required (answered rows, t) = (answered (identify header required rows), t)

  -- `authenticate`
  unfoldable pub authenticate :
      Option String
      → Option String
      → Disk
      → TokenStore
      → Answer (Option ClientIdentity) × TokenStore
  authenticate header required d t = answer_with header required (refresh d t)
