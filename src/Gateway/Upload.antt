-- ===== src/Gateway/Upload.antt =====
-- `_read_upload_limited` of gateway/app/main.py, on a file that is read in chunks. The file is a
-- parameter; the `while` loop is a recursion on fuel.
use single_gpu_ai_services.Base.{
  ℕ, zero, suc, ◌+◌, ◌-◌, ◌≤◌, ◌<◌, min, ◌≡◌, ◌≢◌, refl, sym, ap, ◌∙◌, inl, inr, List, [], ◌∷◌,
  ◌++◌, arith, if◌then◌else◌, ltb, Result, ok, err, Bool-cases, length, length-append,
}
use mathlib.Core.List.{append-nil, append_assoc}

pub record Upload : Type 1 where
  pub World : Type 0
  pub read : ℕ → World → List ℕ × World

pub data UploadError : Type 0 where
  upload_too_large : UploadError
  -- The fuel of the model is used up.
  out_of_fuel : UploadError

abbrev pub chunk_size : ℕ
chunk_size = 1048576

module _ (u : Upload) (max_bytes : ℕ) where
  -- The body of the loop after a read, with what was read before.
  abbrev pub extend :
      (List ℕ → u.World → Result UploadError (List ℕ))
      → List ℕ
      → List ℕ × u.World
      → Result UploadError (List ℕ)
  extend again chunks ([], w) = ok chunks
  extend again chunks (b ∷ bs, w) =
      let more = chunks ++ b ∷ bs in
      if ltb max_bytes (length more) then err upload_too_large else again more w

  unfoldable pub read_chunks : ℕ → List ℕ → u.World → Result UploadError (List ℕ)
  read_chunks zero chunks w = err out_of_fuel
  read_chunks (suc fuel) chunks w =
      extend (read_chunks fuel) chunks (u.read (min chunk_size (max_bytes - length chunks + 1)) w)

  -- Each turn but the last adds a byte, so one turn more than the bound is enough.
  unfoldable pub read_upload : u.World → Result UploadError (List ℕ)
  read_upload w = read_chunks (suc max_bytes) [] w

  -- What is relied on of the file: a read gives the next bytes, and none only at the end.
  pub record Reader : Type 0 where
    pub rest : u.World → List ℕ
    pub reads : (n : ℕ) (w : u.World) → rest w ≡ (u.read n w).0 ++ rest (u.read n w).1
    pub at_end : (n : ℕ) (w : u.World) → 1 ≤ n → (u.read n w).0 ≡ [] → rest w ≡ []

  -- A file that is read at once.
  abbrev pub bounded : List ℕ → Result UploadError (List ℕ)
  bounded whole = if ltb max_bytes (length whole) then err upload_too_large else ok whole

module _ (u : Upload) (max_bytes : ℕ) where
  extend-ne-out_of_fuel :
      (again : List ℕ → u.World → Result UploadError (List ℕ)) (chunks : List ℕ)
      (t : List ℕ × u.World)
      → ((more : List ℕ)
          → length chunks < length more
          → length more ≤ max_bytes
          → again more t.1 ≢ err out_of_fuel)
      → extend u max_bytes again chunks t ≢ err out_of_fuel
  extend-ne-out_of_fuel again chunks ([], w) go = λ h. ground (arith, h)
  extend-ne-out_of_fuel again chunks (b ∷ bs, w) go =
      let more = chunks ++ b ∷ bs in
      let grown = length-append chunks (b ∷ bs) in
      elim (Bool-cases (ltb max_bytes (length more))) [
        | inl big ↦ rw big (λ h. ground (arith, h))
        | inr small ↦ rw small (go more (omega (arith, grown)) (ground (arith, small)))
      ]

  read_chunks-ne-out_of_fuel :
      (fuel : ℕ) (chunks : List ℕ) (w : u.World)
      → length chunks ≤ max_bytes
      → max_bytes < length chunks + fuel
      → read_chunks u max_bytes fuel chunks w ≢ err out_of_fuel
  unfolding read_chunks
  read_chunks-ne-out_of_fuel zero chunks w fits enough = absurd (omega (arith, fits, enough))
  read_chunks-ne-out_of_fuel (suc fuel) chunks w fits enough =
      let n = min chunk_size (max_bytes - length chunks + 1) in
      extend-ne-out_of_fuel (read_chunks u max_bytes fuel) chunks (u.read n w) (λ more longer small.
        read_chunks-ne-out_of_fuel fuel more (u.read n w).1 small (omega (arith, enough, longer)))

  -- Whatever a read gives, the fuel is enough.
  pub read_upload-ne-out_of_fuel : (w : u.World) → read_upload u max_bytes w ≢ err out_of_fuel
  unfolding read_upload
  read_upload-ne-out_of_fuel w =
      read_chunks-ne-out_of_fuel (suc max_bytes) [] w (omega arith) (omega arith)

module _ (u : Upload) (max_bytes : ℕ) (k : Reader u max_bytes) where
  extend-bounded :
      (again : List ℕ → u.World → Result UploadError (List ℕ)) (chunks : List ℕ)
      (t : List ℕ × u.World) (rest_ : List ℕ)
      → rest_ ≡ t.0 ++ k.rest t.1
      → (t.0 ≡ [] → rest_ ≡ [])
      → length chunks ≤ max_bytes
      → ((more : List ℕ)
          → length chunks < length more
          → length more ≤ max_bytes
          → again more t.1 ≡ bounded u max_bytes (more ++ k.rest t.1))
      → extend u max_bytes again chunks t ≡ bounded u max_bytes (chunks ++ rest_)
  extend-bounded again chunks ([], w) rest_ e done fits go =
      rw (done refl) (rw (append-nil chunks) (ground (arith, fits)))
  extend-bounded again chunks (b ∷ bs, w) rest_ e done fits go =
      let more = chunks ++ b ∷ bs in
      let grown = length-append chunks (b ∷ bs) in
      let same : chunks ++ rest_ ≡ more ++ k.rest w =
        ap (λ v. chunks ++ v) e ∙ sym (append_assoc chunks (b ∷ bs) (k.rest w)) in
      let size = length-append more (k.rest w) in
      rw same (elim (Bool-cases (ltb max_bytes (length more))) [
        | inl big ↦ ground (arith, big, size)
        | inr small ↦ rw small (go more (omega (arith, grown)) (ground (arith, small)))
      ])

  read_chunks-bounded :
      (fuel : ℕ) (chunks : List ℕ) (w : u.World)
      → length chunks ≤ max_bytes
      → max_bytes < length chunks + fuel
      → read_chunks u max_bytes fuel chunks w ≡ bounded u max_bytes (chunks ++ k.rest w)
  unfolding read_chunks
  read_chunks-bounded zero chunks w fits enough = absurd (omega (arith, fits, enough))
  read_chunks-bounded (suc fuel) chunks w fits enough =
      let n = min chunk_size (max_bytes - length chunks + 1) in
      extend-bounded (read_chunks u max_bytes fuel) chunks (u.read n w) (k.rest w) (k.reads n w)
        (k.at_end n w (ground arith)) fits
        (λ more longer small.
          read_chunks-bounded fuel more (u.read n w).1 small (omega (arith, enough, longer)))

  -- Of a file whose reads give the next bytes, and none only at the end, `_read_upload_limited` gives
  -- the whole content if it has at most `max_bytes` bytes, and otherwise raises that it is too large.
  pub read_upload-bounded :
      (w : u.World) → read_upload u max_bytes w ≡ bounded u max_bytes (k.rest w)
  unfolding read_upload
  read_upload-bounded w = read_chunks-bounded (suc max_bytes) [] w (omega arith) (omega arith)
