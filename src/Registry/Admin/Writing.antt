-- ===== src/Registry/Admin/Writing.antt =====
-- Proofs about calls of `mutate` of client_access/admin.py, one after the other.
use single_gpu_ai_services.Base.{
  ℕ, ◌≡◌, inl, inr, ap, ◌∙◌, Bool, true, false, not, ◌&&◌, Option, none, some, List, [], ◌∷◌,
  String, ◌==◌, ok, arith,
}
use single_gpu_ai_services.Json.{Json}
use single_gpu_ai_services.Registry.Admin.{prepare, finish, mutate}
use single_gpu_ai_services.Registry.Clients.{
  Action, initialize, migrate, show_list, create, change, Host, Surroundings,
}
use single_gpu_ai_services.Registry.Admin.Permanent.{prepare-revoked, stored_revoked}
use single_gpu_ai_services.Registry.Admin.Delivery.{finish-Rewritten}

module _ (is_aware : String → Bool) (sha256 : String → String) (printed_size : Json → ℕ) where
  finish-revoked :
      (client_id : String) (s : Surroundings) (a : Action) (h : Host)
      → (s.timestamp == "") ≡ false
      → stored_revoked is_aware sha256 printed_size client_id h.registry ≡ true
      → stored_revoked is_aware sha256 printed_size client_id
          (finish is_aware sha256 printed_size s h
            (prepare is_aware sha256 printed_size s a h.registry)).1.registry
        ≡ true
  finish-revoked client_id s a h now r =
      elim (finish-Rewritten is_aware sha256 printed_size s h
        (prepare is_aware sha256 printed_size s a h.registry)) [
          | inl e ↦ ap (stored_revoked is_aware sha256 printed_size client_id) e ∙ r
          | inr (value, delivery, e, stored, delivered) ↦
              ap (stored_revoked is_aware sha256 printed_size client_id) stored
              ∙ of_stored h.registry value delivery r e
        ]
    where
      of_stored :
          (o : Option Json) (value : Json) (delivery : Option (String × String))
          → stored_revoked is_aware sha256 printed_size client_id o ≡ true
          → prepare is_aware sha256 printed_size s a o ≡ ok (value, delivery)
          → stored_revoked is_aware sha256 printed_size client_id (some value) ≡ true
      of_stored none value delivery k e = ground (arith, k)
      of_stored (some old) value delivery k e =
          prepare-revoked is_aware sha256 printed_size client_id s a old (value, delivery) now k e

  mutate-revoked :
      (client_id : String) (s : Surroundings) (a : Action) (h : Host)
      → (s.timestamp == "") ≡ false
      → stored_revoked is_aware sha256 printed_size client_id h.registry ≡ true
      → stored_revoked is_aware sha256 printed_size client_id
          (mutate is_aware sha256 printed_size s a h).1.registry
        ≡ true
  unfolding mutate
  mutate-revoked client_id s initialize h now r = finish-revoked client_id s initialize h now r
  mutate-revoked client_id s (migrate old) h now r =
      finish-revoked client_id s (migrate old) h now r
  mutate-revoked client_id s show_list h now r = r
  mutate-revoked client_id s (create a b c d e) h now r =
      finish-revoked client_id s (create a b c d e) h now r
  mutate-revoked client_id s (change other c) h now r =
      finish-revoked client_id s (change other c) h now r

  -- Calls of the program, one after the other.
  unfoldable pub mutate_all : List (Surroundings × Action) → Host → Host
  mutate_all [] h = h
  mutate_all ((s, a) ∷ calls) h = mutate_all calls (mutate is_aware sha256 printed_size s a h).1

  abbrev pub are_timed : List (Surroundings × Action) → Bool
  are_timed [] = true
  are_timed ((s, a) ∷ calls) = not (s.timestamp == "") && are_timed calls

  -- When the registry's file has a client with a time of revocation, it still has one with that identity
  -- after any calls, whatever they do and however they fail, if the times of the calls are not the empty
  -- text.
  pub mutate_all-revoked :
      (client_id : String) (calls : List (Surroundings × Action)) (h : Host)
      → are_timed calls ≡ true
      → stored_revoked is_aware sha256 printed_size client_id h.registry ≡ true
      → stored_revoked is_aware sha256 printed_size client_id (mutate_all calls h).registry ≡ true
  unfolding mutate_all
  mutate_all-revoked client_id [] h timed r = r
  mutate_all-revoked client_id ((s, a) ∷ calls) h timed r =
      mutate_all-revoked client_id calls (mutate is_aware sha256 printed_size s a h).1
        (ground (arith, timed)) (mutate-revoked client_id s a h (ground (arith, timed)) r)
