-- ===== src/Httpapi/Idempotency/World.antt =====
-- What a request through the wrapper does to the handler's world.
use flames.Prelude.{Bool-cases, Option-cases, inl, inr, ◌⊎◌, List, ◌≡◌, refl, ◌==◌, string_eq}
use flames.Runtime.{Env, Bytes, bytes_eq}
use flames.Result.{Result-cases}
use flames.Httpapi.{Request, WriterCall}
use flames.Httpapi.Errors.{ErrorResponse}
use flames.Httpapi.Idempotency.{look_up, resume, IdempotencyStore, find_entry, execute, wrap}

module _ (sum256 : Bytes → Bytes) (encode : ErrorResponse → Bytes) {W : Type 0}
    (next : Request → W → List WriterCall × W) where
  -- It runs the handler once, or not at all.
  pub wrap-world :
      (e e' : Env) (r : Request) (s : IdempotencyStore) (w : W)
      → let world = (wrap sum256 encode next e e' r (s, w)).1.1 in
        (world ≡ w) ⊎ (world ≡ (next r w).1)
  unfolding wrap look_up resume execute
  wrap-world e e' r s w = elim (Bool-cases (r.idempotency_key == "")) [
    | inl p ↦ inr (rw p refl)
    | inr p ↦ elim (Result-cases r.body) [
      | inr (x, b) ↦ inl (rw (p, b) refl)
      | inl (body, b) ↦ elim (Option-cases (find_entry e r.idempotency_key s).0) [
        | inl f ↦ inr (simp (p, b, f))
        | inr (entry, f) ↦ elim (Bool-cases (entry.request_hash == sum256 body)) [
          | inl h ↦ inl (rw (p, b, f, h) refl)
          | inr h ↦ inl (rw (p, b, f, h) refl)
        ]
      ]
    ]
  ]
