-- ===== src/Bolt/Pending.antt =====
-- The deferred deletions and writes of the scan of adapters/db/bolt/bolt.go, as what they leave of each key.
use mathlib.Core.Path.{subst}
use greyd_v.Base.{
  Bytes, bytes_eq, bytes_eq_iff, if◌then◌else◌, false, List, [], ◌∷◌, ◌++◌, none, some, ◌≡◌, refl,
  sym, ap, ◌∙◌, All, Bool-cases, inl, inr,
}
use greyd_v.Bolt.{Bucket, apply_dels, apply_puts}

module _ {B : Type 0} (bbolt : Bucket B) where
  get-apply_dels :
      (k raw : Bytes) (ds : List Bytes) (b : B)
      → bbolt.get k (apply_dels bbolt (ds ++ (raw ∷ [])) b)
        ≡ (if bytes_eq raw k then none else bbolt.get k (apply_dels bbolt ds b))
  unfolding apply_dels
  get-apply_dels k raw [] b = bbolt.get-delete raw k b
  get-apply_dels k raw (j ∷ ds) b = get-apply_dels k raw ds (bbolt.delete j b)

  -- A write behind the others.
  pub get-apply_puts :
      (k key v : Bytes) (ps : List (Bytes × Bytes)) (b : B)
      → bbolt.get k (apply_puts bbolt (ps ++ ((key, v) ∷ [])) b)
        ≡ (if bytes_eq key k then some v else bbolt.get k (apply_puts bbolt ps b))
  unfolding apply_puts
  get-apply_puts k key v [] b = bbolt.get-put key k v b
  get-apply_puts k key v ((j, u) ∷ ps) b = get-apply_puts k key v ps (bbolt.put j u b)

  apply_puts_same :
      (k : Bytes) (ps : List (Bytes × Bytes)) (b c : B)
      → bbolt.get k b ≡ bbolt.get k c
      → bbolt.get k (apply_puts bbolt ps b) ≡ bbolt.get k (apply_puts bbolt ps c)
  unfolding apply_puts
  apply_puts_same k [] b c h = h
  apply_puts_same k ((j, u) ∷ ps) b c h = apply_puts_same k ps (bbolt.put j u b) (bbolt.put j u c) (
      bbolt.get-put j k u b
      ∙ ap (λ o. if bytes_eq j k then some u else o) h
      ∙ sym (bbolt.get-put j k u c))

  apply_puts_other :
      (k : Bytes) (ps : List (Bytes × Bytes)) (b : B)
      → All (λ p. bytes_eq p.0 k ≡ false) ps
      → bbolt.get k (apply_puts bbolt ps b) ≡ bbolt.get k b
  unfolding apply_puts
  apply_puts_other k [] b h = refl
  apply_puts_other k ((j, u) ∷ ps) b h =
      apply_puts_other k ps (bbolt.put j u b) h.1
      ∙ (bbolt.get-put j k u b ∙ ap (λ t. if t then some u else bbolt.get k b) h.0)

  -- A deletion behind the others, of a key that no write is about.
  pub get-deleted :
      (k raw : Bytes) (ds : List Bytes) (ps : List (Bytes × Bytes)) (b : B)
      → All (λ p. bytes_eq p.0 raw ≡ false) ps
      → bbolt.get k (apply_puts bbolt ps (apply_dels bbolt (ds ++ (raw ∷ [])) b)) ≡ (
          if bytes_eq raw k
          then none
          else bbolt.get k (apply_puts bbolt ps (apply_dels bbolt ds b)))
  get-deleted k raw ds ps b away = elim (Bool-cases (bytes_eq raw k)) [
    | inl e ↦ rw e (
        apply_puts_other k ps _
          (subst (λ r. All (λ p. bytes_eq p.0 r ≡ false) ps) ((bytes_eq_iff raw k).0 e) away)
        ∙ (get-apply_dels k raw ds b
            ∙ ap (λ t. if t then none else bbolt.get k (apply_dels bbolt ds b)) e))
    | inr e ↦ rw e (
        apply_puts_same k ps _ _ (
          get-apply_dels k raw ds b
          ∙ ap (λ t. if t then none else bbolt.get k (apply_dels bbolt ds b)) e))
  ]
