-- ===== src/Idempotency/Stored.antt =====
-- The map of src/shared/idempotency/idempotency.service.ts: what each operation leaves under a key.
use base_api_nest_js.Base.{
  ℕ, ◌≤◌, ◌≡◌, inl, inr, refl, arith, String, true, false, str_eq, eq_iff, none, some, [], ◌∷◌,
  Bool-cases,
}
use base_api_nest_js.Idempotency.{Slot, Memory, lookup, put, remove, gc_memory}

module _ (key : String) where
  pub lookup-put_same :
      (slot : Slot) (m : Memory) → str_eq slot.key key ≡ true → lookup key (put slot m) ≡ some slot
  unfolding lookup put
  lookup-put_same slot [] h = ground arith
  lookup-put_same slot (x ∷ m) h =
      let ih = lookup-put_same slot m h in
      let same = eq_iff slot.key key in
      let other = eq_iff x.key slot.key in let third = eq_iff x.key key in ground arith

  pub lookup-put_other :
      (slot : Slot) (m : Memory)
      → str_eq slot.key key ≡ false
      → lookup key (put slot m) ≡ lookup key m
  unfolding lookup put
  lookup-put_other slot [] h = ground arith
  lookup-put_other slot (x ∷ m) h =
      let ih = lookup-put_other slot m h in
      let same = eq_iff slot.key key in
      let other = eq_iff x.key slot.key in let third = eq_iff x.key key in ground arith

  pub lookup-remove_same : (m : Memory) → lookup key (remove key m) ≡ none
  unfolding lookup remove
  lookup-remove_same [] = refl
  lookup-remove_same (x ∷ m) =
      let ih = lookup-remove_same m in
      elim (Bool-cases (str_eq x.key key)) [ inl e ↦ ground arith | inr e ↦ ground arith ]

  pub lookup-remove_other :
      (other : String) (m : Memory)
      → str_eq other key ≡ false
      → lookup key (remove other m) ≡ lookup key m
  unfolding lookup remove
  lookup-remove_other other [] h = refl
  lookup-remove_other other (x ∷ m) h =
      let ih = lookup-remove_other other m h in
      let same = eq_iff x.key key in let gone = eq_iff x.key other in ground arith

  -- A slot that is not expired stays through the collection.
  pub lookup-gc_live :
      (now : ℕ) (slot : Slot) (m : Memory)
      → lookup key m ≡ some slot
      → now ≤ slot.expires_at
      → lookup key (gc_memory now m) ≡ some slot
  unfolding lookup gc_memory
  lookup-gc_live now slot [] h live = h
  lookup-gc_live now slot (x ∷ m) h live = let ih = lookup-gc_live now slot m in ground arith

  pub lookup-gc_none :
      (now : ℕ) (m : Memory) → lookup key m ≡ none → lookup key (gc_memory now m) ≡ none
  unfolding lookup gc_memory
  lookup-gc_none now [] h = h
  lookup-gc_none now (x ∷ m) h = let ih = lookup-gc_none now m in ground arith
