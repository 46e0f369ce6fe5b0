-- ===== src/Rollout/Hash.antt =====
-- `hashTenantId` (src/classification/services/canary-rollout.service.ts): 32-bit arithmetic on
-- JavaScript numbers, which hold every value that occurs here exactly.
use volunteer_training.Prelude.{
  ℕ, ◌+◌, ◌-◌, ◌*◌, ◌%◌, ◌≤◌, ◌<◌, ◌≡◌, refl, sym, ap, ◌∙◌, List, [], ◌∷◌, arith, ltb,
  if◌then◌else◌,
}
use volunteer_training.Prelude.Int.{
  ℤ, pos, negsuc, pos_part, neg_part, ◌+ℤ◌, ◌-ℤ◌, ◌*ℤ◌, +ℤ_parts, -ℤ_parts,
}

-- The bits of an integer modulo 2^32.
unfoldable pub to_u32 : ℤ → ℕ
to_u32 (pos n) = n % 4294967296
to_u32 (negsuc n) = 4294967295 - n % 4294967296

-- The signed integer with these bits.
unfoldable pub from_u32 : ℕ → ℤ
from_u32 u = if ltb u 2147483648 then pos u else negsuc (4294967295 - u)

-- What the bit operators of JavaScript do to their operands and results.
unfoldable pub to_int32 : ℤ → ℤ
to_int32 z = from_u32 (to_u32 z)

-- One round: `hash = (hash << 5) - hash + char; hash = hash & hash;`
unfoldable pub hash_round : ℤ → ℕ → ℤ
hash_round hash char = to_int32 (to_int32 (hash *ℤ pos 32) -ℤ hash +ℤ pos char)

unfoldable pub hash_from : ℤ → List ℕ → ℤ
hash_from hash [] = hash
hash_from hash (c ∷ cs) = hash_from (hash_round hash c) cs

abbrev pub abs : ℤ → ℕ
abs z = pos_part z + neg_part z

unfoldable pub hash_tenant_id : List ℕ → ℕ
unfolding hash_from
hash_tenant_id units = abs (hash_from (pos 0) units)

-- The polynomial with coefficient 31, with no reduction.
pub polynomial : ℕ → List ℕ → ℕ
polynomial acc [] = acc
polynomial acc (c ∷ cs) = polynomial (31 * acc + c) cs

-- The bits of an integer, by the congruence that fixes them.
to_u32_congruent :
    (z : ℤ)
    → (to_u32 z < 4294967296) × ((to_u32 z + neg_part z) % 4294967296 ≡ pos_part z % 4294967296)
unfolding to_u32
to_u32_congruent (pos n) = omega arith
to_u32_congruent (negsuc n) = omega arith

to_u32_unique :
    (z : ℤ) (u : ℕ)
    → u < 4294967296
    → (u + neg_part z) % 4294967296 ≡ pos_part z % 4294967296
    → to_u32 z ≡ u
to_u32_unique z u h e = omega (arith, to_u32_congruent z)

from_u32_congruent :
    (u : ℕ)
    → u < 4294967296
    → (u + neg_part (from_u32 u)) % 4294967296 ≡ pos_part (from_u32 u) % 4294967296
unfolding from_u32
from_u32_congruent u h = ground arith

to_int32_congruent :
    (z : ℤ)
    → (pos_part (to_int32 z) + neg_part z) % 4294967296
      ≡ (neg_part (to_int32 z) + pos_part z) % 4294967296
unfolding to_int32
to_int32_congruent z =
    omega (arith, to_u32_congruent z, from_u32_congruent (to_u32 z) (to_u32_congruent z).0)

to_u32-to_int32 : (z : ℤ) → to_u32 (to_int32 z) ≡ to_u32 z
to_u32-to_int32 z =
    to_u32_unique (to_int32 z) (to_u32 z) (to_u32_congruent z).0
      (omega (arith, to_u32_congruent z, to_int32_congruent z))

shift_parts :
    (h : ℤ)
    → (pos_part (h *ℤ pos 32) ≡ 32 * pos_part h) × (neg_part (h *ℤ pos 32) ≡ 32 * neg_part h)
unfolding ◌*ℤ◌
shift_parts (pos n) = ground arith
shift_parts (negsuc n) = ground arith

-- One round multiplies the bits by 31 and adds the code unit, modulo 2^32.
to_u32-hash_round : (h : ℤ) (c : ℕ) → to_u32 (hash_round h c) ≡ (31 * to_u32 h + c) % 4294967296
unfolding hash_round
to_u32-hash_round h c =
    to_u32-to_int32 _
    ∙ to_u32_unique _ _ (omega arith) (
        omega (
          arith,
          to_int32_congruent (h *ℤ pos 32),
          shift_parts h,
          to_u32_congruent h,
          +ℤ_parts (to_int32 (h *ℤ pos 32) -ℤ h) (pos c),
          -ℤ_parts (to_int32 (h *ℤ pos 32)) h,
        ))

polynomial_congruent :
    (a b : ℕ) (units : List ℕ)
    → a % 4294967296 ≡ b % 4294967296
    → polynomial a units % 4294967296 ≡ polynomial b units % 4294967296
unfolding polynomial
polynomial_congruent a b [] h = h
polynomial_congruent a b (c ∷ cs) h =
    polynomial_congruent (31 * a + c) (31 * b + c) cs (omega arith)

to_u32-hash_from :
    (h : ℤ) (units : List ℕ) → to_u32 (hash_from h units) ≡ polynomial (to_u32 h) units % 4294967296
unfolding hash_from polynomial
to_u32-hash_from h [] = omega (arith, to_u32_congruent h)
to_u32-hash_from h (c ∷ cs) =
    to_u32-hash_from (hash_round h c) cs
    ∙ polynomial_congruent _ _ cs (omega (arith, to_u32-hash_round h c))

-- An integer that its bits determine.
abbrev IsInt32 : ℤ → Type 0
IsInt32 z = z ≡ from_u32 (to_u32 z)

hash_round-IsInt32 : (h : ℤ) (c : ℕ) → IsInt32 (hash_round h c)
unfolding hash_round to_int32
hash_round-IsInt32 h c =
    ap from_u32 (sym (unfold to_int32 in to_u32-to_int32 (to_int32 (h *ℤ pos 32) -ℤ h +ℤ pos c)))

hash_from-IsInt32 : (h : ℤ) (units : List ℕ) → IsInt32 h → IsInt32 (hash_from h units)
unfolding hash_from
hash_from-IsInt32 h [] i = i
hash_from-IsInt32 h (c ∷ cs) i = hash_from-IsInt32 (hash_round h c) cs (hash_round-IsInt32 h c)

abs-from_u32-le : (u : ℕ) → u < 4294967296 → abs (from_u32 u) ≤ 2147483648
unfolding from_u32
abs-from_u32-le u h = ground arith

zero_bits : (to_u32 (pos 0) ≡ 0) × IsInt32 (pos 0)
unfolding to_u32 from_u32
zero_bits = (refl, refl)

-- The hash of a tenant is the magnitude of the 32-bit integer whose bits are the exact polynomial of
-- its code units with coefficient 31, reduced once; it is at most 2^31, and its bucket below 100.
pub hash_tenant_id-polynomial :
    (units : List ℕ)
    → (hash_tenant_id units ≡ abs (from_u32 (polynomial 0 units % 4294967296)))
      × (hash_tenant_id units ≤ 2147483648)
      × (hash_tenant_id units % 100 < 100)
unfolding hash_tenant_id
hash_tenant_id-polynomial units = (same, rw same (abs-from_u32-le _ (omega arith)), omega arith)
  where
    same : abs (hash_from (pos 0) units) ≡ abs (from_u32 (polynomial 0 units % 4294967296))
    same = ap abs (
        hash_from-IsInt32 (pos 0) units zero_bits.1
        ∙ ap from_u32 (
            to_u32-hash_from (pos 0) units ∙ ap (λ a. polynomial a units % 4294967296) zero_bits.0))
