-- ===== src/Domain/Addresses.antt =====
-- packages/domain/src/index.ts: `allocateIpv4`, from the parsed pool on. An address is its number; a
-- set of dotted texts is a test on numbers, since `join('.')` writes a number in one way.
use private_cloud_control_pl.Prelude.{
  ◌≡◌, ◌≤◌, ◌<◌, ℕ, zero, suc, ◌+◌, ◌-◌, ◌^◌, ◌%◌, ◌==◌, Bool, true, false, ◌&&◌, ◌||◌, inl, inr,
  refl, subst, arith, Bool-cases, leb, if◌then◌else◌,
}

pub data Allocation : Type 0 where
  allocated : ℕ → Allocation
  validation_failed quota_exceeded : Allocation

-- `(unsignedNetwork + offset) >>> 0`.
abbrev pub candidate_at : ℕ → ℕ → ℕ
candidate_at network offset = (network + offset) % 2 ^ 32

-- The loop over the offsets from `offset` on, `remaining` of them.
unfoldable pub first_free : (ℕ → Bool) → ℕ → ℕ → ℕ → Allocation
first_free taken network offset zero = Allocation.quota_exceeded
first_free taken network offset (suc remaining) =
    let rest = first_free taken network (offset + 1) remaining in
    if taken (candidate_at network offset)
    then rest
    else Allocation.allocated (candidate_at network offset)

abbrev pub host_count : ℕ → ℕ
host_count prefix_length = 2 ^ (32 - prefix_length)

abbrev pub is_pool : ℕ → ℕ → Bool
is_pool network prefix_length =
    leb 1 prefix_length && leb prefix_length 30 && network % host_count prefix_length == 0

-- `excluded.has(candidate) || leased.has(candidate)`; the gateway is excluded.
abbrev pub is_taken : ℕ → (ℕ → Bool) → (ℕ → Bool) → ℕ → Bool
is_taken gateway exclusions leased candidate =
    exclusions candidate || candidate == gateway || leased candidate

unfoldable pub allocate_ipv4 : ℕ → ℕ → ℕ → (ℕ → Bool) → (ℕ → Bool) → Allocation
unfolding first_free
allocate_ipv4 network prefix_length gateway exclusions leased =
    if is_pool network prefix_length
    then first_free (is_taken gateway exclusions leased) network 1 (host_count prefix_length - 2)
    else Allocation.validation_failed

-- The free address with the lowest offset in a range, or none.
abbrev pub IsLowest : (ℕ → Bool) → ℕ → ℕ → ℕ → Allocation → Type 0
IsLowest taken network offset remaining (Allocation.allocated address) =
    (chosen : ℕ) × (address ≡ candidate_at network chosen)
    × (offset ≤ chosen)
    × (chosen < offset + remaining)
    × (taken address ≡ false)
    × ((other : ℕ) → offset ≤ other → other < chosen → taken (candidate_at network other) ≡ true)
IsLowest taken network offset remaining Allocation.quota_exceeded =
    (other : ℕ)
    → offset ≤ other
    → other < offset + remaining
    → taken (candidate_at network other) ≡ true
IsLowest taken network offset remaining Allocation.validation_failed = ⊥

offset_equal : (a b : ℕ) → (b == a) ≡ true → a ≡ b
offset_equal a b e = ground arith

offset_above : (a b : ℕ) → a ≤ b → (b == a) ≡ false → a + 1 ≤ b
offset_above a b low e = ground arith

-- What holds from the next offset on holds from a taken one on.
later-IsLowest :
    (taken : ℕ → Bool) (network offset remaining : ℕ) (a : Allocation)
    → taken (candidate_at network offset) ≡ true
    → IsLowest taken network (offset + 1) remaining a
    → IsLowest taken network offset (suc remaining) a
later-IsLowest taken network offset remaining Allocation.quota_exceeded here h = λ other low high.
    elim (Bool-cases (other == offset)) [
      | inl same ↦
          subst (λ o. taken (candidate_at network o) ≡ true) (offset_equal offset other same) here
      | inr differs ↦ h other (offset_above offset other low differs) (omega arith)
    ]
later-IsLowest taken network offset remaining Allocation.validation_failed here h = h
later-IsLowest taken network offset remaining (Allocation.allocated address) here
      (chosen, same, low, high, free, first) =
    (
      chosen,
      same,
      omega arith,
      omega arith,
      free,
      λ other from below. elim (Bool-cases (other == offset)) [
        | inl equals ↦
            subst (λ o. taken (candidate_at network o) ≡ true) (offset_equal offset other equals)
              here
        | inr differs ↦ first other (offset_above offset other from differs) below
      ],
    )

first_free-IsLowest :
    (taken : ℕ → Bool) (network offset remaining : ℕ)
    → IsLowest taken network offset remaining (first_free taken network offset remaining)
unfolding first_free
first_free-IsLowest taken network offset zero = λ other low high. absurd (omega arith)
first_free-IsLowest taken network offset (suc remaining) =
    elim (Bool-cases (taken (candidate_at network offset))) [
      | inl e ↦ rw e (
          later-IsLowest taken network offset remaining
            (first_free taken network (offset + 1) remaining) e
            (first_free-IsLowest taken network (offset + 1) remaining))
      | inr e ↦
          rw e (offset, refl, omega arith, omega arith, e, λ other low below. absurd (omega arith))
    ]

-- From a pool with a network address and a prefix of 1 to 30, the allocation is the address at the
-- lowest host offset (network and broadcast left out) that is no exclusion, not the gateway and not
-- leased; the quota is exceeded only where every host address is one of these.
pub allocate_ipv4-IsLowest :
    (network prefix_length gateway : ℕ) (exclusions leased : ℕ → Bool)
    → is_pool network prefix_length ≡ true
    → IsLowest
        (is_taken gateway exclusions leased)
        network
        1
        (host_count prefix_length - 2)
        (allocate_ipv4 network prefix_length gateway exclusions leased)
unfolding allocate_ipv4
allocate_ipv4-IsLowest network prefix_length gateway exclusions leased pool = rw pool (
    first_free-IsLowest (is_taken gateway exclusions leased) network 1
      (host_count prefix_length - 2))
