-- ===== src/Domain/Resize.antt =====
-- packages/domain/src/index.ts: `validateResize`.
use private_cloud_control_pl.Prelude.{
  ◌≡◌, ◌≢◌, ◌≤◌, ◌<◌, ℕ, ◌==◌, Bool, true, false, ◌&&◌, inl, inr, refl, arith, Bool-cases, ltb,
  ltb→lt, if◌then◌else◌,
}
use private_cloud_control_pl.Contracts.Events.{Resources}

pub record ResizeRequest : Type 0 where
  pub current : Resources
  pub target : Resources

-- The `DomainError` codes of a resize, or its acceptance.
pub data ResizeVerdict : Type 0 where
  accepted disk_shrink_forbidden validation_failed : ResizeVerdict

abbrev pub is_unchanged : ResizeRequest → Bool
is_unchanged request =
    request.target.cpu_count == request.current.cpu_count
    && request.target.memory_mib == request.current.memory_mib
    && request.target.disk_gib == request.current.disk_gib

unfoldable pub validate_resize : ResizeRequest → ResizeVerdict
validate_resize request =
    if ltb request.target.disk_gib request.current.disk_gib
    then ResizeVerdict.disk_shrink_forbidden
    else if is_unchanged request
    then ResizeVerdict.validation_failed
    else ResizeVerdict.accepted

-- What each verdict says of the request.
abbrev pub Justifies : ResizeVerdict → ResizeRequest → Type 0
Justifies ResizeVerdict.accepted request =
    (request.current.disk_gib ≤ request.target.disk_gib) × (request.target ≢ request.current)
Justifies ResizeVerdict.disk_shrink_forbidden request =
    request.target.disk_gib < request.current.disk_gib
Justifies ResizeVerdict.validation_failed request = request.target ≡ request.current

Resources_ext :
    (a b : Resources)
    → a.cpu_count ≡ b.cpu_count
    → a.memory_mib ≡ b.memory_mib
    → a.disk_gib ≡ b.disk_gib
    → a ≡ b
Resources_ext a b cpu memory disk = cc

same_facts : (a b c d e f : ℕ) → (a == b && c == d && e == f) ≡ true → (a ≡ b) × (c ≡ d) × (e ≡ f)
same_facts a b c d e f h = ground arith

==_refl : (a : ℕ) → (a == a) ≡ true
==_refl a = ground arith

changed :
    (request : ResizeRequest) → is_unchanged request ≡ false → request.target ≢ request.current
changed request h e =
    let same : is_unchanged request ≡ true =
      rw
        (
          e,
          ==_refl request.current.cpu_count,
          ==_refl request.current.memory_mib,
          ==_refl request.current.disk_gib,
        )
        refl in
    cc

-- A resize is accepted only where the disk does not shrink and some size changes; it is refused as a
-- shrink only where the disk shrinks, and as invalid only where it changes nothing.
pub validate_resize-Justifies :
    (request : ResizeRequest) → Justifies (validate_resize request) request
unfolding validate_resize
validate_resize-Justifies request =
    elim (Bool-cases (ltb request.target.disk_gib request.current.disk_gib)) [
      | inl shrinks ↦ rw shrinks (ltb→lt request.target.disk_gib request.current.disk_gib shrinks)
      | inr grows ↦ elim (Bool-cases (is_unchanged request)) [
        | inl same ↦
            let (cpu, memory, disk) =
              same_facts request.target.cpu_count request.current.cpu_count
                request.target.memory_mib request.current.memory_mib request.target.disk_gib
                request.current.disk_gib same in
            rw (grows, same) (Resources_ext request.target request.current cpu memory disk)
        | inr other ↦ rw (grows, other) (no_shrink grows, changed request other)
      ]
    ]
  where
    no_shrink : {a b : ℕ} → ltb a b ≡ false → b ≤ a
    no_shrink h = ground arith
