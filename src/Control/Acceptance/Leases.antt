-- ===== src/Control/Acceptance/Leases.antt =====
-- packages/postgres-adapter/src/control-plane-store.ts: the leases after a release.
use private_cloud_control_pl.Prelude.{
  ◌≡◌, ◌≤◌, inl, inr, ℕ, ◌==◌, Bool, true, false, ◌&&◌, Option, none, some, List, [], ◌∷◌, refl,
  Bool-cases, leb, arith, if◌then◌else◌,
}
use private_cloud_control_pl.Store.Table.{find_row, update_rows, find_row-update_rows, updated}
use private_cloud_control_pl.Control.Transaction.{done, Ensures, Ensures-done, Ensures-update}
use private_cloud_control_pl.Control.Acceptance.Records.{LeaseState, Ipv4LeaseRow}
use private_cloud_control_pl.Control.Acceptance.Methods.{larger}
use private_cloud_control_pl.Control.Acceptance.Removals.{
  LeaseReleaseMode, lease_target, lease_order, lease_is, lease_of, is_active_lease, advance_lease,
  release_ipv4_lease,
}

-- The same leases, none of them in an earlier state.
abbrev pub Advances : List Ipv4LeaseRow → List Ipv4LeaseRow → Type 0
Advances [] [] = Unit
Advances [] (m ∷ after) = ⊥
Advances (l ∷ leases) [] = ⊥
Advances (l ∷ leases) (m ∷ after) =
    (m.id ≡ l.id)
    × (m.instance_id ≡ l.instance_id)
    × (lease_order l.state ≤ lease_order m.state)
    × Advances leases after

-- What is answered of the lease that is found, and found afterwards.
abbrev pub Settles :
    LeaseReleaseMode → Option Ipv4LeaseRow → Option LeaseState → Option Ipv4LeaseRow → Type 0
Settles mode none none none = Unit
Settles mode (some l) (some s) (some m) =
    (m.state ≡ s) × (lease_order s ≡ larger (lease_order l.state) (lease_order (lease_target mode)))
Settles _ _ _ _ = ⊥

abbrev pub IsReleaseOf :
    LeaseReleaseMode → ℕ → List Ipv4LeaseRow → Option LeaseState × List Ipv4LeaseRow → Type 0
IsReleaseOf mode id leases (answer, after) =
    Advances leases after
    × Settles mode (find_row (lease_of id) leases) answer (find_row (lease_of id) after)

unmoved_ahead : (leases : List Ipv4LeaseRow) → Advances leases leases
unmoved_ahead [] = tt
unmoved_ahead (l ∷ leases) = (refl, refl, same (lease_order l.state), unmoved_ahead leases)
  where
    same : (n : ℕ) → n ≤ n
    same n = ground arith

module _ (mode : LeaseReleaseMode) (now : ℕ) where
  abbrev pub moved : Ipv4LeaseRow → Ipv4LeaseRow
  moved l = record l { state = lease_target mode; updated_at = now }

  moved_ahead :
      (id : ℕ) (state : LeaseState) (leases : List Ipv4LeaseRow)
      → leb (lease_order (lease_target mode)) (lease_order state) ≡ false
      → Advances leases (update_rows (lease_is id state) moved leases)
  unfolding update_rows
  moved_ahead id state [] ahead = tt
  moved_ahead id state (l ∷ leases) ahead = elim (Bool-cases (lease_is id state l)) [
    | inl here ↦ rw here (
      refl,
      refl,
      later (lease_order l.state) (lease_order state) (lease_order (lease_target mode)) (l.id == id)
          here ahead,
      moved_ahead id state leases ahead,
    )
    | inr other ↦
        rw other (refl, refl, same (lease_order l.state), moved_ahead id state leases ahead)
  ]
    where
      same : (n : ℕ) → n ≤ n
      same n = ground arith

      later : (a b t : ℕ) (x : Bool) → (x && a == b) ≡ true → leb t b ≡ false → a ≤ t
      later a b t x e h = ground arith

kept_settled :
    (mode : LeaseReleaseMode) (l : Ipv4LeaseRow) (s : LeaseState)
    → l.state ≡ s
    → leb (lease_order (lease_target mode)) (lease_order s) ≡ true
    → Settles mode (some l) (if is_active_lease s then none else some s) (some l)
unfolding is_active_lease lease_order lease_target
kept_settled LeaseReleaseMode.quarantine_until_purge l LeaseState.active e h = absurd (cc)
kept_settled LeaseReleaseMode.release_on_retain l LeaseState.active e h = absurd (cc)
kept_settled LeaseReleaseMode.quarantine_until_purge l LeaseState.quarantined e h = (e, rw e refl)
kept_settled LeaseReleaseMode.release_on_retain l LeaseState.quarantined e h = absurd (cc)
kept_settled LeaseReleaseMode.quarantine_until_purge l LeaseState.released e h = (e, rw e refl)
kept_settled LeaseReleaseMode.release_on_retain l LeaseState.released e h = (e, rw e refl)

-- The release of an instance's lease keeps every lease and moves none to an earlier state, of active,
-- quarantined and released; where the instance has one, it is then in the later of its state and the
-- one that the mode asks for, which is the answer, and where it has none, the answer is empty.
pub release_ipv4_lease-IsReleaseOf :
    (strict : Bool) (id : ℕ) (mode : LeaseReleaseMode) (now : ℕ) (leases after : List Ipv4LeaseRow)
    (answer : Option LeaseState)
    → release_ipv4_lease strict id mode now leases ≡ done (answer, after)
    → IsReleaseOf mode id leases (answer, after)
unfolding release_ipv4_lease
release_ipv4_lease-IsReleaseOf strict id mode now leases after answer e =
    Ensures-done (IsReleaseOf mode id leases) (release_ipv4_lease strict id mode now leases)
      (answer, after) (by_lease (find_row (lease_of id) leases) refl) e
  where
    at_least : (a b : ℕ) → leb b a ≡ false → b ≡ larger a b
    at_least a b h = ground arith

    self : (l : Ipv4LeaseRow) → lease_is l.id l.state l ≡ true
    self l = both (same l.id) (same (lease_order l.state))
      where
        same : (n : ℕ) → (n == n) ≡ true
        same n = ground arith

        both : {a b : Bool} → a ≡ true → b ≡ true → (a && b) ≡ true
        both p q = rw (p, q) refl

    keeps :
        (l r : Ipv4LeaseRow)
        → lease_of id (updated (lease_is l.id l.state) (moved mode now) r) ≡ lease_of id r
    keeps l r = elim (Bool-cases (lease_is l.id l.state r)) [
      | inl here ↦ rw here refl
      | inr other ↦ rw other refl
    ]

    by_lease :
        (o : Option Ipv4LeaseRow)
        → find_row (lease_of id) leases ≡ o
        → Ensures (IsReleaseOf mode id leases) (advance_lease strict mode now leases o)
    by_lease none found = (unmoved_ahead leases, rw found tt)
    by_lease (some l) found =
        elim (Bool-cases (leb (lease_order (lease_target mode)) (lease_order l.state))) [
          | inl reached ↦
              rw reached (unmoved_ahead leases, rw found (kept_settled mode l l.state refl reached))
          | inr ahead ↦ rw ahead (
              Ensures-update (IsReleaseOf mode id leases) strict (lease_is l.id l.state)
                (moved mode now) leases (λ rows. done (some (lease_target mode), rows))
                (
                  moved_ahead mode now l.id l.state leases ahead,
                  rw
                      (
                        find_row-update_rows (lease_of id) (lease_is l.id l.state) (moved mode now)
                            leases (keeps l),
                        found,
                        self l,
                      )
                      (
                        refl,
                        at_least (lease_order l.state) (lease_order (lease_target mode)) ahead,
                      ),
                ))
        ]
