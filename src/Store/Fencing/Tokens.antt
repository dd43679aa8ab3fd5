-- ===== src/Store/Fencing/Tokens.antt =====
-- What the statements of the store do to the tokens of the leases.
use private_cloud_control_pl.Prelude.{
  ◌≡◌, ◌≢◌, ℕ, ◌+◌, ◌==◌, ==_iff, String, true, false, Option, none, some, List, ◌∷◌, inl, inr,
  refl, sym, ap, ◌∙◌, subst, arith, Bool-cases,
}
use private_cloud_control_pl.Store.Table.{
  find_row, update_rows, updated, updated_row, find_row-update_rows, find_row-test,
}
use private_cloud_control_pl.Store.Rows.{LeaseRow}
use private_cloud_control_pl.Store.Lease.{
  of_instance, find_lease, may_take, taken, upsert_found, upsert_lease, holds, released,
  release_lease, lease_end,
}
use private_cloud_control_pl.Store.Fencing.{lease_token, token_of}

-- The release of a lease keeps every token.
pub release_lease-token_of :
    (i instance : ℕ) (worker : String) (token now : ℕ) (leases : List LeaseRow)
    → token_of i (release_lease instance worker token now leases) ≡ token_of i leases
unfolding release_lease
release_lease-token_of i instance worker token now leases =
    ap lease_token (
      find_row-update_rows (of_instance i) (holds instance worker token) (released now) leases
        same_instance)
    ∙ same_token (find_lease i leases)
  where
    same_instance :
        (r : LeaseRow)
        → of_instance i (updated (holds instance worker token) (released now) r) ≡ of_instance i r
    same_instance r = elim (Bool-cases (holds instance worker token r)) [
      | inl e ↦ rw e refl
      | inr e ↦ rw e refl
    ]

    same_token :
        (o : Option LeaseRow)
        → lease_token (updated_row (holds instance worker token) (released now) o) ≡ lease_token o
    same_token none = refl
    same_token (some r) = elim (Bool-cases (holds instance worker token r)) [
      | inl e ↦ rw e refl
      | inr e ↦ rw e refl
    ]

-- What an upsert that takes the lease makes of the tokens.
pub record Taken (instance : ℕ) (leases : List LeaseRow) (token : ℕ) (after : List LeaseRow)
    : Type 0 where
  pub issued : token ≡ token_of instance leases + 1
  pub stored : token_of instance after ≡ token
  pub others : (i : ℕ) → i ≢ instance → token_of i after ≡ token_of i leases

==_refl : (a : ℕ) → (a == a) ≡ true
==_refl a = ground arith

==_ne : (a b : ℕ) → a ≢ b → (b == a) ≡ false
==_ne a b n = ground arith

module _ (worker : String) (seconds now instance : ℕ) where
  abbrev first_lease : LeaseRow
  first_lease = record {
    instance_id = instance;
    owner_id = worker;
    fencing_token = 1;
    leased_until = lease_end now seconds;
    updated_at = now;
  }

  first-Taken :
      (leases : List LeaseRow)
      → find_lease instance leases ≡ none
      → Taken instance leases 1 (first_lease ∷ leases)
  unfolding find_row
  first-Taken leases absent = record {
    issued = rw absent refl;
    stored = rw (==_refl instance) refl;
    others = λ i n. rw (==_ne i instance n) refl;
  }

  abbrev retaken : List LeaseRow → List LeaseRow
  retaken leases = update_rows (of_instance instance) (taken worker seconds now) leases

  same_instance :
      (i : ℕ) (r : LeaseRow)
      → of_instance i (updated (of_instance instance) (taken worker seconds now) r)
        ≡ of_instance i r
  same_instance i r = elim (Bool-cases (of_instance instance r)) [
    | inl e ↦ rw e refl
    | inr e ↦ rw e refl
  ]

  find_lease-retaken :
      (i : ℕ) (leases : List LeaseRow)
      → find_lease i (retaken leases)
        ≡ updated_row (of_instance instance) (taken worker seconds now) (find_lease i leases)
  find_lease-retaken i leases =
      find_row-update_rows (of_instance i) (of_instance instance) (taken worker seconds now) leases
        (same_instance i)

  other_token :
      (i : ℕ) (o : Option LeaseRow)
      → i ≢ instance
      → ((r : LeaseRow) → o ≡ some r → of_instance i r ≡ true)
      → lease_token (updated_row (of_instance instance) (taken worker seconds now) o)
        ≡ lease_token o
  other_token i none n found = refl
  other_token i (some r) n found =
      let here : r.instance_id ≡ i = (==_iff r.instance_id i).0 (found r refl) in
      rw (==_ne instance r.instance_id (λ e. n (sym here ∙ sym e))) refl

  again-Taken :
      (leases : List LeaseRow) (lease : LeaseRow)
      → find_lease instance leases ≡ some lease
      → Taken instance leases (lease.fencing_token + 1) (retaken leases)
  again-Taken leases lease found =
      let here = find_row-test (of_instance instance) leases lease found in
      record {
        issued = rw found refl;
        stored = ap lease_token (find_lease-retaken instance leases) ∙ rw (found, here) refl;
        others = λ i n.
            ap lease_token (find_lease-retaken i leases)
            ∙ other_token i (find_lease i leases) n (find_row-test (of_instance i) leases);
      }

  -- Two results that are equal are taken alike.
  Taken-some :
      (leases : List LeaseRow) (p q : ℕ × List LeaseRow)
      → ◌≡◌ {A = Option (ℕ × List LeaseRow)} (some p) (some q)
      → Taken instance leases p.0 p.1
      → Taken instance leases q.0 q.1
  Taken-some leases p q h = subst (λ (r : ℕ × List LeaseRow). Taken instance leases r.0 r.1) (cc)

  upsert_found-Taken :
      (leases : List LeaseRow) (o : Option LeaseRow) (token : ℕ) (after : List LeaseRow)
      → find_lease instance leases ≡ o
      → upsert_found worker seconds now instance leases o ≡ some (token, after)
      → Taken instance leases token after
  upsert_found-Taken leases none token after absent h =
      Taken-some leases (1, first_lease ∷ leases) (token, after) h (first-Taken leases absent)
  upsert_found-Taken leases (some lease) token after found h =
      elim (Bool-cases (may_take worker now lease)) [
        | inl free ↦
            Taken-some leases (lease.fencing_token + 1, retaken leases) (token, after)
              (rw free at h) (again-Taken leases lease found)
        | inr held ↦ cc (rw held at h)
      ]

  -- A lease that is taken issues the next token of its instance, and touches no other instance.
  pub upsert_lease-Taken :
      (leases : List LeaseRow) (token : ℕ) (after : List LeaseRow)
      → upsert_lease worker seconds now instance leases ≡ some (token, after)
      → Taken instance leases token after
  upsert_lease-Taken leases token after h =
      upsert_found-Taken leases (find_lease instance leases) token after refl
        (unfold upsert_lease in h)
