-- ===== src/Workflow/Registry/Rotation.antt =====
-- Whom a call of the registry serves: the first ready executor of the rotation, and then the cursor
-- stands behind it.
use private_cloud_control_pl.Prelude.{
  ◌≡◌, ◌<◌, ◌≤◌, ℕ, zero, suc, ◌+◌, ◌-◌, ◌%◌, Bool, true, false, Option, none, some, List, [], ◌∷◌,
  length, get_elem?, inl, inr, Bool-cases, ltb, ltb→lt, ap, ◌∙◌, if◌then◌else◌, refl, sym, subst,
  arith,
}
use native.Mathlib.Nat.{mod-eq_of_lt, mod-eq-sub-mod}
use private_cloud_control_pl.Workflow.Step.{Result, ok, raise}
use private_cloud_control_pl.Workflow.Registry.{
  WorkflowExecutor, Ticked, slot, tried, attempted, rotate, run_registry,
}

-- Whose turn the attempt is: one executor after the other from the cursor on, and at the end of the list
-- from its beginning.
abbrev pub turn : ℕ → ℕ → ℕ → ℕ
turn n cursor attempt = if ltb (cursor + attempt) n then cursor + attempt else cursor + attempt - n

abbrev pub at_turn : {W : Type 0} → List (WorkflowExecutor W) → ℕ → ℕ → Option (WorkflowExecutor W)
at_turn executors cursor attempt = get_elem? executors (turn (length executors) cursor attempt)

-- From attempt `a` up to attempt `b`, every executor had its turn and was idle.
pub data Idles {W : Type 0} (executors : List (WorkflowExecutor W)) (cursor : ℕ)
    : ℕ → ℕ → W → W → Type 0 where
  reached : {a : ℕ} {w : W} → Idles executors cursor a a w w
  idle :
      {a b : ℕ} {u w v : W} (executor : WorkflowExecutor W)
      → at_turn executors cursor a ≡ some executor
      → executor.run_one u ≡ (ok false, w)
      → Idles executors cursor (a + 1) b w v
      → Idles executors cursor a b u v

-- The attempt that was the first to find work, or to throw.
pub record Served {W : Type 0} (executors : List (WorkflowExecutor W)) (cursor a n : ℕ) (w : W)
    (result : Result Bool) (after : W) : Type 0 where
  pub chosen : ℕ
  pub low : a ≤ chosen
  pub high : chosen < n
  pub world : W
  pub idles : Idles executors cursor a chosen w world
  pub executor : WorkflowExecutor W
  pub found : at_turn executors cursor chosen ≡ some executor
  pub ran : executor.run_one world ≡ (result, after)

-- What a call may come to: none was ready and all had a turn; or one was served, and the cursor stands
-- behind it; or one threw, and the cursor stays.
abbrev pub Rotated :
    {W : Type 0} → List (WorkflowExecutor W) → ℕ → ℕ → ℕ → W → Result Bool → ℕ → W → Type 0
Rotated executors cursor a n w (ok false) c v = (c ≡ cursor) × Idles executors cursor a n w v
Rotated executors cursor a n w (ok true) c v =
    (s : Served executors cursor a n w (ok true) v) × (c
      ≡ turn (length executors) cursor (s.chosen + 1))
Rotated executors cursor a n w (raise e) c v =
    (c ≡ cursor) × Served executors cursor a n w (raise e) v

turn-mod :
    (n cursor attempt : ℕ)
    → cursor < n
    → attempt ≤ n
    → (cursor + attempt) % n ≡ turn n cursor attempt
turn-mod n cursor attempt inside few = elim (Bool-cases (ltb (cursor + attempt) n)) [
  | inl before ↦ rw before (mod-eq_of_lt (ltb→lt (cursor + attempt) n before))
  | inr past ↦ rw past (mod-eq-sub-mod (beyond past) ∙ mod-eq_of_lt (rest past))
]
  where
    beyond : ltb (cursor + attempt) n ≡ false → n ≤ cursor + attempt
    beyond h = ground arith

    rest : ltb (cursor + attempt) n ≡ false → cursor + attempt - n < n
    rest h = let over = beyond h in omega arith

turn-lt : (n cursor attempt : ℕ) → cursor < n → attempt ≤ n → turn n cursor attempt < n
turn-lt n cursor attempt inside few = ground arith

get_elem-some : {A : Type 0} (xs : List A) (i : ℕ) → i < length xs → get_elem? xs i ≡ none → ⊥
get_elem-some [] i below absent = absurd (omega arith)
get_elem-some (x ∷ xs) zero below absent = cc
get_elem-some (x ∷ xs) (suc i) below absent = get_elem-some xs i (omega arith) absent

module _ {W : Type 0} (executors : List (WorkflowExecutor W)) (cursor : ℕ)
    (inside : cursor < length executors) where
  -- What is served from the next attempt on is served from an idle one on.
  abbrev served_earlier :
      (a n : ℕ) (u w v : W) (r : Result Bool)
      → ((b : ℕ) (x : W) → Idles executors cursor (a + 1) b w x → Idles executors cursor a b u x)
      → Served executors cursor (a + 1) n w r v
      → Served executors cursor a n u r v
  served_earlier a n u w v r step s =
      let low : a + 1 ≤ s.chosen = s.low in
      record {
        chosen = s.chosen;
        low = omega arith;
        high = s.high;
        world = s.world;
        idles = step s.chosen s.world s.idles;
        executor = s.executor;
        found = s.found;
        ran = s.ran;
      }

  earlier-Rotated :
      (a n : ℕ) (u w v : W) (r : Result Bool) (c : ℕ)
      → ((b : ℕ) (x : W) → Idles executors cursor (a + 1) b w x → Idles executors cursor a b u x)
      → Rotated executors cursor (a + 1) n w r c v
      → Rotated executors cursor a n u r c v
  earlier-Rotated a n u w v (ok false) c step (same, idles) = (same, step n v idles)
  earlier-Rotated a n u w v (ok true) c step (s, same) =
      (served_earlier a n u w v (ok true) step s, same)
  earlier-Rotated a n u w v (raise e) c step (same, s) =
      (same, served_earlier a n u w v (raise e) step s)

  abbrev IsRotated : ℕ → ℕ → W → Ticked W → Type 0
  IsRotated a n w t = Rotated executors cursor a n w t.result t.cursor t.world

  tried-Rotated :
      (a n : ℕ) (u : W) (next : W → Ticked W) (executor : WorkflowExecutor W) (p : Result Bool × W)
      → a < n
      → n ≡ length executors
      → at_turn executors cursor a ≡ some executor
      → executor.run_one u ≡ p
      → ((w : W) → IsRotated (a + 1) n w (next w))
      → IsRotated a n u (tried executors cursor a next p)
  tried-Rotated a n u next executor (ok true, w) below total found ran rest = (
    record {
      chosen = a;
      low = omega arith;
      high = below;
      world = u;
      idles = reached;
      executor = executor;
      found = found;
      ran = ran;
    },
    turned,
  )
    where
      assoc : (x y : ℕ) → x + (y + 1) ≡ x + y + 1
      assoc x y = omega arith

      turned : (cursor + a + 1) % length executors ≡ turn (length executors) cursor (a + 1)
      turned =
          subst (λ m. m % length executors ≡ turn (length executors) cursor (a + 1))
            (assoc cursor a) (turn-mod (length executors) cursor (a + 1) inside (omega arith))
  tried-Rotated a n u next executor (ok false, w) below total found ran rest =
      earlier-Rotated a n u w (next w).world (next w).result (next w).cursor
        (λ b x h. idle executor found ran h) (rest w)
  tried-Rotated a n u next executor (raise e, w) below total found ran rest = (
    refl,
    record {
      chosen = a;
      low = omega arith;
      high = below;
      world = u;
      idles = reached;
      executor = executor;
      found = found;
      ran = ran;
    },
  )

  -- The slot of an attempt is whose turn it is.
  slot-turn : (a : ℕ) → a < length executors → slot executors cursor a ≡ at_turn executors cursor a
  slot-turn a below =
      ap (get_elem? executors) (turn-mod (length executors) cursor a inside (omega arith))

  attempted-Rotated :
      (a n : ℕ) (u : W) (next : W → Ticked W) (o : Option (WorkflowExecutor W))
      → a < n
      → n ≡ length executors
      → at_turn executors cursor a ≡ o
      → ((w : W) → IsRotated (a + 1) n w (next w))
      → IsRotated a n u (attempted executors cursor a next u o)
  attempted-Rotated a n u next none below total found rest = absurd (
      get_elem-some executors (turn (length executors) cursor a)
        (turn-lt (length executors) cursor a inside (omega arith)) found)
  attempted-Rotated a n u next (some executor) below total found rest =
      tried-Rotated a n u next executor (executor.run_one u) below total found refl rest

  rotate-Rotated :
      (remaining a n : ℕ) (u : W)
      → n ≡ a + remaining
      → n ≡ length executors
      → IsRotated a n u (rotate executors cursor a remaining u)
  unfolding rotate
  rotate-Rotated zero a n u parts total =
      (refl, subst (λ m. Idles executors cursor a m u u) (sym (whole parts)) reached)
    where
      whole : {x y : ℕ} → x ≡ y + zero → x ≡ y
      whole h = omega arith
  rotate-Rotated (suc remaining) a n u parts total =
      let below : a < n = omega arith in
      subst
        (λ o.
          IsRotated a n u
            (attempted executors cursor a (rotate executors cursor (a + 1) remaining) u o))
        (sym (slot-turn a (omega arith)))
        (attempted-Rotated a n u (rotate executors cursor (a + 1) remaining)
          (at_turn executors cursor a) below total refl
          (λ w. rotate-Rotated remaining (a + 1) n w (omega arith) total))

  -- The cursor stays one of the list's.
  Rotated-lt :
      (w v : W) (r : Result Bool) (c : ℕ)
      → Rotated executors cursor 0 (length executors) w r c v
      → c < length executors
  Rotated-lt w v (ok false) c (same, idles) = rw same inside
  Rotated-lt w v (raise e) c (same, served) = rw same inside
  Rotated-lt w v (ok true) c (served, same) =
      let high : served.chosen < length executors = served.high in
      rw same (turn-lt (length executors) cursor (served.chosen + 1) inside (omega arith))

-- A call of the registry gives every executor one turn at most, one after the other from the cursor on
-- and from the end of the list on from its beginning. It serves the first that is ready, and leaves the
-- cursor at the one behind it; it returns false only after every one was idle; and an executor that
-- throws ends the call with the cursor where it was. The cursor is one of the list's, before and after.
pub run_registry-Rotated :
    {W : Type 0} (executors : List (WorkflowExecutor W)) (cursor : ℕ) (world : W)
    → cursor < length executors
    → Rotated executors cursor 0
        (length executors)
        world
        (run_registry executors cursor world).result
        (run_registry executors cursor world).cursor
        (run_registry executors cursor world).world
      × ((run_registry executors cursor world).cursor < length executors)
unfolding run_registry
run_registry-Rotated executors cursor world inside =
    let t = rotate executors cursor 0 (length executors) world in
    let r =
      rotate-Rotated executors cursor inside (length executors) 0 (length executors) world
        (omega arith) refl in
    (r, Rotated-lt executors cursor inside world t.world t.result t.cursor r)
