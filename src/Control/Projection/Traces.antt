-- ===== src/Control/Projection/Traces.antt =====
-- packages/postgres-adapter/src/projection-store.ts: `traceIdOf`.
use Prim.Native.Char.{Char, code}
use private_cloud_control_pl.Prelude.{
  ◌≡◌, refl, ℕ, zero, suc, String, Bool, ◌&&◌, ◌||◌, ◌==◌, leb, Option, none, some, if◌then◌else◌,
  str_eq,
}

-- `[0-9a-f]`.
abbrev pub is_hex : Char → Bool
is_hex c = leb b'0' (code c) && leb (code c) b'9' || leb b'a' (code c) && leb (code c) b'f'

-- A prefix of `n` characters of the class, and what follows it.
unfoldable pub take_hex : ℕ → String → Option (String × String)
take_hex zero s = some ("", s)
take_hex (suc n) String.[] = none
take_hex (suc n) (String.◌∷◌ c s) =
    let more : Option (String × String) = elim (take_hex n s) [
      | none ↦ none
      | some (h, rest) ↦ some (String.◌∷◌ c h, rest)
    ] in
    if is_hex c then more else none

-- The text `p` as a prefix, and what follows it.
unfoldable pub drop_text : String → String → Option String
drop_text String.[] s = some s
drop_text (String.◌∷◌ d p) String.[] = none
drop_text (String.◌∷◌ d p) (String.◌∷◌ c s) =
    let rest = drop_text p s in if code d == code c then rest else none

infixl 5 ◌>>=◌
abbrev ◌>>=◌ {ℓ κ} : {A : Type ℓ} {B : Type κ} → Option A → (A → Option B) → Option B
none >>= f = none
some a >>= f = f a

-- `/^00-([0-9a-f]{32})-[0-9a-f]{16}-[0-9a-f]{2}$/.exec(traceparent)`, its first group.
unfoldable pub matched_trace_id : String → Option String
unfolding take_hex drop_text
matched_trace_id traceparent = do
  s ← drop_text "00-" traceparent
  (trace_id, s) ← take_hex 32 s
  s ← drop_text "-" s
  (_, s) ← take_hex 16 s
  s ← drop_text "-" s
  (_, s) ← take_hex 2 s
  if str_eq s "" then some trace_id else none

unfoldable pub trace_id_of : Option String → Option String
unfolding matched_trace_id
trace_id_of none = none
trace_id_of (some traceparent) =
    if str_eq traceparent "" then none else matched_trace_id traceparent

trace_example :
    trace_id_of (some "00-0af7651916cd43dd8448eb211c80319c-b7ad6b7169203331-01")
    ≡ some "0af7651916cd43dd8448eb211c80319c"
unfolding trace_id_of
trace_example = refl
