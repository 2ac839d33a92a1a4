-- ===== src/Sqs/Params/Termination.antt =====
-- Four loops over numbered parameters in internal/services/aws/sqs/handler.go, those of
-- `indexedNames`, `indexedTags`, `indexedAttributes` and `parseMessageAttributesAt`: each round reads
-- a parameter that no other round reads, and there are only so many.
use emulate.Prelude.{
  ◌≡◌, ◌≢◌, refl, inl, inr, true, false, Option, [], ◌∷◌, length, ℕ, zero, suc, ◌≤◌, ◌<◌, arith,
  Option-cases, Bool-cases, String, string_eq, ◌==◌,
}
use text.Mathlib.TextEquality.{eq_iff}
use emulate.Prelude.Assoc.{lookup, erase, lookup-erase, is_some}
use emulate.Prelude.Int.{pos}
use emulate.Sqs.Fields.{Platform, concat}
use emulate.Sqs.Params.{
  Params, param, run, rounds, numbered, name_step, tag_step, attribute_step, message_attribute_step,
}
use Prim.Native.String
use text.Mathlib.TextLemmas.{append_cancel_left, append_cancel_right}

-- A round that goes on reads the parameter under the key of its number.
abbrev pub Reads {ℓ} : {A : Type ℓ} → (ℕ → Option A) → (ℕ → String) → Params → Type 0
Reads step key params =
    (index : ℕ) → is_some (step index) ≡ true → is_some (lookup (key index) params) ≡ true

-- No two numbers have the same key.
abbrev pub IsInjective : (ℕ → String) → Type 0
IsInjective key = (i j : ℕ) → key i ≡ key j → i ≡ j

length-erase_le : (k : String) (m : Params) → length (erase k m) ≤ length m
unfolding erase
length-erase_le k [] = omega arith
length-erase_le k ((j, v) ∷ m) = ground (arith, length-erase_le k m)

length-erase :
    (k : String) (m : Params) → is_some (lookup k m) ≡ true → length (erase k m) < length m
unfolding lookup erase
length-erase k [] h = cc
length-erase k ((j, v) ∷ m) h = elim (Bool-cases (k == j)) [
  | inl same ↦ ground (arith, length-erase_le k m)
  | inr other ↦ ground (arith, length-erase k m)
]

run-ends {ℓ} :
    {A : Type ℓ} (step : ℕ → Option A) (key : ℕ → String) (m : Params) (fuel index : ℕ)
    → IsInjective key
    → ((i : ℕ) → index ≤ i → is_some (step i) ≡ true → is_some (lookup (key i) m) ≡ true)
    → length m < fuel
    → is_some (run step fuel index) ≡ true
unfolding run
run-ends step key m zero index injective reads enough = ground arith
run-ends step key m (suc fuel) index injective reads enough = elim (Option-cases (step index)) [
  | inl over ↦ rw (over, run) refl
  | inr (a, more) ↦
      let found = reads index (ground arith) (rw (more) refl) in
      let rest =
        run-ends step key (erase (key index) m) fuel (suc index) injective
          (λ i later goes.
            let stored = reads i (ground arith) goes in
            let other : key i ≢ key index =
              λ same. let eq = injective i index same in ground arith in
            ground (arith, lookup-erase (key index) (key i) m, eq_iff (key i) (key index)))
          (ground (arith, length-erase (key index) m found)) in
      elim (Option-cases (run step fuel (suc index))) [
        | inl out ↦ cc
        | inr (l, ended) ↦ rw (more, ended, run) refl
      ]
]

-- With one round more than there are parameters a loop ends, if each round that goes on reads the
-- parameter of its own number.
pub run-rounds {ℓ} :
    {A : Type ℓ} (step : ℕ → Option A) (key : ℕ → String) (params : Params)
    → IsInjective key
    → Reads step key params
    → is_some (run step (rounds params) 1) ≡ true
unfolding rounds
run-rounds step key params injective reads =
    run-ends step key params (suc (length params)) 1 injective (λ i later. reads i) (omega arith)

-- `strconv.Itoa` gives no text for two numbers.
abbrev pub PrintsApart : Platform → Type 0
PrintsApart go = (i j : ℕ) → go.itoa (pos i) ≡ go.itoa (pos j) → i ≡ j

numbered-IsInjective :
    (go : Platform) (prefix : String) → PrintsApart go → IsInjective (numbered go prefix)
unfolding numbered concat
numbered-IsInjective go prefix apart i j same = apart i j (
    append_cancel_right (go.itoa (pos i)) (go.itoa (pos j)) ""
      (append_cancel_left "." _ _ (append_cancel_left prefix _ _ same)))

part_key-IsInjective :
    (go : Platform) (prefix part : String)
    → PrintsApart go
    → IsInjective (λ index. concat (numbered go prefix index ∷ part ∷ []))
unfolding concat
part_key-IsInjective go prefix part apart i j same =
    numbered-IsInjective go prefix apart i j (append_cancel_right _ _ (String.◌++◌ part "") same)

-- A parameter that is not empty is there.
param-given :
    (params : Params) (key : String)
    → (param params key == "") ≡ false
    → is_some (lookup key params) ≡ true
unfolding param
param-given params key h = elim (Option-cases (lookup key params)) [
  | inl absent ↦ cc (rw (absent, param) at h)
  | inr (value, found) ↦ rw found refl
]

-- The loops of `indexedNames`, `indexedTags`, `indexedAttributes` and `parseMessageAttributesAt` end
-- before the rounds are used up, where `strconv.Itoa` tells the numbers apart.
pub loops_end :
    (go : Platform) (params : Params) (prefix : String)
    → PrintsApart go
    → (is_some (run (name_step go params prefix) (rounds params) 1) ≡ true)
      × (is_some (run (tag_step go params prefix) (rounds params) 1) ≡ true)
      × (is_some (run (attribute_step go params prefix) (rounds params) 1) ≡ true)
      × (is_some (run (message_attribute_step go params prefix) (rounds params) 1) ≡ true)
unfolding name_step tag_step attribute_step message_attribute_step
loops_end go params prefix apart = (
  run-rounds (name_step go params prefix) (numbered go prefix) params
      (numbered-IsInjective go prefix apart)
      (λ index goes. param-given params (numbered go prefix index) (ground arith)),
  run-rounds (tag_step go params prefix) _ params (part_key-IsInjective go prefix ".Key" apart)
      (λ index goes. param-given params _ (ground arith)),
  run-rounds (attribute_step go params prefix) _ params
      (part_key-IsInjective go prefix ".Name" apart)
      (λ index goes. param-given params _ (ground arith)),
  run-rounds (message_attribute_step go params prefix) _ params
      (part_key-IsInjective go prefix ".Name" apart)
      (λ index goes. param-given params _ (ground arith)),
)
