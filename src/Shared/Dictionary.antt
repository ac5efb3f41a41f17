-- ===== src/Shared/Dictionary.antt =====
-- A plain object read as a dictionary: the keys in insertion order, an existing key kept in place.
use Prim.Native.String.{String}
use mathlib.Core.Path.{◌≡◌, refl, sym, subst}
use mathlib.Core.Logic.{inl, inr}
use mathlib.Core.Bool.{Bool, true, false, ◌&&◌}
use mathlib.Core.Option.{Option, none, some}
use mathlib.Core.List.{List, [], ◌∷◌, map}
use native.Mathlib.Omega.{arith}
use text.Mathlib.TextEquality.{eq_iff}
use ai_smart_flow.Shared.Tests.{
  ◌==◌, text_eq, if◌then◌else◌, Bool-cases, &&-left, &&-right, &&-intro, or-left, or-right,
  not-true,
}
use ai_smart_flow.Shared.Lists.{includes, distinct}

abbrev pub Dict {ℓ} : Type ℓ → Type ℓ
Dict V = List (String × V)

module _ {ℓ} {V : Type ℓ} where
  -- `object[key]`
  unfoldable pub get : Dict V → String → Option V
  get [] key = none
  get ((k, v) ∷ rest) key = if k == key then some v else get rest key

  -- `{ ...object, [key]: value }`
  unfoldable pub put : Dict V → String → V → Dict V
  put [] key value = (key, value) ∷ []
  put ((k, v) ∷ rest) key value =
      if k == key then (k, value) ∷ rest else (k, v) ∷ put rest key value

  -- `Object.fromEntries(Object.entries(object).filter(([k]) => k !== key))`
  unfoldable pub drop_key : Dict V → String → Dict V
  drop_key [] key = []
  drop_key ((k, v) ∷ rest) key = if k == key then drop_key rest key else (k, v) ∷ drop_key rest key

  -- A predicate on every entry.
  unfoldable pub every_entry : (String → V → Bool) → Dict V → Bool
  every_entry p [] = true
  every_entry p ((k, v) ∷ rest) = p k v && every_entry p rest

  pub get-put :
      (d : Dict V) (key : String) (value : V) (j : String)
      → get (put d key value) j ≡ (if key == j then some value else get d j)
  unfolding get put
  get-put [] key value j = refl
  get-put ((k, v) ∷ rest) key value j =
      ground (arith, eq_iff key j, eq_iff k key, eq_iff k j, get-put rest key value j)

  pub get-drop_key :
      (d : Dict V) (key j : String) → get (drop_key d key) j ≡ (if key == j then none else get d j)
  unfolding get drop_key
  get-drop_key [] key j = ground arith
  get-drop_key ((k, v) ∷ rest) key j =
      ground (arith, eq_iff key j, eq_iff k key, eq_iff k j, get-drop_key rest key j)

  pub every_entry-get :
      (p : String → V → Bool) (d : Dict V) (key : String) (v : V)
      → every_entry p d ≡ true
      → get d key ≡ some v
      → p key v ≡ true
  unfolding get every_entry
  every_entry-get p [] key v h g = absurd (ground arith)
  every_entry-get p ((k, w) ∷ rest) key v h g =
      ground (arith, eq_iff k key, every_entry-get p rest key v)

-- The keys of an object are distinct.
abbrev pub distinct_keys {ℓ} : {V : Type ℓ} → Dict V → Bool
distinct_keys d = distinct (map (λ e. e.0) d)

module _ {ℓ} {V : Type ℓ} where
  absent-map :
      (p q : String → V → Bool) (d : Dict V) (key : String)
      → every_entry p d ≡ true
      → includes key (map (λ e. e.0) d) ≡ false
      → ((j : String) (v : V) → (j == key) ≡ false → p j v ≡ true → q j v ≡ true)
      → every_entry q d ≡ true
  unfolding every_entry
  absent-map p q [] key h u f = refl
  absent-map p q ((j, w) ∷ rest) key h u f =
      &&-intro (f j w (or-left _ _ u) (&&-left _ _ h))
        (absent-map p q rest key (&&-right _ _ h) (or-right _ _ u) f)

  -- A test that a change of the predicate leaves true, entry by entry.
  pub every_entry-map :
      (p q : String → V → Bool) (d : Dict V)
      → ((key : String) (v : V) → p key v ≡ true → q key v ≡ true)
      → every_entry p d ≡ true
      → every_entry q d ≡ true
  unfolding every_entry
  every_entry-map p q [] f h = refl
  every_entry-map p q ((j, w) ∷ rest) f h =
      &&-intro (f j w (&&-left _ _ h)) (every_entry-map p q rest f (&&-right _ _ h))

  -- After a change of one entry: the new value passes, and so does every other that passed.
  pub every_entry-put-map :
      (p q : String → V → Bool) (d : Dict V) (key : String) (value : V)
      → every_entry p d ≡ true
      → distinct_keys d ≡ true
      → q key value ≡ true
      → ((j : String) (v : V) → (j == key) ≡ false → p j v ≡ true → q j v ≡ true)
      → every_entry q (put d key value) ≡ true
  unfolding every_entry put
  every_entry-put-map p q [] key value h u k f = ground arith
  every_entry-put-map p q ((j, w) ∷ rest) key value h u k f = elim (Bool-cases (j == key)) [
    | inr other ↦ rw other (
        &&-intro (f j w other (&&-left _ _ h))
          (every_entry-put-map p q rest key value (&&-right _ _ h) (&&-right _ _ u) k f))
    | inl here ↦ rw here (
        &&-intro (subst (λ x. q x value ≡ true) (sym ((eq_iff j key).0 here)) k) (
          absent-map p q rest j (&&-right _ _ h) (not-true (&&-left _ _ u))
            (λ i v other. f i v (subst (λ x. (i == x) ≡ false) ((eq_iff j key).0 here) other))))
  ]

  pub every_entry-drop_key :
      (p q : String → V → Bool) (d : Dict V) (key : String)
      → every_entry p d ≡ true
      → ((j : String) (v : V) → (j == key) ≡ false → p j v ≡ true → q j v ≡ true)
      → every_entry q (drop_key d key) ≡ true
  unfolding every_entry drop_key
  every_entry-drop_key p q [] key h f = refl
  every_entry-drop_key p q ((j, w) ∷ rest) key h f = elim (Bool-cases (j == key)) [
    | inr other ↦ rw other (
        &&-intro (f j w other (&&-left _ _ h))
          (every_entry-drop_key p q rest key (&&-right _ _ h) f))
    | inl here ↦ rw here (every_entry-drop_key p q rest key (&&-right _ _ h) f)
  ]

  pub every_entry-and :
      (p q : String → V → Bool) (d : Dict V)
      → every_entry p d ≡ true
      → every_entry q d ≡ true
      → every_entry (λ key v. p key v && q key v) d ≡ true
  unfolding every_entry
  every_entry-and p q [] h k = refl
  every_entry-and p q ((j, w) ∷ rest) h k =
      &&-intro
        (&&-intro (&&-left (p j w) (every_entry p rest) h) (&&-left (q j w) (every_entry q rest) k))
        (every_entry-and p q rest (&&-right (p j w) _ h) (&&-right (q j w) _ k))
