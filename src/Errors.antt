-- ===== src/Errors.antt =====
-- packages/state-store/src/errors.ts, and how a function that may throw is read: it returns a
-- `Result`. `store` is a StateStoreError (its message left out), `schema` a refusal by a schema,
-- `thrown` an Error with its message.
use ai_smart_flow.Shared.{
  ℕ, ◌≡◌, ◌↔◌, ◌⊎◌, inl, inr, Bool, true, false, String, refl, ◌==◌, nat_eq, Eq, arith,
}

pub data StoreCode : Type 0 where
  artifact_hash_mismatch artifact_immutable artifact_outside_data_dir idempotency_key_reused
        project_locked stale_fence state_invalid state_not_found state_version_mismatch :
      StoreCode

abbrev pub code_rank : StoreCode → ℕ
code_rank StoreCode.artifact_hash_mismatch = 0
code_rank StoreCode.artifact_immutable = 1
code_rank StoreCode.artifact_outside_data_dir = 2
code_rank StoreCode.idempotency_key_reused = 3
code_rank StoreCode.project_locked = 4
code_rank StoreCode.stale_fence = 5
code_rank StoreCode.state_invalid = 6
code_rank StoreCode.state_not_found = 7
code_rank StoreCode.state_version_mismatch = 8

pub code_beq_iff : (a b : StoreCode) → ((code_rank a == code_rank b) ≡ true) ↔ (a ≡ b)
code_beq_iff a b = ground arith

instance abbrev pub code_eq : Eq StoreCode
code_eq = record { beq = λ a b. code_rank a == code_rank b; beq_iff = code_beq_iff }

pub data Failure : Type 0 where
  store : StoreCode → Failure
  schema : Failure
  thrown : String → Failure

-- `error instanceof StateStoreError && error.code === code`
abbrev pub has_code : StoreCode → Failure → Bool
has_code code (store c) = c == code
has_code code schema = false
has_code code (thrown message) = false

-- What a function that may throw returns.
pub data Result {ℓ} (A : Type ℓ) : Type ℓ where
  err : Failure → Result A
  ok : A → Result A

pub Result-cases {ℓ} :
    {A : Type ℓ} (r : Result A) → ((a : A) × (r ≡ ok a)) ⊎ ((e : Failure) × (r ≡ err e))
Result-cases (ok a) = inl (a, refl)
Result-cases (err e) = inr (e, refl)

pub ok-injective {ℓ} : {A : Type ℓ} (a b : A) → ok a ≡ ok b → a ≡ b
ok-injective a b h = cc

-- `if (!test) throw failure`
abbrev pub ensure : Bool → Failure → Result (Unit {0})
ensure true failure = ok tt
ensure false failure = err failure

-- The statements after one that may throw.
module _ {ℓ κ} {A : Type ℓ} {B : Type κ} where
  infixl 5 ◌>>=◌
  abbrev pub ◌>>=◌ : Result A → (A → Result B) → Result B
  err failure >>= next = err failure
  ok a >>= next = next a

  pub >>=-eq-ok :
      (m : Result A) (next : A → Result B) {b : B}
      → (m >>= next) ≡ ok b
      → (a : A) × (m ≡ ok a) × (next a ≡ ok b)
  >>=-eq-ok (err failure) next h = cc
  >>=-eq-ok (ok a) next h = (a, refl, h)

infixl 5 ◌>>◌
abbrev pub ◌>>◌ {ℓ} : {B : Type ℓ} → Result (Unit {0}) → Result B → Result B
first >> second = first >>= λ _. second

-- What follows a test was reached.
pub ensure-true {ℓ} :
    {B : Type ℓ} (test : Bool) (failure : Failure) (next : Result B) {b : B}
    → (ensure test failure >> next) ≡ ok b
    → (test ≡ true) × (next ≡ ok b)
ensure-true true failure next h = (refl, h)
ensure-true false failure next h = cc
