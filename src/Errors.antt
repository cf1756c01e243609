-- ===== src/Errors.antt =====
-- Go's error values: fmt.Errorf with and without %w, errors.As along the chain, and the error types
-- of hcloud-go, karpenter, apimachinery and imagefamily that the program tells apart. A message is
-- kept as its format and arguments.
use karpenter_provider_hetzn.Base.{
  String, List, Option, none, some, Bool, true, false, ◌||◌, str_eq, ◌≡◌, refl, ◌⊎◌, inl, inr,
}
use karpenter_provider_hetzn.Base.Int.{ℤ}
use karpenter_provider_hetzn.Base.Text.{Bytes}

pub data Arg : Type 0 where
  int : ℤ → Arg
  text : String → Arg
  bytes : Bytes → Arg

-- hcloud.ErrorCode
pub data ErrorCode : Type 0 where
  not_found resource_unavailable resource_limit_exceeded invalid_input : ErrorCode
  other_code : String → ErrorCode

pub data Error : Type 0 where
  -- an error with no type that the program looks for
  errorf : String → List Arg → Error
  -- fmt.Errorf("…: %w", …, err)
  wrapf : String → List Arg → Error → Error
  -- errors.Join of two errors
  joined : Error → Error → Error
  -- hcloud.Error
  api_error : ErrorCode → String → Error
  -- an error for which apierrors.IsNotFound holds
  kube_not_found : String → Error
  -- imagefamily.PermanentError
  permanent : Error → Error
  -- the error types of karpenter's cloudprovider package
  insufficient_capacity node_claim_not_found node_class_not_ready : Error → Error

unfoldable pub code_eq : ErrorCode → ErrorCode → Bool
code_eq not_found not_found = true
code_eq resource_unavailable resource_unavailable = true
code_eq resource_limit_exceeded resource_limit_exceeded = true
code_eq invalid_input invalid_input = true
code_eq (other_code a) (other_code b) = str_eq a b
code_eq _ _ = false

-- errors.As(err, &hcloud.Error)
unfoldable pub as_api : Error → Option (ErrorCode × String)
as_api (api_error c m) = some (c, m)
as_api (wrapf f a e) = as_api e
as_api (joined d e) = elim (as_api d) [ none ↦ as_api e | some x ↦ some x ]
as_api _ = none

unfoldable pub has_code : ErrorCode → Option (ErrorCode × String) → Bool
has_code c none = false
has_code c (some (d, m)) = code_eq d c

-- hcloud.IsError(err, code)
unfoldable pub is_error : Error → ErrorCode → Bool
unfolding as_api has_code code_eq
is_error e c = has_code c (as_api e)

-- karpcp.IsInsufficientCapacityError
unfoldable pub is_insufficient_capacity : Error → Bool
is_insufficient_capacity (insufficient_capacity e) = true
is_insufficient_capacity (wrapf f a e) = is_insufficient_capacity e
is_insufficient_capacity (joined d e) = is_insufficient_capacity d || is_insufficient_capacity e
is_insufficient_capacity _ = false

-- karpcp.IsNodeClaimNotFoundError
unfoldable pub is_node_claim_not_found : Error → Bool
is_node_claim_not_found (node_claim_not_found e) = true
is_node_claim_not_found (wrapf f a e) = is_node_claim_not_found e
is_node_claim_not_found (joined d e) = is_node_claim_not_found d || is_node_claim_not_found e
is_node_claim_not_found _ = false

-- karpcp.IsNodeClassNotReadyError
unfoldable pub is_node_class_not_ready : Error → Bool
is_node_class_not_ready (node_class_not_ready e) = true
is_node_class_not_ready (wrapf f a e) = is_node_class_not_ready e
is_node_class_not_ready (joined d e) = is_node_class_not_ready d || is_node_class_not_ready e
is_node_class_not_ready _ = false

-- apierrors.IsNotFound
unfoldable pub is_kube_not_found : Error → Bool
is_kube_not_found (kube_not_found m) = true
is_kube_not_found (wrapf f a e) = is_kube_not_found e
is_kube_not_found (joined d e) = is_kube_not_found d || is_kube_not_found e
is_kube_not_found _ = false

-- imagefamily.IsPermanent
unfoldable pub is_permanent : Error → Bool
is_permanent (permanent e) = true
is_permanent (wrapf f a e) = is_permanent e
is_permanent (joined d e) = is_permanent d || is_permanent e
is_permanent _ = false

-- A result with Go's second return value `err`.
pub data Result {ℓ} (A : Type ℓ) : Type ℓ where
  ok : A → Result A
  err : Error → Result A

infixl 5 ◌>>=◌
abbrev pub ◌>>=◌ {ℓ κ} : {A : Type ℓ} {B : Type κ} → Result A → (A → Result B) → Result B
ok x >>= next = next x
err failure >>= next = err failure

-- `if err != nil { return fmt.Errorf("…: %w", …, err) }`
unfoldable pub context {ℓ} : {A : Type ℓ} → String → List Arg → Result A → Result A
context f a (ok x) = ok x
context f a (err e) = err (wrapf f a e)

pub Result-cases {ℓ} :
    {A : Type ℓ} (r : Result A) → ((a : A) × (r ≡ ok a)) ⊎ ((e : Error) × (r ≡ err e))
Result-cases (ok a) = inl (a, refl)
Result-cases (err e) = inr (e, refl)

pub err-injective {ℓ} : {A : Type ℓ} {d e : Error} → ◌≡◌ {A = Result A} (err d) (err e) → d ≡ e
err-injective h = cc

pub ok-injective {ℓ} : {A : Type ℓ} {a b : A} → ok a ≡ ok b → a ≡ b
ok-injective h = cc
