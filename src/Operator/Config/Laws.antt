-- ===== src/Operator/Config/Laws.antt =====
-- The configurations that LoadConfig accepts.
use karpenter_provider_hetzn.Base.{
  ℕ, zero, suc, ◌≤◌, ◌<◌, ◌≡◌, refl, sym, ap, ◌⊎◌, inl, inr, true, List, [], ◌∷◌, arith, leb,
  Bool-cases, length, is_empty, all, All, all_iff,
}
use karpenter_provider_hetzn.Base.Int.{ℤ, pos, negsuc}
use karpenter_provider_hetzn.Base.Text.{Bytes, codes, trim_space}
use karpenter_provider_hetzn.Errors.{Result, ok, err, ok-injective}
use karpenter_provider_hetzn.Operator.Config.{
  Environment, default_api_timeout, max_api_timeout, Config, is_name_byte, matches_cluster_name,
  load_api_timeout, load_config, in_range, parsed_timeout, config_with,
}

in_range_bounds :
    (raw : Bytes) (d : ℤ) (t : ℕ)
    → in_range raw d ≡ ok t
    → (0 < t) × (t ≤ max_api_timeout) × (d ≡ pos t)
unfolding in_range
in_range_bounds raw (pos zero) t h = absurd (cc h)
in_range_bounds raw (pos (suc d)) t h = elim (Bool-cases (leb (suc d) max_api_timeout)) [
  | inl fits ↦
      let same : suc d ≡ t = ok-injective (rw (fits, in_range) at h) in
      rw (← same) (omega arith, ground arith, refl)
  | inr large ↦ absurd (cc (rw (large, in_range) at h))
]
in_range_bounds raw (negsuc d) t h = absurd (cc h)

parsed_timeout_bounds :
    (raw : Bytes) (d : Result ℤ) (t : ℕ)
    → parsed_timeout raw d ≡ ok t
    → (0 < t) × (t ≤ max_api_timeout) × (d ≡ ok (pos t))
unfolding parsed_timeout
parsed_timeout_bounds raw (ok d) t h =
    let (low, high, same) = in_range_bounds raw d t h in (low, high, ap (λ x. ok x) same)
parsed_timeout_bounds raw (err e) t h = absurd (cc h)

empty_of : {A : Type 0} (xs : List A) → is_empty xs ≡ true → xs ≡ []
empty_of [] h = refl
empty_of (x ∷ xs) h = absurd (cc h)

valid_of :
    (s : Bytes)
    → matches_cluster_name s ≡ true
    → (1 ≤ length s) × (length s ≤ 63) × (all is_name_byte s ≡ true)
unfolding matches_cluster_name
valid_of s h = ground arith

module _ (parse_duration : Bytes → Result ℤ) (env : Environment) where
  -- The timeout that the environment asks for.
  abbrev pub Meant : ℕ → Type 0
  Meant t =
      let raw = trim_space (codes (env "HCLOUD_API_TIMEOUT")) in
      ((raw ≡ []) × (t ≡ default_api_timeout)) ⊎ (parse_duration raw ≡ ok (pos t))

  load_api_timeout-ok :
      (t : ℕ)
      → load_api_timeout parse_duration env ≡ ok t
      → (0 < t) × (t ≤ max_api_timeout) × Meant t
  unfolding load_api_timeout
  load_api_timeout-ok t h =
      let raw = trim_space (codes (env "HCLOUD_API_TIMEOUT")) in
      elim (Bool-cases (is_empty raw)) [
        | inl unset ↦
            let same : default_api_timeout ≡ t = ok-injective (rw (unset, load_api_timeout) at h) in
            (omega arith, omega arith, inl (empty_of raw unset, sym same))
        | inr given ↦
            let (low, high, same) =
              parsed_timeout_bounds raw (parse_duration raw) t
                (rw (given, load_api_timeout) at h) in
            (low, high, inr same)
      ]

  pub record IsConfig (cfg : Config) : Type 0 where
    pub named : cfg.cluster_name ≡ trim_space (codes (env "CLUSTER_NAME"))
    pub not_empty : 1 ≤ length cfg.cluster_name
    pub short : length cfg.cluster_name ≤ 63
    pub label_value : All (λ c. is_name_byte c ≡ true) cfg.cluster_name
    pub positive : 0 < cfg.api_timeout
    pub bounded : cfg.api_timeout ≤ max_api_timeout
    pub meant : Meant cfg.api_timeout

  config_with-ok :
      (name : Bytes) (t : Result ℕ) (cfg : Config)
      → config_with parse_duration env name t ≡ ok cfg
      → (t ≡ ok cfg.api_timeout) × (cfg.cluster_name ≡ name)
  unfolding config_with
  config_with-ok name (ok t) cfg h = rw (← ok-injective h) (refl, refl)
  config_with-ok name (err e) cfg h = absurd (cc h)

  -- A configuration that LoadConfig returns has the trimmed CLUSTER_NAME, of 1 to 63 bytes that a label
  -- value may have, and a timeout above zero and of at most five minutes: the one that is asked for, or
  -- the default if none is.
  pub load_config-ok : (cfg : Config) → load_config parse_duration env ≡ ok cfg → IsConfig cfg
  unfolding load_config matches_cluster_name
  load_config-ok cfg h =
      let name = trim_space (codes (env "CLUSTER_NAME")) in
      elim (Bool-cases (is_empty name)) [
        | inl unset ↦ absurd (cc (rw (unset, load_config) at h))
        | inr given ↦ elim (Bool-cases (matches_cluster_name name)) [
          | inr bad ↦ absurd (cc (rw (given, bad, load_config) at h))
          | inl good ↦
              let (found, same) =
                config_with-ok name (load_api_timeout parse_duration env) cfg
                  (rw (given, good, load_config) at h) in
              let (low, high, meant) = load_api_timeout-ok cfg.api_timeout found in
              let (to, from) = all_iff is_name_byte name in
              let valid : (1 ≤ length name) × (length name ≤ 63) × (all is_name_byte name ≡ true) =
                valid_of name good in
              record {
                named = same;
                not_empty = rw same valid.0;
                short = rw same valid.1;
                label_value = rw same (to valid.2);
                positive = low;
                bounded = high;
                meant = meant;
              }
        ]
      ]
