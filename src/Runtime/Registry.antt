-- ===== src/Runtime/Registry.antt =====
-- runtime/registry/base.py: metadata and implementations under identifiers, in the order of their
-- registration.
use git_hub_engineering_work.Common.{
  String, ◌<>◌, ◌==◌, eq_iff, eq_refl, ◌≡◌, ◌≢◌, refl, sym, ap, ◌∙◌, Bool, true, false, not, ◌||◌,
  ◌&&◌, inl, inr, Option, none, some, List, [], ◌∷◌, ◌++◌, any, keep, if◌then◌else◌, Bool-cases,
  arith,
}
use git_hub_engineering_work.Common.Text.{truthy}
use git_hub_engineering_work.Common.Outcome.{Exc, Outcome, returned, raised}

-- `AgentMetadata`: what is read of it
pub record AgentMetadata : Type 0 where
  pub identifier : String
  pub name : String
  pub version : String
  pub capabilities : List String
  pub supported_stages : List String

-- a dict that only grows, in the order of insertion
abbrev pub find {ℓ} : {A : Type ℓ} → String → List (String × A) → Option A
find k [] = none
find k ((j, v) ∷ rest) = if j == k then some v else find k rest

pub record Registry {ℓ} (I : Type ℓ) : Type ℓ where
  pub kind : String
  pub metadata : List (String × AgentMetadata)
  pub implementations : List (String × I)

abbrev pub registry_exception : String → Exc
registry_exception m = record { class_name = "RegistryException"; text = m }

abbrev pub is_found {ℓ} : {A : Type ℓ} → Option A → Bool
is_found none = false
is_found (some a) = true

abbrev found_or {ℓ} : {A : Type ℓ} → Exc → Option A → Outcome A
found_or e none = raised e
found_or e (some a) = returned a

abbrev pub values {ℓ} : {A : Type ℓ} → List (String × A) → List A
values [] = []
values ((k, v) ∷ rest) = v ∷ values rest

module _ {ℓ} {I : Type ℓ} where
  unfoldable pub contains : String → Registry I → Bool
  contains k r = is_found (find k r.metadata)

  abbrev add_implementation : String → Option I → List (String × I) → List (String × I)
  add_implementation k none xs = xs
  add_implementation k (some i) xs = xs ++ (k, i) ∷ []

  unfoldable pub register : AgentMetadata → Option I → Registry I → Registry I × Outcome (Unit {0})
  unfolding contains
  register m implementation r =
      if not (truthy m.identifier) || not (truthy m.version)
      then (
        r,
        raised (registry_exception (r.kind <> " metadata must include identifier and version")),
      )
      else if contains m.identifier r
      then (r, raised (registry_exception (r.kind <> " already registered: " <> m.identifier)))
      else (
        record r {
          metadata = r.metadata ++ (m.identifier, m) ∷ [];
          implementations = add_implementation m.identifier implementation r.implementations;
        },
        returned tt,
      )

  -- `get`
  unfoldable pub get_metadata : String → Registry I → Outcome AgentMetadata
  get_metadata k r =
      found_or (registry_exception (r.kind <> " not registered: " <> k)) (find k r.metadata)

  unfoldable pub get_implementation : String → Registry I → Outcome I
  get_implementation k r =
      found_or (registry_exception (r.kind <> " implementation not registered: " <> k))
        (find k r.implementations)

  -- `discover`
  unfoldable pub discover : Option String → Registry I → List AgentMetadata
  discover none r = values r.metadata
  discover (some c) r = keep (λ m. any (λ x. x == c) m.capabilities) (values r.metadata)

abbrev pub is_valid : AgentMetadata → Bool
is_valid m = truthy m.identifier && truthy m.version

module _ {κ} {A : Type κ} where
  find-append :
      (k j : String) (v : A) (xs : List (String × A))
      → find k (xs ++ (j, v) ∷ [])
        ≡ (if is_found (find k xs) then find k xs else if j == k then some v else none)
  find-append k j v [] = refl
  find-append k j v ((i, w) ∷ xs) = elim (Bool-cases (i == k)) [
    | inl met ↦ rw met refl
    | inr unmet ↦ rw unmet (find-append k j v xs)
  ]

  find-new :
      (k : String) (v : A) (xs : List (String × A))
      → is_found (find k xs) ≡ false
      → find k (xs ++ (k, v) ∷ []) ≡ some v
  find-new k v xs h = find-append k k v xs ∙ rw (h, eq_refl k) refl

  kept : (o : Option A) → (if is_found o then o else none) ≡ o
  kept none = refl
  kept (some a) = refl

  find-other :
      (k j : String) (v : A) (xs : List (String × A))
      → (j == k) ≡ false
      → find k (xs ++ (j, v) ∷ []) ≡ find k xs
  find-other k j v xs h = find-append k j v xs ∙ rw h (kept (find k xs))

pub differs : (k j : String) → k ≢ j → (j == k) ≡ false
differs k j h = elim (Bool-cases (j == k)) [
  | inl met ↦ absurd (h (sym ((eq_iff j k).0 met)))
  | inr unmet ↦ unmet
]

module _ {ℓ} {I : Type ℓ} where
  -- A registration is accepted exactly where the identifier and the version are given and the
  -- identifier is not known. Then the metadata is the answer for its identifier, and the answers for all
  -- others stay; otherwise the registry stays as it is.
  pub get_metadata-register :
      (m : AgentMetadata) (i : Option I) (r : Registry I)
      → ((is_valid m && not (contains m.identifier r)) ≡ true
          → ((register m i r).1 ≡ returned tt)
            × (get_metadata m.identifier (register m i r).0 ≡ returned m)
            × ((k : String)
                → k ≢ m.identifier
                → get_metadata k (register m i r).0 ≡ get_metadata k r))
        × ((is_valid m && not (contains m.identifier r)) ≡ false
            → ((register m i r).1 ≢ returned tt) × ((register m i r).0 ≡ r))
  unfolding register contains get_metadata
  get_metadata-register m i r = elim (Bool-cases (truthy m.identifier)) [
    | inl named ↦ elim (Bool-cases (truthy m.version)) [
      | inl dated ↦ elim (Bool-cases (is_found (find m.identifier r.metadata))) [
        | inl known ↦
            rw (named, dated, known)
              ((λ h. absurd (ground arith)), (λ h. ((λ g. ground arith), refl)))
        | inr new ↦
            rw (named, dated, new)
              (
                (λ h. (
                  refl,
                  ap (found_or _) (find-new _ m r.metadata new),
                  (λ k g.
                      ap (found_or _)
                        (find-other k m.identifier m r.metadata (differs k m.identifier g))),
                )),
                (λ h. absurd (ground arith)),
              )
      ]
      | inr undated ↦
          rw (named, undated) ((λ h. absurd (ground arith)), (λ h. ((λ g. ground arith), refl)))
    ]
    | inr unnamed ↦ rw unnamed ((λ h. absurd (ground arith)), (λ h. ((λ g. ground arith), refl)))
  ]
