-- ===== src/Worker/Loader/Repositories.antt =====
-- worker/configuration/loader.py: which repositories the worker watches.
use git_hub_engineering_work.Common.{
  String, ◌==◌, eq_iff, ◌≡◌, refl, sym, ap, ◌∙◌, Bool, true, false, Option, none, some, List, [],
  ◌∷◌, ◌++◌, Bool-cases, inl, inr, arith, if◌then◌else◌,
}
use git_hub_engineering_work.Common.Outcome.{returned}
use git_hub_engineering_work.Worker.Models.{WorkerRepository, full_name}
use git_hub_engineering_work.Worker.Loader.{
  Environment, RuntimeConfiguration, parse_items, assign, dedupe, configured_items,
  runtime_repository, repositories,
}

-- the repository with the full name
abbrev pub find : String → List WorkerRepository → Option WorkerRepository
find k [] = none
find k (r ∷ repos) = if full_name r == k then some r else find k repos

abbrev pub or_found : Option WorkerRepository → Option WorkerRepository → Option WorkerRepository
or_found none o = o
or_found (some r) o = some r

-- the last repository with the full name
abbrev pub find_last : String → List WorkerRepository → Option WorkerRepository
find_last k [] = none
find_last k (r ∷ repos) = or_found (find_last k repos) (if full_name r == k then some r else none)

-- No two repositories have the same full name.
abbrev pub IsUnique : List WorkerRepository → Type 0
IsUnique [] = Unit
IsUnique (r ∷ repos) = (find (full_name r) repos ≡ none) × IsUnique repos

find-assign :
    (k : String) (repo : WorkerRepository) (entries : List WorkerRepository)
    → find k (assign repo entries) ≡ (if full_name repo == k then some repo else find k entries)
unfolding assign
find-assign k repo [] = refl
find-assign k repo (r ∷ entries) = ground (
  arith,
  eq_iff (full_name r) (full_name repo),
  eq_iff (full_name repo) k,
  eq_iff (full_name r) k,
  find-assign k repo entries,
)

assign-IsUnique :
    (repo : WorkerRepository) (entries : List WorkerRepository)
    → IsUnique entries
    → IsUnique (assign repo entries)
unfolding assign
assign-IsUnique repo [] u = (refl, tt)
assign-IsUnique repo (r ∷ entries) (fresh, u) = elim (Bool-cases (full_name r == full_name repo)) [
  | inl same ↦
      rw (same, assign)
        (ap (λ k. find k entries) (sym ((eq_iff (full_name r) (full_name repo)).0 same)) ∙ fresh, u)
  | inr other ↦
      rw (other, assign)
        (
          ground (
            arith,
            find-assign (full_name r) repo entries,
            eq_iff (full_name r) (full_name repo),
            eq_iff (full_name repo) (full_name r),
          ),
          assign-IsUnique repo entries u,
        )
]

or_found-if :
    (a : Option WorkerRepository) (b : Bool) (r : WorkerRepository) (o : Option WorkerRepository)
    → or_found a (if b then some r else o) ≡ or_found (or_found a (if b then some r else none)) o
or_found-if none true r o = refl
or_found-if none false r o = refl
or_found-if (some x) b r o = refl

find-dedupe :
    (k : String) (repos entries : List WorkerRepository)
    → find k (dedupe entries repos) ≡ or_found (find_last k repos) (find k entries)
unfolding dedupe
find-dedupe k [] entries = refl
find-dedupe k (repo ∷ repos) entries =
    find-dedupe k repos (assign repo entries)
    ∙ ap (or_found (find_last k repos)) (find-assign k repo entries)
    ∙ or_found-if (find_last k repos) (full_name repo == k) repo (find k entries)

dedupe-IsUnique :
    (repos entries : List WorkerRepository) → IsUnique entries → IsUnique (dedupe entries repos)
unfolding dedupe
dedupe-IsUnique [] entries u = u
dedupe-IsUnique (repo ∷ repos) entries u =
    dedupe-IsUnique repos (assign repo entries) (assign-IsUnique repo entries u)

or_found-none : (o : Option WorkerRepository) → or_found o none ≡ o
or_found-none none = refl
or_found-none (some r) = refl

-- Where every configured item can be read, the worker gets a list of repositories without two of the same
-- full name, and under each full name the last one that was configured, the runtime's own repository
-- being the last of all.
pub repositories-find :
    (env : Environment) (config : RuntimeConfiguration) (repos : List WorkerRepository)
    → parse_items config.default_base_branch (configured_items (env "WORKER_REPOSITORIES"))
      ≡ returned repos
    → (result : List WorkerRepository) × (repositories env config ≡ returned result)
      × IsUnique result
      × ((k : String) → find k result ≡ find_last k (repos ++ runtime_repository config))
unfolding repositories
repositories-find env config repos read =
    let all = repos ++ runtime_repository config in
    (
      dedupe [] all,
      rw read refl,
      dedupe-IsUnique all [] tt,
      λ k. find-dedupe k all [] ∙ or_found-none (find_last k all),
    )
