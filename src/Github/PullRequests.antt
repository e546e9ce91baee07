-- ===== src/Github/PullRequests.antt =====
-- github/pull_requests/service.py, and `create_pull_request` of github/client/github_client.py.
use git_hub_engineering_work.Common.{
  ℕ, String, Bool, true, false, not, ◌||◌, Option, none, if◌then◌else◌,
}
use git_hub_engineering_work.Common.Text.{truthy, strip}
use git_hub_engineering_work.Common.Outcome.{Exc, Outcome, returned, raised}
use git_hub_engineering_work.Common.Act.{Act, ◌>>=◌, return}

pub record PullRequestDraft : Type 0 where
  pub title : String
  pub body : String
  pub head : String
  pub base : String
  pub html_url : Option String
  pub number : Option ℕ
  pub dry_run : Bool

abbrev pub pull_request_exception : String → Exc
pull_request_exception m = record { class_name = "PullRequestException"; text = m }

unfoldable pub validate : String → String → String → String → Outcome (Unit {0})
unfolding strip
validate title body head base =
    if not (truthy (strip title))
    then raised (pull_request_exception "pull request title is required")
    else if not (truthy (strip body))
    then raised (pull_request_exception "pull request body is required")
    else if not (truthy (strip head)) || not (truthy (strip base))
    then raised (pull_request_exception "pull request head and base are required")
    else returned tt

-- the answer to the request: its `html_url` and `number`
pub record Created : Type 0 where
  pub html_url : Option String
  pub number : Option ℕ

module _ {ℓ} {W : Type ℓ} (post : String → String → String → String → Act W Created) where
  unfoldable pub create_pull_request :
      String → String → String → String → Bool → Act W PullRequestDraft
  create_pull_request title body head base dry_run =
      if dry_run
      then return (record {
        title = title;
        body = body;
        head = head;
        base = base;
        html_url = none;
        number = none;
        dry_run = true;
      })
      else (post title body head base >>= λ data_. return (record {
        title = title;
        body = body;
        head = head;
        base = base;
        html_url = data_.html_url;
        number = data_.number;
        dry_run = false;
      }))

  -- `title` and `body` as their templates give them
  unfoldable pub create_pr :
      Outcome String → Outcome String → String → String → Bool → Act W PullRequestDraft
  create_pr title body head base dry_run = (λ s. (s, title)) >>= λ t. (λ s. (s, body)) >>= λ b.
      (λ s. (s, validate t b head base)) >>= λ _. create_pull_request t b head base dry_run
