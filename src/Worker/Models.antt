-- ===== src/Worker/Models.antt =====
-- worker/models.py: the value objects of the worker. A time is a number of microseconds.
use git_hub_engineering_work.Common.{ℕ, String, ◌<>◌, Option, List}
use git_hub_engineering_work.Common.Text.{decimal}
use git_hub_engineering_work.Common.Json.{Fields}

pub record WorkerRepository : Type 0 where
  pub owner : String
  pub name : String
  pub default_branch : String

unfoldable pub full_name : WorkerRepository → String
full_name r = r.owner <> ("/" <> r.name)

pub record WorkerIssue : Type 0 where
  pub repository : String
  pub number : ℕ
  pub title : Option String
  pub url : Option String
  pub labels : List String
  pub attempts : ℕ
  pub enqueued_at : ℕ
  pub metadata : Fields

-- f"{self.repository}#{self.number}"
unfoldable pub key : WorkerIssue → String
unfolding decimal
key issue = issue.repository <> ("#" <> decimal issue.number)
