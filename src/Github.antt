-- ===== src/Github.antt =====
-- github/: the local git commands and the services on top of them. Running `git` itself, the HTTP
-- client's request and `str.format` are parameters.
pub mod Shell
pub mod Pushes
pub mod Branches
pub mod PullRequests
pub mod Workspaces
