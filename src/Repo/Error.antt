-- ===== src/Repo/Error.antt =====
-- `RepoError` of crates/dnfast-repo/src/error.rs; a path is its text, and of an I/O error the
-- message is kept.
use dnfast.Base.{ℕ, Text}

pub data RepoError : Type 0 where
  parse_error : Text → ℕ → Text → RepoError
  unresolved_variable malformed_variable : Text → RepoError
  io : Text → Text → RepoError
  invalid_utf8 : Text → RepoError
