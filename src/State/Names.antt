-- ===== src/State/Names.antt =====
-- The names of groups and packages that crates/dnfast-state/src/group.rs and reason.rs accept.
use dnfast.Base.{Text, Bool, ◌&&◌, ◌||◌, not, len, is_empty, all, is_alphanumeric, ◌==◌, ltb}

abbrev pub all_name_bytes : Text → Bool
all_name_bytes name =
    all (λ c. is_alphanumeric c || (c == b'+' || (c == b'.' || (c == b'_' || c == b'-')))) name

-- The negation of the condition that refuses a name.
abbrev pub is_identifier : Text → Bool
is_identifier name = not (is_empty name) && (not (ltb 4096 (len name)) && all_name_bytes name)
