-- ===== src/Core/Value/Display.antt =====
-- The messages of `DomainError` in crates/dnfast-core/src/value.rs.
use dnfast.Base.{Text, text, decimal, ◌++◌}
use dnfast.Core.Value.{
  DomainError, empty, invalid_digest, schema_version, architecture, unsafe_action, duplicate,
  invalid_plan, json, non_canonical, document_too_large, depth_exceeded, string_too_large,
}

-- `DomainError::to_string`.
pub to_string : DomainError → Text
to_string (empty field) = text field ++ text " cannot be empty"
to_string (invalid_digest field) =
    text field ++ text " is not a 64-character hexadecimal SHA-256 digest"
to_string (schema_version expected actual) =
    text "unsupported schema version "
    ++ (decimal actual ++ (text "; expected " ++ decimal expected))
to_string architecture = text "unsupported architecture"
to_string (unsafe_action why) = text "unsafe solver action: " ++ text why
to_string (duplicate identity) = text "duplicate canonical identity: " ++ identity
to_string (invalid_plan why) = text "invalid plan: " ++ text why
to_string (json message) = text "JSON boundary rejected input: " ++ message
to_string non_canonical = text "JSON is not canonical JCS form"
to_string document_too_large = text "document exceeds 16 MiB"
to_string depth_exceeded = text "JSON nesting exceeds depth 32"
to_string string_too_large = text "JSON string exceeds 1 MiB"
