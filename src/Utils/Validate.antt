-- ===== src/Utils/Validate.antt =====
-- src/utils/validate.rs and `validate_plugin_id` of src/plugins/registry.rs.
pub mod Exact
use veyron.Prelude.{
  ℕ, Text, text_eq, bytes, is_empty, ◌==◌, nat_eq, length, all, ltb, leb, Bool, not, ◌&&◌, ◌||◌,
  ◌++◌, decimal, if◌then◌else◌,
}
use veyron.Utils.Errors.{Result, ok, err, invalid_plugin_id, ◌>>◌}

-- `u8::is_ascii_alphanumeric`
is_ascii_alphanumeric : ℕ → Bool
is_ascii_alphanumeric b =
    (leb b'a' b && leb b b'z') || (leb b'A' b && leb b b'Z') || (leb b'0' b && leb b b'9')

unfoldable pub is_id_byte : ℕ → Bool
unfolding is_ascii_alphanumeric
is_id_byte b = is_ascii_alphanumeric b || b == b'-' || b == b'_' || b == b'.'

unfoldable pub validate_identifier : Text → ℕ → Result (Unit {0})
validate_identifier id max_len =
    if is_empty id
    then err (invalid_plugin_id (bytes "must not be empty"))
    else if ltb max_len (length id)
    then err (
        invalid_plugin_id (
          bytes "too long ("
          ++ (decimal (length id) ++ (bytes " bytes, max " ++ (decimal max_len ++ bytes ")")))))
    else if id == bytes "." || id == bytes ".."
    then err (invalid_plugin_id (bytes "'.' and '..' are reserved path components"))
    else if not (all is_id_byte id)
    then err (invalid_plugin_id (bytes "only ASCII letters, digits, '.', '-', '_' are allowed"))
    else ok tt

-- The width of the target field of a frame.
abbrev max_len : ℕ
max_len = 32

unfoldable pub validate_plugin_id : Text → Result (Unit {0})
validate_plugin_id id =
    validate_identifier id max_len
    >> (if id == bytes "kernel" || id == bytes "*"
        then err (invalid_plugin_id (bytes "'" ++ (id ++ bytes "' is reserved")))
        else ok tt)
