-- ===== src/Auth/Permissions/Names.antt =====
-- Names of permissions: the two spellings of a permission mean the same.
use veyron.Ipc.Wire.{Wire}
use veyron.Prelude.{
  [], ◌∷◌, refl, text_eq, nat_eq, arith, upper_byte, Text, ◌≡◌, lower_byte, to_ascii_uppercase,
  to_ascii_lowercase, sym, ℕ, ◌∙◌, ap,
}
use veyron.Auth.Permissions.{resolve_permission, normalize_permission, stripped}

upper-lower : (c : ℕ) → upper_byte (lower_byte c) ≡ upper_byte c
unfolding upper_byte lower_byte
upper-lower c = ground arith

to_ascii_uppercase-lowercase :
    (s : Text) → to_ascii_uppercase (to_ascii_lowercase s) ≡ to_ascii_uppercase s
to_ascii_uppercase-lowercase [] = refl
to_ascii_uppercase-lowercase (c ∷ s) = cc (upper-lower c, to_ascii_uppercase-lowercase s)

-- Two names that compare equal where permissions are checked resolve to the same permission.
pub resolve_permission-normalize :
    (w : Wire) (s t : Text)
    → normalize_permission s ≡ normalize_permission t
    → resolve_permission w s ≡ resolve_permission w t
unfolding normalize_permission resolve_permission
resolve_permission-normalize w s t h =
    let same : to_ascii_uppercase (stripped s) ≡ to_ascii_uppercase (stripped t) =
      sym (to_ascii_uppercase-lowercase (stripped s))
      ∙ ap to_ascii_uppercase h
      ∙ to_ascii_uppercase-lowercase (stripped t) in
    rw (same, resolve_permission)
