-- ===== src/Utils/Validate/Exact.antt =====
-- Which identifiers pass the gate.
use veyron.Prelude.{
  ◌≤◌, ◌≡◌, ◌≢◌, ◌↔◌, Text, text_eq, bytes, is_empty, ==_iff, length, all, true, [], ◌∷◌, arith,
  subst,
}
use veyron.Utils.Errors.{ok}
use veyron.Utils.Validate.{is_id_byte, validate_identifier, validate_plugin_id}

-- The shape of a plugin id, described on its own.
pub record IsPluginId (id : Text) : Type 0 where
  pub some_bytes : 1 ≤ length id
  pub fits : length id ≤ 32
  pub charset : all is_id_byte id ≡ true
  pub no_dot : id ≢ bytes "."
  pub no_dots : id ≢ bytes ".."
  pub no_kernel : id ≢ bytes "kernel"

accepted : (id : Text) → validate_plugin_id id ≡ ok tt → IsPluginId id
unfolding validate_plugin_id validate_identifier is_empty
accepted [] h = cc
accepted (c ∷ id) h = record {
  some_bytes = omega arith;
  fits = ground arith;
  charset = ground arith;
  no_dot = ground (arith, ==_iff (c ∷ id) (bytes "."));
  no_dots = ground (arith, ==_iff (c ∷ id) (bytes ".."));
  no_kernel = ground (arith, ==_iff (c ∷ id) (bytes "kernel"));
}

star_refused : (id : Text) → all is_id_byte id ≡ true → id ≢ bytes "*"
unfolding all is_id_byte
star_refused id h e = cc (subst (λ s. all is_id_byte s ≡ true) e h)

accepts : (id : Text) → IsPluginId id → validate_plugin_id id ≡ ok tt
unfolding validate_plugin_id validate_identifier is_empty
accepts [] v = absurd (omega (arith, v.some_bytes))
accepts (c ∷ id) v = ground (
  arith,
  ==_iff (c ∷ id) (bytes "."),
  ==_iff (c ∷ id) (bytes ".."),
  ==_iff (c ∷ id) (bytes "kernel"),
  ==_iff (c ∷ id) (bytes "*"),
  star_refused (c ∷ id) v.charset,
)

pub validate_plugin_id_iff : (id : Text) → (validate_plugin_id id ≡ ok tt) ↔ IsPluginId id
validate_plugin_id_iff id = (accepted id, accepts id)
