-- ===== src/Ipc/Framing/Targets.antt =====
-- The target field of a frame tells valid plugin ids apart.
use veyron.Prelude.{
  [], ◌∷◌, true, refl, text_eq, nat_eq, arith, ◌≡◌, Text, ℕ, length, ◌++◌, all, ◌≢◌, suc, ◌-◌, ◌≤◌,
  ap, zero, sym, ◌∙◌,
}
use veyron.Utils.Validate.{is_id_byte, validate_plugin_id}
use veyron.Utils.Validate.Exact.{validate_plugin_id_iff}
use veyron.Utils.Errors.{ok}
use veyron.Ipc.Framing.{target_bytes, take, zeros}

-- Padding to a width, byte by byte.
abbrev padded : ℕ → Text → Text
padded zero s = []
padded (suc n) [] = 0 ∷ padded n []
padded (suc n) (c ∷ s) = c ∷ padded n s

zeros-padded : (n : ℕ) → zeros n ≡ padded n []
zeros-padded zero = refl
zeros-padded (suc n) = ap (λ z. 0 ∷ z) (zeros-padded n)

take-zeros : (n : ℕ) (s : Text) → take n s ++ zeros (n - length s) ≡ padded n s
take-zeros zero s = let e : 0 - length s ≡ 0 = omega arith in rw e
take-zeros (suc n) [] = let e : suc n - 0 ≡ suc n = omega arith in rw e (zeros-padded (suc n))
take-zeros (suc n) (c ∷ s) =
    let e : suc n - suc (length s) ≡ n - length s = omega arith in
    rw e (ap (λ z. c ∷ z) (take-zeros n s))

id_byte_not_zero : (c : ℕ) → is_id_byte c ≡ true → c ≢ 0
unfolding is_id_byte
id_byte_not_zero c h e = ground arith

padded-injective :
    (n : ℕ) (s t : Text)
    → length s ≤ n
    → length t ≤ n
    → all is_id_byte s ≡ true
    → all is_id_byte t ≡ true
    → padded n s ≡ padded n t
    → s ≡ t
unfolding all
padded-injective zero [] [] a b p q h = refl
padded-injective zero [] (d ∷ t) a b p q h = absurd (omega arith)
padded-injective zero (c ∷ s) t a b p q h = absurd (omega arith)
padded-injective (suc n) [] [] a b p q h = refl
padded-injective (suc n) [] (d ∷ t) a b p q h = absurd (ground (arith, id_byte_not_zero d))
padded-injective (suc n) (c ∷ s) [] a b p q h = absurd (ground (arith, id_byte_not_zero c))
padded-injective (suc n) (c ∷ s) (d ∷ t) a b p q h = cc (
    padded-injective n s t (omega arith) (omega arith) (ground arith) (ground arith) (ground arith))

-- Two plugin ids that pass registration and fill the target field alike are the same id: no id is
-- cut off, and none runs into the padding.
pub target_bytes_injective :
    (s t : Text)
    → validate_plugin_id s ≡ ok tt
    → validate_plugin_id t ≡ ok tt
    → target_bytes s ≡ target_bytes t
    → s ≡ t
unfolding target_bytes
target_bytes_injective s t a b h =
    let v = (validate_plugin_id_iff s).0 a in
    let u = (validate_plugin_id_iff t).0 b in
    padded-injective 32 s t v.fits u.fits v.charset u.charset
      (sym (take-zeros 32 s) ∙ h ∙ take-zeros 32 t)
