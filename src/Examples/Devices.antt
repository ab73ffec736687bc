-- ===== src/Examples/Devices.antt =====
-- A phone is paired, over a cipher that puts one byte before the text.
use veyron.Utils.Errors.{ok, err}
use veyron.Auth.Devices.{
  Vault, Disk, issue, active_secret, refusal_of, expired, seal, read_all, write_all, put_row,
  check_rows,
}
use veyron.Auth.Devices.Lifecycle.{issue_opens}
use veyron.Prelude.{
  ◌≢◌, ltb, [], ◌∷◌, none, some, true, false, refl, text_eq, nat_eq, arith, if◌then◌else◌, ◌≡◌,
  List, Option, Text, ℕ, bytes, ◌++◌,
}

abbrev opened : List ℕ → Option (List ℕ)
opened [] = none
opened (b ∷ bs) = some bs

abbrev vault : Vault
vault = record {
  encrypt = λ nonce s. some (1 ∷ s);
  decrypt = λ nonce ct. opened ct;
  is_utf8 = λ bs. true;
}

abbrev phone : Text
phone = bytes "phone"

abbrev nonce : List ℕ
nonce = 1 ∷ 2 ∷ 3 ∷ 4 ∷ 5 ∷ 6 ∷ 7 ∷ 8 ∷ 9 ∷ 10 ∷ 11 ∷ 12 ∷ []

abbrev blank : Disk
blank = record { rows = []; read_error = none; write_error = none }

abbrev paired : Disk
paired = record blank {
  rows =
      record {
        device_id = phone;
        name = bytes "p";
        created_at = 100;
        expires_at = 160;
        revoked = false;
        secret_enc = nonce ++ (1 ∷ bytes "s");
      }
      ∷ [];
}

opens :
    (ct : List ℕ)
    → vault.encrypt nonce (bytes "s") ≡ some ct
    → (vault.decrypt nonce ct ≡ some (bytes "s")) × (ct ≢ [])
opens [] h = absurd (ground (arith, h))
opens (b ∷ ct) h = (ground (arith, h), λ e. absurd (ground (arith, e)))

is_issued : issue vault 100 nonce (bytes "s") phone (bytes "p") 60 blank ≡ ok (bytes "s", paired)
unfolding issue seal read_all write_all put_row check_rows
is_issued = refl

different : phone ≢ bytes "tv"
different e = absurd (ground (arith, e))

issue_opens_example :
    (bytes "s" ≡ bytes "s")
    × (active_secret vault 120 phone paired
        ≡ (if ltb 120 160 then ok (some (bytes "s")) else err (refusal_of phone expired)))
    × (active_secret vault 120 (bytes "tv") paired ≡ active_secret vault 120 (bytes "tv") blank)
issue_opens_example =
    issue_opens vault 100 120 nonce (bytes "s") phone (bytes "p") (bytes "s") (bytes "tv") 60 blank
      paired opens refl refl (omega arith) different is_issued
