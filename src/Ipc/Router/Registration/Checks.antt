-- ===== src/Ipc/Router/Registration/Checks.antt =====
-- The checks of a registration, and what an entry that passes them has.
use veyron.Prelude.{
  [], ◌∷◌, none, some, inl, inr, true, refl, text_eq, nat_eq, arith, ==_iff, Option-cases,
  Bool-cases, ◌≡◌, List, Option, Bool, Text, ℕ, contains, ◌≢◌, is_some, retain, subst, sym, ap,
  ==_or_not, ◌∙◌, false, is_empty, ◌⊎◌,
}
use veyron.Utils.Errors.{Result, ok, guarded-eq-ok, Result-cases}
use veyron.Auth.Jwt.{Decoder, PluginClaims, validate}
use veyron.Registry.Types.{PluginManifest, PluginEntry, DeviceMeta}
use veyron.Registry.State.{PluginRegistry}
use veyron.Registry.Register.{register_device, register_with_device, commit, check_slots}
use veyron.Registry.Register.Consistent.{check_slots_free}
use veyron.Ipc.Wire.{PluginRegister}
use veyron.Ipc.Kernel.{Now, IncomingMessage}
use veyron.Ipc.Router.Registration.{
  Settings, clamp, enter, is_for, allowlist, operator_allows, is_mux_device, authenticate,
  device_secret, is_incompatible,
}
use veyron.Prelude.Maps.{get, insert, Map, get-insert}

-- What a registered plugin's entry owes to its token, to the operator's list and to its device's
-- credential.
pub record IsGranted (cfg : Settings) (reg : PluginRegister) (e : PluginEntry) : Type 0 where
  pub compatible : is_incompatible cfg reg ≡ false
  pub token :
      (decode : Decoder)
      → cfg.jwt ≡ some decode
      → (claims : PluginClaims) × (validate decode reg.jwt_token ≡ ok claims)
        × (is_for claims reg ≡ true)
        × ((p : Text)
            → contains e.manifest.permissions p ≡ true
            → contains claims.permissions p ≡ true)
        × (e.manifest.ipc_targets ≡ claims.ipc_targets)
  pub operator :
      (a : Text) (allowed : List Text) (p : Text)
      → allowlist cfg reg.plugin_id ≡ some (a ∷ allowed)
      → contains e.manifest.permissions p ≡ true
      → operator_allows (a ∷ allowed) p ≡ true
  pub paired :
      (store : Text → Result (Option Text))
      → cfg.active_secret ≡ some store
      → reg.device_id ≢ []
      → is_some cfg.mac_secret ≡ true
      → (secret : Text) × (store reg.device_id ≡ ok (some secret))

-- The plugin of the registration gets an entry for the connection, with the manifest's permissions
-- and targets, where it had none.
record IsEntered (msg : IncomingMessage) (reg : PluginRegister) (m : PluginManifest)
    (r r' : PluginRegistry) (e : PluginEntry) : Type 0 where
  rows : r'.by_plugin_id ≡ insert reg.plugin_id e r.by_plugin_id
  was_free : get reg.plugin_id r.by_plugin_id ≡ none
  on_conn : e.conn_id ≡ msg.conn_id
  has_permissions : e.manifest.permissions ≡ m.permissions
  has_targets : e.manifest.ipc_targets ≡ m.ipc_targets

entered :
    (msg : IncomingMessage) (reg : PluginRegister) (m : PluginManifest) (entry : PluginEntry)
    (meta : DeviceMeta) (caps : List Text) (now now_ms : ℕ) (r r' : PluginRegistry)
    → entry.plugin_id ≡ reg.plugin_id
    → entry.conn_id ≡ msg.conn_id
    → entry.manifest.permissions ≡ m.permissions
    → entry.manifest.ipc_targets ≡ m.ipc_targets
    → get entry.plugin_id r.by_plugin_id ≡ none
    → commit entry meta caps now now_ms r ≡ r'
    → (e : PluginEntry) × IsEntered msg reg m r r' e
unfolding commit
entered msg reg m entry meta caps now now_ms r r' id_lem conn_lem perms_lem targets_lem free made =
    (
      entry,
      record {
        rows =
            ap (λ (x : PluginRegistry). x.by_plugin_id) (sym made)
            ∙ ap (λ (t : Text). insert t entry r.by_plugin_id) id_lem;
        was_free = subst (λ (t : Text). get t r.by_plugin_id ≡ none) id_lem free;
        on_conn = conn_lem;
        has_permissions = perms_lem;
        has_targets = targets_lem;
      },
    )

enter-ok :
    (cfg : Settings) (now : Now) (msg : IncomingMessage) (reg : PluginRegister) (m : PluginManifest)
    (r r' : PluginRegistry)
    → enter cfg now msg reg m r ≡ ok r'
    → (e : PluginEntry) × IsEntered msg reg m r r' e
unfolding enter register_device register_with_device
enter-ok cfg now msg reg m r r' h = elim (Bool-cases (is_mux_device reg)) [
  | inl mux ↦
      let same_id : reg.plugin_id ≡ reg.device_id =
        ground (arith, mux, ==_iff reg.plugin_id reg.device_id) in
      let (free, made) =
        guarded-eq-ok (check_slots reg.device_id msg.conn_id r) _ (rw (enter, mux) at h) in
      entered msg reg m _ _ _ _ _ r r' (sym same_id) refl refl refl
        (check_slots_free reg.device_id msg.conn_id r free).1 made
  | inr plain ↦
      let (free, made) =
        guarded-eq-ok (check_slots reg.plugin_id msg.conn_id r) _ (rw (enter, plain) at h) in
      entered msg reg m _ _ _ _ _ r r' refl refl refl refl
        (check_slots_free reg.plugin_id msg.conn_id r free).1 made
]

contains-retain :
    (test : Text → Bool) (ps : List Text) (p : Text)
    → contains (retain test ps) p ≡ true
    → (contains ps p ≡ true) × (test p ≡ true)
unfolding contains retain
contains-retain test [] p h = (cc, cc)
contains-retain test (q ∷ ps) p h = elim (Bool-cases (contains (retain test ps) p)) [
  | inl later ↦ let (there, good) = contains-retain test ps p later in (ground (arith, there), good)
  | inr no_more ↦ elim (==_or_not q p) [
    | inl same ↦ (ground (arith, same, ==_iff q p), rw (sym same) (ground (arith, h, no_more)))
    | inr other ↦ absurd (ground (arith, h, no_more, other, ==_iff q p))
  ]
]

clamp-allowlist :
    (cfg : Settings) (plugin_id : Text) (m : PluginManifest) (l : List Text)
    → allowlist cfg plugin_id ≡ some l
    → ((p : Text)
        → contains (clamp cfg plugin_id m).permissions p ≡ true
        → contains m.permissions p ≡ true)
      × ((a : Text) (allowed : List Text) (p : Text)
          → allowlist cfg plugin_id ≡ some (a ∷ allowed)
          → contains (clamp cfg plugin_id m).permissions p ≡ true
          → operator_allows (a ∷ allowed) p ≡ true)
      × ((clamp cfg plugin_id m).ipc_targets ≡ m.ipc_targets)
unfolding clamp
clamp-allowlist cfg plugin_id m [] e =
    rw (clamp, e) (λ p h. h, λ a allowed p q h. absurd (ground (arith, q)), refl)
clamp-allowlist cfg plugin_id m (b ∷ l) e =
    rw (clamp, e)
      (
        λ p h. (contains-retain (operator_allows (b ∷ l)) m.permissions p h).0,
        λ a allowed p q h.
            let same : b ∷ l ≡ a ∷ allowed = ground (arith, q) in
            subst (λ (t : List Text). operator_allows t p ≡ true) same
              (contains-retain (operator_allows (b ∷ l)) m.permissions p h).1,
        refl,
      )

-- A clamped manifest has no permission that is not in the manifest or that the operator's list
-- leaves out.
clamp_lem :
    (cfg : Settings) (plugin_id : Text) (m : PluginManifest)
    → ((p : Text)
        → contains (clamp cfg plugin_id m).permissions p ≡ true
        → contains m.permissions p ≡ true)
      × ((a : Text) (allowed : List Text) (p : Text)
          → allowlist cfg plugin_id ≡ some (a ∷ allowed)
          → contains (clamp cfg plugin_id m).permissions p ≡ true
          → operator_allows (a ∷ allowed) p ≡ true)
      × ((clamp cfg plugin_id m).ipc_targets ≡ m.ipc_targets)
unfolding clamp
clamp_lem cfg plugin_id m = elim (Option-cases (allowlist cfg plugin_id)) [
  | inl e ↦ rw (clamp, e) (λ p h. h, λ a allowed p q h. absurd (cc), refl)
  | inr (l, e) ↦ clamp-allowlist cfg plugin_id m l e
]

is_empty-false : (s : Text) → s ≢ [] → is_empty s ≡ false
unfolding is_empty
is_empty-false [] h = absurd (h refl)
is_empty-false (c ∷ s) h = refl

-- The manifest that a registration's check lets through, and the credential of its device.
authenticate-inr :
    (cfg : Settings) (reg : PluginRegister) (m m' : PluginManifest) (decode : Decoder)
    → authenticate cfg reg m ≡ inr m'
    → cfg.jwt ≡ some decode
    → (claims : PluginClaims) × (validate decode reg.jwt_token ≡ ok claims)
      × (is_for claims reg ≡ true)
      × (m'.permissions ≡ claims.permissions)
      × (m'.ipc_targets ≡ claims.ipc_targets)
unfolding authenticate
authenticate-inr cfg reg m m' decode h j = elim (Result-cases (validate decode reg.jwt_token)) [
  | inl (claims, v) ↦ elim (Bool-cases (is_for claims reg)) [
    | inl good ↦
        let made : record m { permissions = claims.permissions; ipc_targets = claims.ipc_targets }
            ≡ m' =
          ground (arith, rw (authenticate, j, v, good) at h) in
        (
          claims,
          v,
          good,
          sym (ap (λ (x : PluginManifest). x.permissions) made),
          sym (ap (λ (x : PluginManifest). x.ipc_targets) made),
        )
    | inr wrong ↦ absurd (ground (arith, rw (authenticate, j, v, wrong) at h))
  ]
  | inr (e, v) ↦ absurd (ground (arith, rw (authenticate, j, v) at h))
]

device_secret-inr :
    (cfg : Settings) (reg : PluginRegister) (secret : Option (List ℕ))
    (store : Text → Result (Option Text))
    → device_secret cfg reg ≡ inr secret
    → cfg.active_secret ≡ some store
    → reg.device_id ≢ []
    → is_some cfg.mac_secret ≡ true
    → (s : Text) × (store reg.device_id ≡ ok (some s))
unfolding device_secret
device_secret-inr cfg reg secret store h a named mac =
    let non_empty : is_empty reg.device_id ≡ false = is_empty-false reg.device_id named in
    elim (Result-cases (store reg.device_id)) [
      | inr (e, v) ↦ absurd (ground (arith, rw (device_secret, non_empty, mac, a, v) at h))
      | inl (o, v) ↦ elim (Option-cases o) [
        | inl n ↦ absurd (ground (arith, rw (device_secret, non_empty, mac, a, v, n) at h))
        | inr (s, found) ↦ (s, v ∙ ap (λ (x : Option Text). ok x) found)
      ]
    ]

-- From one registry to the next a plugin's entry stays, or it is the registration's, in a place
-- that was free, and granted.
abbrev pub Enters :
    Settings → IncomingMessage → PluginRegister → Text → PluginRegistry → PluginRegistry → Type 0
Enters cfg msg reg q r r' =
    (get q r'.by_plugin_id ≡ get q r.by_plugin_id)
    ⊎ ((e : PluginEntry) × (q ≡ reg.plugin_id)
        × (get q r.by_plugin_id ≡ none)
        × (get q r'.by_plugin_id ≡ some e)
        × (e.conn_id ≡ msg.conn_id)
        × IsGranted cfg reg e)

pub enter-Enters :
    (cfg : Settings) (now : Now) (msg : IncomingMessage) (reg : PluginRegister) (q : Text)
    (m m' : PluginManifest) (secret : Option (List ℕ)) (r r' : PluginRegistry)
    → is_incompatible cfg reg ≡ false
    → authenticate cfg reg m ≡ inr m'
    → device_secret cfg reg ≡ inr secret
    → enter cfg now msg reg (clamp cfg reg.plugin_id m') r ≡ ok r'
    → Enters cfg msg reg q r r'
enter-Enters cfg now msg reg q m m' secret r r' compatible authentic credential done =
    let (e, made) = enter-ok cfg now msg reg (clamp cfg reg.plugin_id m') r r' done in
    let (kept_only, allowed_only, targets_lem) = clamp_lem cfg reg.plugin_id m' in
    elim (==_or_not reg.plugin_id q) [
      | inr other ↦ inl (
          ap (λ (x : Map Text PluginEntry). get q x) made.rows
          ∙ ground
              (arith, get-insert reg.plugin_id q e r.by_plugin_id, ==_iff reg.plugin_id q, other))
      | inl same ↦ inr (
        e,
        sym same,
        subst (λ (t : Text). get t r.by_plugin_id ≡ none) same made.was_free,
        ap (λ (x : Map Text PluginEntry). get q x) made.rows
            ∙ ground
                (arith, get-insert reg.plugin_id q e r.by_plugin_id, ==_iff reg.plugin_id q, same),
        made.on_conn,
        record {
          compatible = compatible;
          token = λ decode j.
              let (claims, valid, good, perms, targets') =
                authenticate-inr cfg reg m m' decode authentic j in
              (
                claims,
                valid,
                good,
                λ p h.
                    subst (λ (t : List Text). contains t p ≡ true) perms
                      (kept_only p
                        (subst (λ (t : List Text). contains t p ≡ true) made.has_permissions h)),
                made.has_targets ∙ (targets_lem ∙ targets'),
              );
          operator = λ a allowed p l h.
              allowed_only a allowed p l
                (subst (λ (t : List Text). contains t p ≡ true) made.has_permissions h);
          paired =
              λ store a named mac. device_secret-inr cfg reg secret store credential a named mac;
        },
      )
    ]
