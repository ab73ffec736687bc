-- ===== src/Auth/Devices/Lifecycle.antt =====
-- A device's credential from its issue to its revocation.
use veyron.Auth.Devices.{
  find_row, check_rows, first, after, put_row, DeviceRecord, Vault, unseal, read_all, active_secret,
  issue, status, seal, Disk, write_all, refusal_of, expired, active,
}
use veyron.Utils.Errors.{ok, Result-cases, err}
use veyron.Prelude.{
  ◌==◌, ◌++◌, [], ◌∷◌, some, refl, text_eq, nat_eq, arith, if◌then◌else◌, ==_iff, ◌≡◌, List, Text,
  ℕ, length, ap, none, inl, inr, true, false, ==_refl, Option-cases, Bool-cases, ◌+◌, ◌≢◌, ◌<◌, leb,
  ◌%◌, ◌^◌, length-append, ◌∙◌, subst, ltb, sym,
}

first-append : (nonce ct : List ℕ) → first (length nonce) (nonce ++ ct) ≡ nonce
first-append [] ct = refl
first-append (b ∷ nonce) ct = ap (λ (t : List ℕ). b ∷ t) (first-append nonce ct)

after-append : (nonce ct : List ℕ) → after (length nonce) (nonce ++ ct) ≡ ct
after-append [] ct = refl
after-append (b ∷ nonce) ct = after-append nonce ct

find_row-put_row :
    (fresh : DeviceRecord) (id : Text) (rows : List DeviceRecord)
    → find_row id (put_row fresh rows)
      ≡ (if fresh.device_id == id then some fresh else find_row id rows)
unfolding find_row put_row
find_row-put_row fresh id [] = refl
find_row-put_row fresh id (row ∷ rows) = ground (
  arith,
  find_row-put_row fresh id rows,
  ==_iff row.device_id fresh.device_id,
  ==_iff fresh.device_id id,
  ==_iff row.device_id id,
)

check_rows-put_row :
    (v : Vault) (fresh : DeviceRecord) (secret : Text) (rows : List DeviceRecord)
    → unseal v fresh.secret_enc ≡ ok secret
    → check_rows v rows ≡ ok tt
    → check_rows v (put_row fresh rows) ≡ ok tt
unfolding check_rows put_row
check_rows-put_row v fresh secret [] u h = ground (arith, u)
check_rows-put_row v fresh secret (row ∷ rows) u h =
    ground (arith, check_rows-put_row v fresh secret rows u, u, h)

read_all-ok :
    (v : Vault) (disk : Disk) (rows : List DeviceRecord)
    → read_all v disk ≡ ok rows
    → (disk.read_error ≡ none) × (rows ≡ disk.rows) × (check_rows v disk.rows ≡ ok tt)
unfolding read_all
read_all-ok v disk rows h = elim (Option-cases disk.read_error) [
  | inr (e, r) ↦ absurd (ground (arith, h, r))
  | inl r ↦ elim (Result-cases (check_rows v disk.rows)) [
    | inr (e, c) ↦ absurd (ground (arith, h, r, c))
    | inl (u, c) ↦ (r, ground (arith, h, r, c), c)
  ]
]

-- The credential that an issue writes.
abbrev pub credential : ℕ → Text → Text → ℕ → List ℕ → DeviceRecord
credential now_secs device_id name ttl_secs enc = record {
  device_id = device_id;
  name = name;
  created_at = now_secs;
  expires_at = (now_secs + ttl_secs) % 2 ^ 64;
  revoked = false;
  secret_enc = enc;
}

issue-ok :
    (v : Vault) (now_secs : ℕ) (nonce : List ℕ) (secret id name s : Text) (ttl : ℕ)
    (disk disk' : Disk)
    → issue v now_secs nonce secret id name ttl disk ≡ ok (s, disk')
    → (ct : List ℕ) × (v.encrypt nonce secret ≡ some ct)
      × (read_all v disk ≡ ok disk.rows)
      × (check_rows v disk.rows ≡ ok tt)
      × (s ≡ secret)
      × (disk' ≡ record disk {
        rows = put_row (credential now_secs id name ttl (nonce ++ ct)) disk.rows;
      })
unfolding issue seal write_all
issue-ok v now_secs nonce secret id name s ttl disk disk' h =
    elim (Result-cases (read_all v disk)) [
      | inr (e, r) ↦ absurd (ground (arith, h, r))
      | inl (rows, r) ↦
          let (no_error, rows_lem, checked) = read_all-ok v disk rows r in
          let whole : read_all v disk ≡ ok disk.rows =
            r ∙ ap (λ (x : List DeviceRecord). ok x) rows_lem in
          elim (Option-cases (v.encrypt nonce secret)) [
            | inl n ↦ absurd (ground (arith, h, whole, n))
            | inr (ct, n) ↦ elim (Option-cases disk.write_error) [
              | inr (e, wr) ↦ absurd (ground (arith, h, whole, n, wr))
              | inl wr ↦
                  let made : ok (
                    secret,
                    record disk {
                      rows = put_row (credential now_secs id name ttl (nonce ++ ct)) disk.rows;
                    },
                  )
                      ≡ ok (s, disk') =
                    rw (issue, whole, n, seal, write_all, wr) at h in
                  (ct, n, whole, checked, ground (arith, made), ground (arith, made))
            ]
          ]
    ]

length_some : (ct : List ℕ) → ct ≢ [] → 0 < length ct
length_some [] h = absurd (h refl)
length_some (b ∷ ct) h = omega arith

unseal_sealed :
    (v : Vault) (nonce ct : List ℕ) (secret : Text)
    → length nonce ≡ 12
    → ct ≢ []
    → v.decrypt nonce ct ≡ some secret
    → v.is_utf8 secret ≡ true
    → unseal v (nonce ++ ct) ≡ ok secret
unfolding unseal
unseal_sealed v nonce ct secret twelve some_ct opens text =
    let long : leb (length (nonce ++ ct)) 12 ≡ false =
      ground (arith, length-append nonce ct, twelve, length_some ct some_ct) in
    let front : first 12 (nonce ++ ct) ≡ nonce =
      subst (λ (n : ℕ). first n (nonce ++ ct) ≡ nonce) twelve (first-append nonce ct) in
    let back : after 12 (nonce ++ ct) ≡ ct =
      subst (λ (n : ℕ). after n (nonce ++ ct) ≡ ct) twelve (after-append nonce ct) in
    rw (unseal, long, front, back, opens, text) refl

-- What the gate says of a row that is there and not revoked.
gate_open :
    (v : Vault) (later : ℕ) (disk : Disk) (rows : List DeviceRecord) (row : DeviceRecord)
    (secret : Text) (until : ℕ)
    → read_all v disk ≡ ok rows
    → find_row row.device_id rows ≡ some row
    → unseal v row.secret_enc ≡ ok secret
    → row.revoked ≡ false
    → row.expires_at ≡ until
    → active_secret v later row.device_id disk
      ≡ (if ltb later until then ok (some secret) else err (refusal_of row.device_id expired))
unfolding active_secret status
gate_open v later disk rows row secret until r f u alive time =
    let state : status row later ≡ (if leb until later then expired else active) =
      ground (arith, alive, time) in
    elim (Bool-cases (leb until later)) [
      | inl over ↦ rw (active_secret, r, f, u, state, over) (ground (arith, over))
      | inr on ↦ rw (active_secret, r, f, u, state, on) (ground (arith, on))
    ]

gate_same :
    (v : Vault) (later : ℕ) (id : Text) (d d' : Disk) (rows rows' : List DeviceRecord)
    → read_all v d ≡ ok rows
    → read_all v d' ≡ ok rows'
    → find_row id rows ≡ find_row id rows'
    → active_secret v later id d ≡ active_secret v later id d'
unfolding active_secret
gate_same v later id d d' rows rows' r r' f = rw (active_secret, r, r', f) refl

-- Where the issue of a credential at `now_secs` for `ttl` seconds succeeds, the secret is handed
-- out as it was drawn, and the gate gives it back until that time is over and then says that it
-- expired; what the gate says of any other device stays. The cipher decrypts what it encrypts, to
-- which it gives no empty text, the secret is text, the nonce has its twelve bytes, and the time
-- of expiry fits 64 bits.
pub issue_opens :
    (v : Vault) (now_secs later : ℕ) (nonce : List ℕ) (secret id name s other : Text) (ttl : ℕ)
    (disk disk' : Disk)
    → ((ct : List ℕ)
        → v.encrypt nonce secret ≡ some ct
        → (v.decrypt nonce ct ≡ some secret) × (ct ≢ []))
    → v.is_utf8 secret ≡ true
    → length nonce ≡ 12
    → now_secs + ttl < 2 ^ 64
    → id ≢ other
    → issue v now_secs nonce secret id name ttl disk ≡ ok (s, disk')
    → (s ≡ secret)
      × (active_secret v later id disk'
          ≡ (if ltb later (now_secs + ttl) then ok (some secret) else err (refusal_of id expired)))
      × (active_secret v later other disk' ≡ active_secret v later other disk)
unfolding active_secret read_all status
issue_opens v now_secs later nonce secret id name s other ttl disk disk' opens text twelve room
      apart h =
    let (ct, n, whole, checked, s_lem, made) =
      issue-ok v now_secs nonce secret id name s ttl disk disk' h in
    let (no_error, same_rows, checked') = read_all-ok v disk disk.rows whole in
    let fresh : DeviceRecord = credential now_secs id name ttl (nonce ++ ct) in
    let (decrypts, some_ct) = opens ct n in
    let sealed : unseal v (nonce ++ ct) ≡ ok secret =
      unseal_sealed v nonce ct secret twelve some_ct decrypts text in
    let readable : check_rows v (put_row fresh disk.rows) ≡ ok tt =
      check_rows-put_row v fresh secret disk.rows sealed checked in
    let mine : find_row id (put_row fresh disk.rows) ≡ some fresh =
      find_row-put_row fresh id disk.rows ∙ ground (arith, ==_refl id) in
    let theirs : find_row other (put_row fresh disk.rows) ≡ find_row other disk.rows =
      find_row-put_row fresh other disk.rows ∙ ground (arith, ==_iff id other, apart) in
    let written : Disk = record disk { rows = put_row fresh disk.rows } in
    let read_back : read_all v written ≡ ok (put_row fresh disk.rows) =
      rw (read_all, no_error, readable) refl in
    (
      s_lem,
      subst
          (λ (x : Disk). active_secret v later id x ≡ (
            if ltb later (now_secs + ttl) then ok (some secret) else err (refusal_of id expired)))
          (sym made)
          (gate_open v later written (put_row fresh disk.rows) fresh secret (now_secs + ttl)
            read_back mine sealed refl (omega (arith, room))),
      subst (λ (x : Disk). active_secret v later other x ≡ active_secret v later other disk)
          (sym made)
          (gate_same v later other written disk (put_row fresh disk.rows) disk.rows read_back whole
            theirs),
    )
