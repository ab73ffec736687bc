-- ===== src/Ipc/Router/Budget/Bursts.antt =====
-- A burst of errors throttles its connection.
use veyron.Ipc.Wire.{Wire, Frame}
use veyron.Registry.Types.{Instant}
use veyron.Ipc.Router.Budget.{
  retain_recent, ErrorCounts, error_budget_idle_ttl, errors_of, Turn, settle, is_throttle_exempt,
  admit, settle_each, throttled, count_of,
}
use veyron.Prelude.{
  nat_eq, text_eq, arith, ==_iff, ==_refl, refl, ◌≡◌, ◌≤◌, ◌<◌, ◌+◌, Bool-cases, inl, inr, ◌==◌,
  not, ◌||◌, ◌&&◌, [], ◌∷◌, none, some, true, false, if◌then◌else◌, List, Bool, Text, ℕ, leb, ◌^◌,
  ltb, all, length, ◌%◌, ◌∙◌, subst, ap, sym,
}
use veyron.Prelude.Maps.{get, get-insert, get-remove, insert, remove}

get-retain_recent :
    (now : Instant) (counts : ErrorCounts) (c : ℕ)
    → ((n last : ℕ) → get c counts ≡ some (n, last) → now < last + error_budget_idle_ttl)
    → get c (retain_recent now counts) ≡ get c counts
unfolding retain_recent get
get-retain_recent now [] c fresh = refl
get-retain_recent now ((d, (n, last)) ∷ counts) c fresh = elim (Bool-cases (d == c)) [
  | inl here' ↦ ground (arith, fresh n last (rw here' refl))
  | inr other ↦
      let later = get-retain_recent now counts c (λ n' last' e. fresh n' last' (rw other e)) in
      ground (arith, later)
]

-- The connection has made its share of errors, the last of them at or after the time.
abbrev HasErrors : ℕ → ℕ → Instant → ErrorCounts → Type 0
HasErrors c n start counts =
    (errors_of c counts ≡ n) × ((m last : ℕ) → get c counts ≡ some (m, last) → start ≤ last)

abbrev errs : ℕ → Turn → Bool
errs c t = t.conn_id == c && t.errored

-- The number of turns of the connection.
unfoldable pub turns_of : ℕ → List Turn → ℕ
turns_of c [] = 0
turns_of c (t ∷ ts) = let n = turns_of c ts in if t.conn_id == c then 1 + n else n

-- The turn is within the idle time after the start, and an error if it is of the connection.
abbrev pub in_burst : ℕ → Instant → Turn → Bool
in_burst c start t =
    leb start t.now
    && (ltb t.now (start + error_budget_idle_ttl) && (not (t.conn_id == c) || t.errored))

kept_same :
    (max_tracked c n start now : ℕ) (counts : ErrorCounts)
    → HasErrors c n start counts
    → now < start + error_budget_idle_ttl
    → get c (if leb max_tracked (length counts) then retain_recent now counts else counts)
      ≡ get c counts
kept_same max_tracked c n start now counts h soon =
    elim (Bool-cases (leb max_tracked (length counts))) [
      | inr e ↦ rw e refl
      | inl e ↦
          rw e (get-retain_recent now counts c (λ m last f. omega (arith, h.1 m last f, soon)))
    ]

counted_row :
    (c n start now : ℕ) (counts kept : ErrorCounts)
    → HasErrors c n start counts
    → get c kept ≡ get c counts
    → start ≤ now
    → n + 1 < 2 ^ 32
    → HasErrors c (1 + n) start (insert c ((errors_of c kept + 1) % 2 ^ 32, now) kept)
counted_row c n start now counts kept h e late small =
    let same' : errors_of c kept ≡ n = ap count_of e ∙ h.0 in
    let row : get c (insert c ((errors_of c kept + 1) % 2 ^ 32, now) kept)
        ≡ some ((errors_of c kept + 1) % 2 ^ 32, now) =
      get-insert c c _ kept ∙ rw (==_refl c) refl in
    (ap count_of row ∙ omega (arith, small, same'), λ m last f. ground (arith, late))

other_row :
    (c d n start : ℕ) (row : ℕ × Instant) (counts kept : ErrorCounts)
    → HasErrors c n start counts
    → get c kept ≡ get c counts
    → (d == c) ≡ false
    → HasErrors c n start (insert d row kept)
other_row c d n start row counts kept h e ne =
    let row' : get c (insert d row kept) ≡ get c counts =
      get-insert d c row kept ∙ rw (ne, e) refl in
    (ap count_of row' ∙ h.0, λ m last f. h.1 m last (rw row' at f))

settle-HasErrors :
    (max_tracked c n start : ℕ) (t : Turn) (counts : ErrorCounts)
    → HasErrors c n start counts
    → in_burst c start t ≡ true
    → (if t.conn_id == c then 1 + n else n) < 2 ^ 32
    → HasErrors c
        (if t.conn_id == c then 1 + n else n)
        start
        (settle max_tracked t.conn_id t.errored t.now counts)
unfolding settle
settle-HasErrors max_tracked c n start t counts h burst small = elim (Bool-cases t.errored) [
  | inl err' ↦
      let kept = if leb max_tracked (length counts) then retain_recent t.now counts else counts in
      let same' = kept_same max_tracked c n start t.now counts h (ground arith) in
      elim (Bool-cases (t.conn_id == c)) [
        | inl here' ↦
            rw (here', err', settle)
              (subst
                (λ d.
                  HasErrors c (1 + n) start
                    (insert d ((errors_of d kept + 1) % 2 ^ 32, t.now) kept))
                (sym ((==_iff t.conn_id c).0 here'))
                (counted_row c n start t.now counts kept h same' (ground arith) (ground arith)))
        | inr there' ↦
            rw (there', err', settle) (other_row c t.conn_id n start _ counts kept h same' there')
      ]
  | inr fine ↦
      let there' : (t.conn_id == c) ≡ false = ground arith in
      let row : get c (remove t.conn_id counts) ≡ get c counts =
        get-remove t.conn_id c counts ∙ rw there' refl in
      rw (there', fine, settle) (ap count_of row ∙ h.0, λ m last f. h.1 m last (rw row at f))
]

settle_each-HasErrors :
    (max_tracked c n start : ℕ) (ts : List Turn) (counts : ErrorCounts)
    → HasErrors c n start counts
    → all (in_burst c start) ts ≡ true
    → turns_of c ts + n < 2 ^ 32
    → HasErrors c (turns_of c ts + n) start (settle_each max_tracked ts counts)
unfolding settle_each turns_of all
settle_each-HasErrors max_tracked c n start [] counts h burst small = (ground (arith, h.0), h.1)
settle_each-HasErrors max_tracked c n start (t ∷ ts) counts h burst small =
    let next = settle-HasErrors max_tracked c n start t counts h (ground arith) (ground arith) in
    subst
      (λ m.
        HasErrors c m start
          (settle_each max_tracked ts (settle max_tracked t.conn_id t.errored t.now counts)))
      (ground arith)
      (settle_each-HasErrors max_tracked c (if t.conn_id == c then 1 + n else n) start ts _ next
        (ground arith) (ground arith))

-- Whatever other connections do, errors in a row within the idle time all count: after a burst of
-- as many as the budget has, a message of the connection that is not exempt is dropped without a
-- reply, unless the rate limit or a bad target stops it first.
pub burst_throttles :
    (w : Wire) (max_conn_errors max_tracked c start : ℕ) (f : Frame) (target : Text)
    (ts : List Turn) (counts : ErrorCounts)
    → get c counts ≡ none
    → all (in_burst c start) ts ≡ true
    → max_conn_errors ≤ turns_of c ts
    → turns_of c ts < 2 ^ 32
    → w.target_as_str f ≡ some target
    → is_throttle_exempt w f ≡ false
    → admit w max_conn_errors false c f (settle_each max_tracked ts counts) ≡ throttled
unfolding admit
burst_throttles w max_conn_errors max_tracked c start f target ts counts fresh burst full small to
      plain =
    let h =
      (settle_each-HasErrors max_tracked c 0 start ts counts
        (ap count_of fresh, λ m last f. absurd (ground arith)) burst (omega (arith, small))).0 in
    ground (arith, h)
