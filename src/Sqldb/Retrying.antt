-- ===== src/Sqldb/Retrying.antt =====
-- How often `connectWithRetry` of internal/pkg/sqldb/slqdb.go tries.
use go_project_example.Base.{
  ℕ, zero, suc, ◌+◌, ◌≤◌, ◌<◌, ◌≡◌, ◌∙◌, refl, arith, Option, none, some, Bytes, pos, negsuc,
  Result,
}
use go_project_example.Xerrors.{Error}
use go_project_example.Effects.{Outcome, ok, err, panic, M}
use go_project_example.Sqldb.{
  Sqlx, ConnectOptions, connect, connect_with_retry, attempts, after, once,
}

module _ {W : Type 0} (sqlx : Sqlx W) (tried : W → ℕ)
    (tried-connect : (driver dsn : Bytes) (w : W)
      → tried (sqlx.connect driver dsn w).0 ≡ tried w + 1)
    (tried-sleep : (n : ℕ) (w : W) → tried (sqlx.sleep n w) ≡ tried w) where
  -- `n` attempts are allowed: a success takes at least one and at most all of them, a failure takes all,
  -- and there is no other end.
  abbrev pub Within : ℕ → ℕ → W × Outcome (Option sqlx.Conn) → Type 0
  Within before n (w, ok (some db)) = (before < tried w) × (tried w ≤ before + n)
  Within before n (w, ok none) = ⊥
  Within before n (w, err e) = tried w ≡ before + n
  Within before n (w, panic) = ⊥

  once-Within :
      (before : ℕ) (r : W × Result Error sqlx.Conn)
      → tried r.0 ≡ before + 1
      → Within before 1 (once sqlx r)
  once-Within before (w, Result.ok db) h = omega (arith, h)
  once-Within before (w, Result.err e) h = h

  -- One attempt more before the rest.
  Within-suc :
      (before n : ℕ) (r : W × Outcome (Option sqlx.Conn))
      → Within (before + 1) n r
      → Within before (suc n) r
  Within-suc before n (w, ok (some db)) h = omega (arith, h)
  Within-suc before n (w, err e) h = omega (arith, h)
  Within-suc before n (w, ok none) h = elim h [ ]
  Within-suc before n (w, panic) h = elim h [ ]

  -- After an attempt, from what the further ones do.
  after-Within :
      (n : ℕ) (before : ℕ) (more : M W (Option sqlx.Conn)) (r : W × Result Error sqlx.Conn)
      → tried r.0 ≡ before + 1
      → ((k : ℕ) (w : W) → n ≡ suc k → tried w ≡ before + 1 → Within (before + 1) n (more w))
      → Within before (suc n) (after sqlx n more r)
  after-Within n before more (w, Result.ok db) h rest = omega (arith, h)
  after-Within zero before more (w, Result.err e) h rest = omega (arith, h)
  after-Within (suc n) before more (w, Result.err e) h rest =
      Within-suc before (suc n) (more (sqlx.sleep 3 w))
        (rest n (sqlx.sleep 3 w) refl (tried-sleep 3 w ∙ h))

  attempts-Within :
      (n : ℕ) (driver dsn : Bytes) (w : W)
      → Within (tried w) (suc n) (attempts sqlx (suc n) driver dsn w)
  unfolding attempts
  attempts-Within zero driver dsn w =
      after-Within zero (tried w) (attempts sqlx zero driver dsn) (sqlx.connect driver dsn w)
        (tried-connect driver dsn w) (λ k u e at. cc)
  attempts-Within (suc n) driver dsn w =
      after-Within (suc n) (tried w) (attempts sqlx (suc n) driver dsn) (sqlx.connect driver dsn w)
        (tried-connect driver dsn w) (λ k u e at. rw (← at) (attempts-Within n driver dsn u))

  -- How many attempts a number of retries allows.
  abbrev pub allowed : ℕ → ℕ
  allowed zero = 1
  allowed (suc n) = suc n

  -- For a number of retries that is not negative, `connectWithRetry` ends after at most that many
  -- attempts, or after one if it is 0: with a connection after at least one attempt, or with an error
  -- after all of them. It neither panics nor returns a nil connection without an error.
  pub connect_with_retry-Within :
      (n : ℕ) (driver dsn : Bytes) (w : W)
      → Within (tried w) (allowed n) (connect_with_retry sqlx driver dsn (pos n) w)
  unfolding connect_with_retry
  connect_with_retry-Within zero driver dsn w =
      once-Within (tried w) (sqlx.connect driver dsn w) (tried-connect driver dsn w)
  connect_with_retry-Within (suc n) driver dsn w = attempts-Within n driver dsn w

module _ {W : Type 0} (sqlx : Sqlx W) where
  -- With a negative number of retries `Connect` makes no attempt: it reads a nil connection.
  connect_negative :
      (n : ℕ) (driver dsn : Bytes) (opts : ConnectOptions) (w : W)
      → opts.retry ≡ negsuc n
      → connect sqlx driver dsn (some opts) w ≡ (w, panic)
  unfolding connect connect_with_retry attempts
  connect_negative n driver dsn opts w h = rw h refl
