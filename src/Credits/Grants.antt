-- ===== src/Credits/Grants.antt =====
-- src/shared/models/credit.ts: `grantCreditsForUser` against the balances that `getRemainingCredits`
-- shows.
use apipool_v.Base.{
  ℕ, zero, suc, ◌+◌, String, true, Option, none, ok, if◌then◌else◌, str_eq, ◌≡◌, refl, sym, ap, ◌∙◌,
  arith,
}
use apipool_v.Credits.Defs.{
  Credit, Credits, grant, active, get_remaining_credits, is_unexpired, credit_expiration,
  grant_credits,
}
use apipool_v.Credits.Purse.{balance_cons, share}
use apipool_v.Credits.Promises.{created, ok-eq}

share_granted :
    (v : String) (t : ℕ) (c : Credit)
    → c.transaction_type ≡ grant
    → c.status ≡ active
    → is_unexpired t c.expires_at ≡ true
    → share v t c ≡ (if str_eq c.user_id v then c.remaining_credits else 0)
unfolding share
share_granted v t c e f live = ground arith

-- A grant raises the balance of its user by its amount, and no one else's, as long as it has not
-- expired.
pub grant_credits-IsDeposit :
    (add_days : ℕ → ℕ → ℕ) (now t : ℕ) (id tx u v : String) (n days : ℕ)
    (description : Option String) (rows rows' : Credits)
    → is_unexpired t (credit_expiration add_days now days none) ≡ true
    → grant_credits add_days now id tx u n days description rows ≡ ok rows'
    → get_remaining_credits t v rows'
      ≡ get_remaining_credits t v rows + (if str_eq u v then n else 0)
unfolding grant_credits
grant_credits-IsDeposit add_days now t id tx u v zero days description rows rows' live h =
    rw (sym (ok-eq rows rows' h)) (ground arith)
grant_credits-IsDeposit add_days now t id tx u v (suc n) days description rows rows' live h =
    ap (get_remaining_credits t v) (sym (created _ rows rows' h))
    ∙ balance_cons v t _ rows
    ∙ omega (arith, share_granted v t _ refl refl live)
